-- ===== src/Orchestrator/Acyclic.antt =====
-- When the start order is refused: services that can be ranked below their dependents.
use embla.Prelude.{
  ℕ, zero, suc, ◌+◌, ◌<◌, ◌≤◌, ◌≡◌, refl, ap, ◌≢◌, inl, inr, Bool, true, false, Option, none, some,
  List, [], ◌∷◌, All, arith, ◌==◌, ==_iff, ==_ne, Bool-cases, update,
}
use embla.Process.{Ptr, null, CString}
use embla.Service.{bytes_eq}
use embla.Registry.{Services, ServiceRegistry, get, get_name, find_index}
use embla.Table.Keyed.{slot}
use embla.Table.Laws
use embla.Orchestrator.{
  Color, white, gray, black, Search, Visit, done, refused, out_of_fuel, get_dependencies,
  service_index, visit_color, visit_index, visit_dependency, visit_dependencies, emit, visit,
  visit_white, visit_all, compute_start_order,
}
use embla.Orchestrator.Order.{compute_start_order-Sweeps, Sweeps}

black-ne-gray : black ≢ gray
black-ne-gray e = cc

found_in_range :
    (slots : ℕ → Ptr) (test : Ptr → Bool) (n : ℕ) (o : Option ℕ)
    → Laws.Search slots test n 0 o
    → slot slots o ≢ null
    → (k : ℕ) × (k < n) × (slots k ≡ slot slots o)
found_in_range slots test n none found live = absurd (live refl)
found_in_range slots test n (some k) (_, within, _, _) live = (k, omega arith, refl)

module _ (r : ServiceRegistry) (ss : Services) where
  -- A registered name leads to a slot in use.
  get-slot :
      (name : CString)
      → get r ss (some name) ≢ null
      → (k : ℕ) × (k < r.count) × (r.services k ≡ get r ss (some name))
  unfolding get find_index
  get-slot name live =
      found_in_range r.services (λ p. bytes_eq (get_name ss p) name) r.count _
        (Laws.find_from-Search r.services (λ p. bytes_eq (get_name ss p) name) r.count 0) live

  indexed :
      (target : Ptr) (o : Option ℕ) (k : ℕ)
      → k < r.count
      → r.services k ≡ target
      → Laws.Search r.services (λ p. p == target) r.count 0 o
      → (m : ℕ) × (m < r.count) × (o ≡ some m) × (r.services m ≡ target)
  indexed target none k lt is absent =
      absurd (cc (absent k (omega arith) (omega arith), (==_iff _ _).1 is))
  indexed target (some m) k lt is (_, within, pass, _) = (m, omega arith, refl, (==_iff _ _).0 pass)

  service_index-slot :
      (target : Ptr) (k : ℕ)
      → k < r.count
      → r.services k ≡ target
      → (m : ℕ) × (m < r.count) × (service_index r ss target ≡ some m) × (r.services m ≡ target)
  unfolding service_index
  service_index-slot target k lt is =
      indexed target _ k lt is (Laws.find_from-Search r.services (λ p. p == target) r.count 0)

  -- Every dependency of the service in slot `i` is registered, and ranked below the service.
  abbrev pub RanksBelow : (Ptr → ℕ) → ℕ → List CString → Type 0
  RanksBelow rank k names =
      All (λ name. (get r ss (some name) ≢ null) × (rank (get r ss (some name)) < k)) names

  -- A ranking of the services by their dependencies; there is none if they form a cycle.
  abbrev pub IsRanked : (Ptr → ℕ) → Type 0
  IsRanked rank =
      (i : ℕ)
      → i < r.count
      → RanksBelow rank (rank (r.services i)) (get_dependencies ss (r.services i))

  -- A visit that is not refused leaves no more services gray than there were.
  abbrev Clears : Search → Visit → Type 0
  Clears s (done s') = (j : ℕ) → s'.colors j ≡ gray → s.colors j ≡ gray
  Clears s refused = ⊥
  Clears s out_of_fuel = Unit

  -- All gray services are ranked at `k` or above.
  abbrev GraysFrom : (Ptr → ℕ) → ℕ → Search → Type 0
  GraysFrom rank k s = (j : ℕ) → s.colors j ≡ gray → k ≤ rank (r.services j)

  -- What is asked of the visits of the dependencies.
  abbrev Visits : (Ptr → ℕ) → (ℕ → Search → Visit) → Type 0
  Visits rank visit =
      (index : ℕ) (s : Search)
      → index < r.count
      → GraysFrom rank (suc (rank (r.services index))) s
      → Clears s (visit index s)

  Clears-then :
      (s : Search) (v : Visit) (next : Search → Visit)
      → Clears s v
      → ((s' : Search) → ((j : ℕ) → s'.colors j ≡ gray → s.colors j ≡ gray) → Clears s (next s'))
      → Clears s (elim v [ done s' ↦ next s' | refused ↦ refused | out_of_fuel ↦ out_of_fuel ])
  Clears-then s (done s') next clear rest = rest s' clear
  Clears-then s refused next clear rest = clear
  Clears-then s out_of_fuel next clear rest = tt

  Clears-trans :
      (s s' : Search) (v : Visit)
      → ((j : ℕ) → s'.colors j ≡ gray → s.colors j ≡ gray)
      → Clears s' v
      → Clears s v
  Clears-trans s s' (done t) before clear = λ j h. before j (clear j h)
  Clears-trans s s' refused before clear = clear
  Clears-trans s s' out_of_fuel before clear = tt

  visit_color-Clears :
      (rank : Ptr → ℕ) (visit : ℕ → Search → Visit) (index k : ℕ) (s : Search) (c : Color)
      → Visits rank visit
      → index < r.count
      → rank (r.services index) < k
      → GraysFrom rank k s
      → s.colors index ≡ c
      → Clears s (visit_color r ss visit index s c)
  unfolding visit_color
  visit_color-Clears rank visit index k s gray visits lt below grays e =
      absurd (omega (arith, grays index e))
  visit_color-Clears rank visit index k s white visits lt below grays e =
      visits index s lt (λ j h. omega (arith, grays j h))
  visit_color-Clears rank visit index k s black visits lt below grays e = λ j h. h

  visit_dependency-Clears :
      (rank : Ptr → ℕ) (visit : ℕ → Search → Visit) (k : ℕ) (name : CString) (s : Search)
      → Visits rank visit
      → get r ss (some name) ≢ null
      → rank (get r ss (some name)) < k
      → GraysFrom rank k s
      → Clears s (visit_dependency r ss visit name s)
  unfolding visit_dependency visit_index
  visit_dependency-Clears rank visit k name s visits live below grays =
      let (i, lt, at) = get-slot name live in
      let (m, lt', found, is) = service_index-slot (get r ss (some name)) i lt at in
      rw (==_ne (get r ss (some name)) null live) (
        rw (found, visit_index)
          (visit_color-Clears rank visit m k s (s.colors m) visits lt' (omega (arith, ap rank is))
            grays refl))

  visit_dependencies-Clears :
      (rank : Ptr → ℕ) (visit : ℕ → Search → Visit) (k : ℕ) (names : List CString) (s : Search)
      → Visits rank visit
      → RanksBelow rank k names
      → GraysFrom rank k s
      → Clears s (visit_dependencies r ss visit names s)
  unfolding visit_dependencies
  visit_dependencies-Clears rank visit k [] s visits below grays = λ j h. h
  visit_dependencies-Clears rank visit k (name ∷ names) s visits ((live, low), below) grays =
      Clears-then s (visit_dependency r ss visit name s) (visit_dependencies r ss visit names)
        (visit_dependency-Clears rank visit k name s visits live low grays)
        (λ s' clear. Clears-trans s s' _ clear (
          visit_dependencies-Clears rank visit k names s' visits below
            (λ j h. grays j (clear j h))))

  visit-Clears : (rank : Ptr → ℕ) (fuel : ℕ) → IsRanked rank → Visits rank (visit r ss fuel)
  unfolding visit emit
  visit-Clears rank zero ranked index s lt grays = tt
  visit-Clears rank (suc fuel) ranked index s lt grays =
      let s₀ : Search = record s { colors = update s.colors index gray } in
      close s₀
        (visit_dependencies r ss (visit r ss fuel) (get_dependencies ss (r.services index)) s₀)
        (λ j h apart. (rw apart at h))
        (visit_dependencies-Clears rank (visit r ss fuel) (rank (r.services index))
          (get_dependencies ss (r.services index)) s₀ (visit-Clears rank fuel ranked)
          (ranked index lt)
          (λ j h. elim (Bool-cases (index == j)) [
            | inl same ↦ omega (arith, ap (λ i. rank (r.services i)) ((==_iff index j).0 same))
            | inr apart ↦ omega (arith, grays j (rw apart at h))
          ]))
    where
      close :
          (s₀ : Search) (v : Visit)
          → ((j : ℕ) → s₀.colors j ≡ gray → (index == j) ≡ false → s.colors j ≡ gray)
          → Clears s₀ v
          → Clears s (elim v [
            | done s' ↦ done (emit r ss index s')
            | refused ↦ refused
            | out_of_fuel ↦ out_of_fuel
          ])
      close s₀ (done s') back clear = λ j h. elim (Bool-cases (index == j)) [
        | inl same ↦ absurd (black-ne-gray (rw same at h))
        | inr apart ↦ back j (clear j (rw apart at h)) apart
      ]
      close s₀ refused back clear = clear
      close s₀ out_of_fuel back clear = tt

  IsClear : Search → Type 0
  IsClear s = (j : ℕ) → s.colors j ≢ gray

  visit_white-Clears :
      (rank : Ptr → ℕ) (fuel i : ℕ) (s : Search) (c : Color)
      → IsRanked rank
      → i < r.count
      → IsClear s
      → Clears s (visit_white r ss fuel i s c)
  unfolding visit_white IsClear
  visit_white-Clears rank fuel i s white ranked lt clear =
      visit-Clears rank fuel ranked i s lt (λ j h. absurd (clear j h))
  visit_white-Clears rank fuel i s gray ranked lt clear = λ j h. h
  visit_white-Clears rank fuel i s black ranked lt clear = λ j h. h

  visit_all-Clears :
      (rank : Ptr → ℕ) (fuel left i : ℕ) (s : Search)
      → IsRanked rank
      → i + left ≡ r.count
      → IsClear s
      → Clears s (visit_all r ss fuel left i s)
  unfolding visit_all IsClear
  visit_all-Clears rank fuel zero i s ranked e clear = λ j h. h
  visit_all-Clears rank fuel (suc left) i s ranked e clear =
      Clears-then s (visit_white r ss fuel i s (s.colors i)) (visit_all r ss fuel left (i + 1))
        (visit_white-Clears rank fuel i s (s.colors i) ranked (omega arith) clear)
        (λ s' back. Clears-trans s s' _ back (
          visit_all-Clears rank fuel left (i + 1) s' ranked (omega arith)
            (λ j h. clear j (back j h))))

  accepted : (s : Search) (v : Visit) → Sweeps r ss v → Clears s v → (s' : Search) × (v ≡ done s')
  accepted s (done s') sweeps clears = (s', refl)
  accepted s refused sweeps clears = absurd clears
  accepted s out_of_fuel sweeps clears = absurd sweeps

abbrev started : (ℕ → Ptr) → Search
started out_order = record { colors = λ _. white; out_order = out_order; out_index = 0 }

compute_start_order-Clears :
    (r : ServiceRegistry) (ss : Services) (out_order : ℕ → Ptr) (rank : Ptr → ℕ)
    → IsRanked r ss rank
    → Clears r ss (started out_order) (compute_start_order r ss true out_order)
unfolding compute_start_order IsClear
compute_start_order-Clears r ss out_order rank ranked = elim (Bool-cases (r.count == 0)) [
  | inl empty ↦ rw empty (λ j h. h)
  | inr some_left ↦ rw some_left (
      visit_all-Clears r ss rank (r.count + 1) r.count 0 (started out_order) ranked (omega arith)
        (λ j h. cc h))
]

-- If all dependencies are registered and form no cycle (the services can be ranked, each above those
-- that it depends on), and the memory suffices, the start order is computed.
pub compute_start_order-accepts :
    (r : ServiceRegistry) (ss : Services) (out_order : ℕ → Ptr) (rank : Ptr → ℕ)
    → IsRanked r ss rank
    → (s : Search) × (compute_start_order r ss true out_order ≡ done s)
compute_start_order-accepts r ss out_order rank ranked =
    accepted r ss (started out_order) (compute_start_order r ss true out_order)
      (compute_start_order-Sweeps r ss true out_order)
      (compute_start_order-Clears r ss out_order rank ranked)
