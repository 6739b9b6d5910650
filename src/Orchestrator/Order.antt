-- ===== src/Orchestrator/Order.antt =====
-- The start order: where each service stands in it, and how the search ends.
use embla.Prelude.{
  ℕ, zero, suc, ◌+◌, ◌<◌, ◌≡◌, refl, ap, ◌∙◌, ◌≢◌, inl, inr, Bool, true, Option, none, some, List,
  [], ◌∷◌, elem, arith, ◌==◌, ==_iff, Bool-cases, subst, update, update_self, last_or_before,
}
use embla.Process.{Ptr, null, CString}
use embla.Registry.{Services, ServiceRegistry, get}
use embla.Table.{find_from}
use embla.Table.Laws.{find_from-Search, contents-push}
use embla.Table.Laws
use embla.Orchestrator.{
  Color, white, gray, black, Search, Visit, done, refused, out_of_fuel, get_dependencies,
  service_index, visit_color, visit_index, visit_dependency, visit_dependencies, emit, visit,
  visit_white, visit_all, compute_start_order,
}
use embla.Orchestrator.Emitted.{
  whites, whites-le, whites-bound, whites-gray, emitted, Present, IsOrdered, Good, Grows,
  Grows-refl, Grows-trans, emit-Good, emit-Grows, gray-Good,
}

module _ (r : ServiceRegistry) (ss : Services) where
  -- A visit ends well with `index` black, or with an error, and never for want of fuel.
  abbrev Ends : Search → (Search → Type 0) → Visit → Type 0
  Ends s P (done s') = Good r ss s' × Grows r ss s s' × P s'
  Ends s P refused = Unit
  Ends s P out_of_fuel = ⊥

  abbrev Visits : ℕ → (ℕ → Search → Visit) → Type 0
  Visits fuel go =
      (index : ℕ) (s : Search)
      → index < r.count
      → s.colors index ≡ white
      → Good r ss s
      → whites s.colors r.count < fuel
      → Ends s (λ s'. s'.colors index ≡ black) (go index s)

  visit_color-Ends :
      (fuel : ℕ) (go : ℕ → Search → Visit)
      → Visits fuel go
      → (index : ℕ) (s : Search) (c : Color) → index < r.count
      → s.colors index ≡ c
      → Good r ss s
      → whites s.colors r.count < fuel
      → Ends s (λ s'. s'.colors index ≡ black) (visit_color r ss go index s c)
  unfolding visit_color
  visit_color-Ends fuel go rec index s white lt e good fits = rec index s lt e good fits
  visit_color-Ends fuel go rec index s gray lt e good fits = tt
  visit_color-Ends fuel go rec index s black lt e good fits = (good, Grows-refl r ss s, e)

  Ends-map :
      (s : Search) (P Q : Search → Type 0) (v : Visit)
      → ((s' : Search) → Good r ss s' → P s' → Q s')
      → Ends s P v
      → Ends s Q v
  Ends-map s P Q (done s') f (good, grows, p) = (good, grows, f s' good p)
  Ends-map s P Q refused f h = tt
  Ends-map s P Q out_of_fuel f h = h

  Ends-after :
      (a b : Search) (P : Search → Type 0) (v : Visit) → Grows r ss a b → Ends b P v → Ends a P v
  Ends-after a b P (done s') f (good, grows, p) = (good, Grows-trans r ss a b s' f grows, p)
  Ends-after a b P refused f h = tt
  Ends-after a b P out_of_fuel f h = h

  visit_dependency-Ends :
      (fuel : ℕ) (go : ℕ → Search → Visit)
      → Visits fuel go
      → (name : CString) (s : Search) → Good r ss s
      → whites s.colors r.count < fuel
      → Ends s
          (λ s'. elem (get r ss (some name)) (emitted s') ≡ true)
          (visit_dependency r ss go name s)
  unfolding visit_dependency visit_index service_index
  visit_dependency-Ends fuel go rec name s good fits =
      elim (Bool-cases (get r ss (some name) == null)) [
        | inl missing ↦ rw missing tt
        | inr there ↦ rw there (
            found (find_from r.services test r.count 0)
              (find_from-Search r.services test r.count 0))
      ]
    where
      test : Ptr → Bool
      test p = p == get r ss (some name)

      found :
          (o : Option ℕ)
          → Laws.Search r.services test r.count 0 o
          → Ends s (λ s'. elem (get r ss (some name)) (emitted s') ≡ true) (visit_index r ss go s o)
      found none absent = tt
      found (some k) (_, within, pass, _) =
          Ends-map s (λ s'. s'.colors k ≡ black)
            (λ s'. elem (get r ss (some name)) (emitted s') ≡ true)
            (visit_color r ss go k s (s.colors k))
            (λ s' good' dark.
              subst (λ p. elem p (emitted s') ≡ true)
                ((==_iff (r.services k) (get r ss (some name))).0 pass)
                (good'.blacks k (omega arith) dark))
            (visit_color-Ends fuel go rec k s (s.colors k) (omega arith) refl good fits)

  visit_dependencies-Ends :
      (fuel : ℕ) (go : ℕ → Search → Visit)
      → Visits fuel go
      → (names : List CString) (s : Search) → Good r ss s
      → whites s.colors r.count < fuel
      → Ends s (λ s'. Present r ss names (emitted s')) (visit_dependencies r ss go names s)
  unfolding visit_dependencies
  visit_dependencies-Ends fuel go rec [] s good fits = (good, Grows-refl r ss s, tt)
  visit_dependencies-Ends fuel go rec (name ∷ names) s good fits =
      next (visit_dependency r ss go name s) (visit_dependency-Ends fuel go rec name s good fits)
        (λ s' good' fits'. visit_dependencies-Ends fuel go rec names s' good' fits')
    where
      next :
          (v : Visit)
          → Ends s (λ s'. elem (get r ss (some name)) (emitted s') ≡ true) v
          → ((s' : Search)
              → Good r ss s'
              → whites s'.colors r.count < fuel
              → Ends s' (λ t. Present r ss names (emitted t)) (visit_dependencies r ss go names s'))
          → Ends s
              (λ t. Present r ss (name ∷ names) (emitted t))
              (elim v [
                | done s' ↦ visit_dependencies r ss go names s'
                | refused ↦ refused
                | out_of_fuel ↦ out_of_fuel
              ])
      next (done s') (good', grows, present) rest =
          let fewer : whites s'.colors r.count < fuel =
            omega (arith, whites-le s.colors s'.colors r.count grows.was_white) in
          Ends-after s s' (λ t. Present r ss (name ∷ names) (emitted t))
            (visit_dependencies r ss go names s') grows
            (keep s' present (visit_dependencies r ss go names s') (rest s' good' fewer))
        where
          keep :
              (s' : Search)
              → elem (get r ss (some name)) (emitted s') ≡ true
              → (v : Visit) → Ends s' (λ t. Present r ss names (emitted t)) v
              → Ends s' (λ t. Present r ss (name ∷ names) (emitted t)) v
          keep s' present (done t) (good'', more, others) =
              (good'', more, (more.kept (get r ss (some name)) present, others))
          keep s' present refused h = tt
          keep s' present out_of_fuel h = h
      next refused h rest = tt
      next out_of_fuel h rest = h

  visit-Ends : (fuel : ℕ) → Visits fuel (visit r ss fuel)
  unfolding visit
  visit-Ends zero index s lt e good fits = absurd (omega arith)
  visit-Ends (suc fuel) index s lt e good fits =
      close (visit_dependencies r ss (visit r ss fuel) names start) (
        visit_dependencies-Ends fuel (visit r ss fuel) (visit-Ends fuel) names start
          (gray-Good r ss index s good) (omega (arith, whites-gray s.colors r.count index lt e)))
    where
      start : Search
      start = record s { colors = update s.colors index gray }

      names : List CString
      names = get_dependencies ss (r.services index)

      close :
          (v : Visit)
          → Ends start (λ t. Present r ss names (emitted t)) v
          → Ends s
              (λ t. t.colors index ≡ black)
              (elim v [
                | done t ↦ done (emit r ss index t)
                | refused ↦ refused
                | out_of_fuel ↦ out_of_fuel
              ])
      close (done t) (good', grows, present) = (
        emit-Good r ss index t good' present,
        emit-Grows r ss index s t e grows,
        (unfold emit in update_self t.colors index black),
      )
      close refused h = tt
      close out_of_fuel h = h

  -- No service is left gray, and those before `i` are black.
  record Swept (i : ℕ) (s : Search) : Type 0 where
    no_gray : (j : ℕ) → s.colors j ≢ gray
    below : (j : ℕ) → j < i → s.colors j ≡ black

  -- The whole loop: an order with every service in it, or an error.
  abbrev pub Sweeps : Visit → Type 0
  Sweeps (done s) =
      IsOrdered r ss (emitted s) × ((i : ℕ) → i < r.count → elem (r.services i) (emitted s) ≡ true)
  Sweeps refused = Unit
  Sweeps out_of_fuel = ⊥

  visit_white-Ends :
      (fuel i : ℕ) (s : Search) (c : Color)
      → i < r.count
      → s.colors i ≡ c
      → c ≢ gray
      → Good r ss s
      → whites s.colors r.count < fuel
      → Ends s (λ t. t.colors i ≡ black) (visit_white r ss fuel i s c)
  unfolding visit_white
  visit_white-Ends fuel i s white lt e ok good fits = visit-Ends fuel i s lt e good fits
  visit_white-Ends fuel i s gray lt e ok good fits = absurd (ok refl)
  visit_white-Ends fuel i s black lt e ok good fits = (good, Grows-refl r ss s, e)

  visit_all-Sweeps :
      (fuel left i : ℕ) (s : Search)
      → i + left ≡ r.count
      → r.count < fuel
      → Good r ss s
      → Swept i s
      → Sweeps (visit_all r ss fuel left i s)
  unfolding visit_all
  visit_all-Sweeps fuel zero i s e enough good swept =
      (good.ordered, λ j lt. good.blacks j lt (swept.below j (omega arith)))
  visit_all-Sweeps fuel (suc left) i s e enough good swept =
      onward (visit_white r ss fuel i s (s.colors i))
        (visit_white-Ends fuel i s (s.colors i) (omega arith) refl (swept.no_gray i) good
          (omega (arith, whites-bound s.colors r.count)))
        (λ t good' swept'. visit_all-Sweeps fuel left (i + 1) t (omega arith) enough good' swept')
    where
      onward :
          (v : Visit)
          → Ends s (λ t. t.colors i ≡ black) v
          → ((t : Search)
              → Good r ss t
              → Swept (i + 1) t
              → Sweeps (visit_all r ss fuel left (i + 1) t))
          → Sweeps (elim v [
            | done t ↦ visit_all r ss fuel left (i + 1) t
            | refused ↦ refused
            | out_of_fuel ↦ out_of_fuel
          ])
      onward (done t) (good', grows, dark) rest = rest t good' (record {
        no_gray = λ j h. swept.no_gray j (grows.was_gray j h);
        below = λ j lt. elim (last_or_before j i lt) [
          | inl same ↦ ap t.colors same ∙ dark
          | inr old ↦ grows.stays_black j (swept.below j old)
        ];
      })
      onward refused h rest = tt
      onward out_of_fuel h rest = h

-- `compute_start_order` always ends, within the fuel it is given. If it succeeds, every service of
-- the registry is in the order, and each stands behind all the services that it depends on.
pub compute_start_order-Sweeps :
    (r : ServiceRegistry) (ss : Services) (allocated : Bool) (out_order : ℕ → Ptr)
    → Sweeps r ss (compute_start_order r ss allocated out_order)
unfolding compute_start_order
compute_start_order-Sweeps r ss allocated out_order = elim (Bool-cases (r.count == 0)) [
  | inl empty ↦ rw empty (tt, λ i lt. absurd (omega (arith, (==_iff r.count 0).0 empty)))
  | inr some_left ↦ rw some_left (elim (Bool-cases allocated) [
    | inl okay ↦ rw okay (
        visit_all-Sweeps r ss (r.count + 1) r.count 0 _ (omega arith) (omega arith)
          (record { ordered = tt; blacks = λ i lt h. cc })
          (record { no_gray = λ j h. cc; below = λ j lt. absurd (omega arith) }))
    | inr failed ↦ rw failed tt
  ])
]
