-- ===== src/Orchestrator/Emitted.antt =====
-- The order that the search writes, and how a search grows: what is emitted stays, and no service turns
-- white or gray again.
use native.Mathlib.Numerals.{add-one}
use embla.Prelude.{
  ℕ, zero, suc, ◌<◌, ◌≤◌, ◌≡◌, ap, ◌∙◌, inl, inr, Bool, true, false, ◌||◌, some, List, [], ◌∷◌, All,
  elem, arith, ◌==◌, ==_iff, ==_refl, Bool-cases, if◌then◌else◌, update,
}
use embla.Process.{Ptr, CString}
use embla.Registry.{Services, ServiceRegistry, get}
use embla.Table.{contents}
use embla.Table.Laws.{contents-push}
use embla.Orchestrator.{Color, white, gray, black, Search, get_dependencies, emit}

abbrev pub is_white : Color → Bool
is_white white = true
is_white gray = false
is_white black = false

-- How many of the first `n` services are white.
abbrev pub whites : (ℕ → Color) → ℕ → ℕ
whites colors zero = 0
whites colors (suc n) = let rest = whites colors n in if is_white (colors n) then suc rest else rest

pub whites-le :
    (c c' : ℕ → Color) (n : ℕ)
    → ((i : ℕ) → is_white (c' i) ≡ true → is_white (c i) ≡ true)
    → whites c' n ≤ whites c n
whites-le c c' zero h = omega arith
whites-le c c' (suc n) h = ground (arith, h n, whites-le c c' n h)

pub whites-bound : (c : ℕ → Color) (n : ℕ) → whites c n ≤ n
whites-bound c zero = omega arith
whites-bound c (suc n) = ground (arith, whites-bound c n)

pub update-white :
    (c : ℕ → Color) (i j : ℕ) → is_white (update c i gray j) ≡ true → is_white (c j) ≡ true
update-white c i j h = ground arith

pub whites-gray :
    (c : ℕ → Color) (n i : ℕ) → i < n → c i ≡ white → whites (update c i gray) n < whites c n
whites-gray c zero i lt e = elim lt [ ]
whites-gray c (suc n) i lt e = elim (Bool-cases (i == n)) [
  | inl same ↦
      let k : i ≡ n = (==_iff i n).0 same in
      ground (arith, k, ap c k, whites-le c (update c i gray) n (update-white c i))
  | inr other ↦ ground (arith, whites-gray c n i (ground arith) e)
]

-- The services in the order, the last one first.
abbrev pub emitted : Search → List Ptr
emitted s = contents s.out_order s.out_index

module _ (r : ServiceRegistry) (ss : Services) where
  -- Each of the named services is there and stands in the list.
  abbrev pub Present : List CString → List Ptr → Type 0
  Present names xs = All (λ name. elem (get r ss (some name)) xs ≡ true) names

  -- Every service stands behind all its dependencies (the list goes backwards).
  abbrev pub IsOrdered : List Ptr → Type 0
  IsOrdered [] = Unit
  IsOrdered (p ∷ xs) = Present (get_dependencies ss p) xs × IsOrdered xs

  pub Present-grow :
      (names : List CString) (xs ys : List Ptr)
      → ((p : Ptr) → elem p xs ≡ true → elem p ys ≡ true)
      → Present names xs
      → Present names ys
  Present-grow [] xs ys h there = tt
  Present-grow (name ∷ names) xs ys h (first, rest) =
      (h (get r ss (some name)) first, Present-grow names xs ys h rest)

  pub record Good (s : Search) : Type 0 where
    pub ordered : IsOrdered (emitted s)
    pub blacks : (i : ℕ) → i < r.count → s.colors i ≡ black → elem (r.services i) (emitted s) ≡ true

  pub record Grows (s s' : Search) : Type 0 where
    pub kept : (p : Ptr) → elem p (emitted s) ≡ true → elem p (emitted s') ≡ true
    pub stays_black : (i : ℕ) → s.colors i ≡ black → s'.colors i ≡ black
    pub was_white : (i : ℕ) → is_white (s'.colors i) ≡ true → is_white (s.colors i) ≡ true
    pub was_gray : (i : ℕ) → s'.colors i ≡ gray → s.colors i ≡ gray

  pub Grows-refl : (s : Search) → Grows s s
  Grows-refl s = record {
    kept = λ p h. h;
    stays_black = λ i h. h;
    was_white = λ i h. h;
    was_gray = λ i h. h;
  }

  pub Grows-trans : (a b c : Search) → Grows a b → Grows b c → Grows a c
  Grows-trans a b c f g = record {
    kept = λ p h. g.kept p (f.kept p h);
    stays_black = λ i h. g.stays_black i (f.stays_black i h);
    was_white = λ i h. f.was_white i (g.was_white i h);
    was_gray = λ i h. f.was_gray i (g.was_gray i h);
  }

  pub emitted-emit :
      (index : ℕ) (s : Search) → emitted (emit r ss index s) ≡ r.services index ∷ emitted s
  unfolding emit
  emitted-emit index s =
      ap (contents (update s.out_order s.out_index (r.services index))) (add-one s.out_index)
      ∙ contents-push s.out_order s.out_index (r.services index)

  -- What a visit has to show of its end, when the dependencies of `index` are in the order.
  pub emit-Good :
      (index : ℕ) (s : Search)
      → Good s
      → Present (get_dependencies ss (r.services index)) (emitted s)
      → Good (emit r ss index s)
  emit-Good index s good present = record {
    ordered = rw (emitted-emit index s) (present, good.ordered);
    blacks = λ i lt dark. rw (emitted-emit index s) (elim (Bool-cases (index == i)) [
      | inl same ↦ rw (← (==_iff index i).0 same) (rw (==_refl (r.services index)))
      | inr other ↦ later i (good.blacks i lt (older i other dark))
    ]);
  }
    where
      older :
          (i : ℕ) → (index == i) ≡ false → (emit r ss index s).colors i ≡ black → s.colors i ≡ black
      older i other dark = unfold emit in ground arith

      later :
          (i : ℕ)
          → elem (r.services i) (emitted s) ≡ true
          → (r.services index == r.services i || elem (r.services i) (emitted s)) ≡ true
      later i h = ground arith

  -- From a white service turned gray, over the visits of its dependencies, to its emission.
  pub emit-Grows :
      (index : ℕ) (s t : Search)
      → s.colors index ≡ white
      → Grows (record s { colors = update s.colors index gray }) t
      → Grows s (emit r ss index t)
  unfolding emit
  emit-Grows index s t e g = record {
    kept = λ p h. rw (emitted-emit index t) (behind p (g.kept p h));
    stays_black = λ i h. ground (arith, g.stays_black i);
    was_white = λ i h. ground (arith, g.was_white i);
    was_gray = λ i h. ground (arith, g.was_gray i);
  }
    where
      behind :
          (p : Ptr)
          → elem p (emitted t) ≡ true
          → (r.services index == p || elem p (emitted t)) ≡ true
      behind p h = ground arith

  pub gray-Good :
      (index : ℕ) (s : Search) → Good s → Good (record s { colors = update s.colors index gray })
  gray-Good index s good = record {
    ordered = good.ordered;
    blacks = λ i lt dark. good.blacks i lt (ground arith);
  }
