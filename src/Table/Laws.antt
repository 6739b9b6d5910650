-- ===== src/Table/Laws.antt =====
-- What the search finds, and what the two changes of a table do to its entries.
use mathlib.Core.List.Perm
use embla.Prelude.{
  ℕ, zero, suc, ◌+◌, ◌<◌, ◌≤◌, ◌≡◌, refl, sym, Bool, true, false, Bool-cases, inl, inr, Option,
  none, some, ◌∷◌, Perm, update, ◌==◌, arith, ==_iff, update_ne, update_self, ap₂, subst,
}
use embla.Process.{Ptr, null}
use embla.Table.{find_from, close_gap, contents}

-- Where a search of the slots from `i` on stops: at the first that passes, or at none of them.
abbrev pub Search : (ℕ → Ptr) → (Ptr → Bool) → (left i : ℕ) → Option ℕ → Type 0
Search slots test left i none = (j : ℕ) → i ≤ j → j < i + left → test (slots j) ≡ false
Search slots test left i (some k) =
    (i ≤ k)
    × (k < i + left)
    × (test (slots k) ≡ true)
    × ((j : ℕ) → i ≤ j → j < k → test (slots j) ≡ false)

-- A slot from `i` on is `i` itself or lies behind it.
from_here : (P : ℕ → Type 0) (i j : ℕ) → i ≤ j → P i → (i + 1 ≤ j → P j) → P j
from_here P i j h now later = elim (Bool-cases (i == j)) [
  | inl same ↦ subst P ((==_iff i j).0 same) now
  | inr other ↦ later (ground arith)
]

module _ (slots : ℕ → Ptr) (test : Ptr → Bool) where
  Search-skip :
      (left i : ℕ) (r : Option ℕ)
      → test (slots i) ≡ false
      → Search slots test left (i + 1) r
      → Search slots test (suc left) i r
  Search-skip left i none miss rest = λ j h lt.
      from_here (λ k. test (slots k) ≡ false) i j h miss (λ more. rest j more (omega arith))
  Search-skip left i (some k) miss (after, within, hit, first) = (
    omega arith,
    omega arith,
    hit,
    λ j h lt. from_here (λ k. test (slots k) ≡ false) i j h miss (λ more. first j more lt),
  )

  pub find_from-Search : (left i : ℕ) → Search slots test left i (find_from slots test left i)
  unfolding find_from
  find_from-Search zero i = λ j h lt. absurd (omega arith)
  find_from-Search (suc left) i = elim (Bool-cases (test (slots i))) [
    | inl hit ↦ rw hit (omega arith, omega arith, hit, λ j h lt. absurd (omega arith))
    | inr miss ↦ rw miss (Search-skip left i _ miss (find_from-Search left (i + 1)))
  ]

-- A write behind the entries in use, or in place of one of them.
contents-update_above :
    (slots : ℕ → Ptr) (n i : ℕ) (p : Ptr) → n ≤ i → contents (update slots i p) n ≡ contents slots n
contents-update_above slots zero i p h = refl
contents-update_above slots (suc n) i p h =
    ap₂ ◌∷◌ (update_ne slots i n p (omega arith)) (contents-update_above slots n i p (omega arith))

pub contents-push :
    (slots : ℕ → Ptr) (n : ℕ) (p : Ptr) → contents (update slots n p) (suc n) ≡ p ∷ contents slots n
contents-push slots n p =
    ap₂ ◌∷◌ (update_self slots n p) (contents-update_above slots n n p (omega arith))

perm-replace_last :
    (slots : ℕ → Ptr) (n : ℕ) (p : Ptr)
    → Perm (p ∷ contents slots (suc n)) (slots n ∷ contents (update slots n p) (suc n))
perm-replace_last slots n p =
    subst (λ xs. Perm (p ∷ contents slots (suc n)) (slots n ∷ xs)) (sym (contents-push slots n p))
      (Perm.swap _ _ _)

perm-replace :
    (slots : ℕ → Ptr) (n i : ℕ) (p : Ptr)
    → i < n
    → Perm (p ∷ contents slots n) (slots i ∷ contents (update slots i p) n)
perm-replace slots zero i p h = elim h [ ]
perm-replace slots (suc n) i p h = elim (Bool-cases (i == n)) [
  | inl same ↦
      let e : i ≡ n = ground arith in
      subst (λ j. Perm (p ∷ contents slots (suc n)) (slots j ∷ contents (update slots j p) (suc n)))
        (sym e) (perm-replace_last slots n p)
  | inr other ↦ rw (update_ne slots i n p (ground arith)) (
      Perm.trans (Perm.swap _ _ _) (
        Perm.trans (Perm.cons (slots n) (perm-replace slots n i p (ground arith)))
          (Perm.swap _ _ _)))
]

-- Taking the entry of slot `index` out leaves every other entry, as often as it was there.
pub contents-close_gap :
    (slots : ℕ → Ptr) (index last : ℕ)
    → index < suc last
    → Perm (contents slots (suc last)) (slots index ∷ contents (close_gap slots index last) last)
unfolding close_gap
contents-close_gap slots index last h =
    rw (contents-update_above (update slots index (slots last)) last last null (omega arith))
      (elim (Bool-cases (index == last)) [
        | inl same ↦
            let e : index ≡ last = ground arith in
            rw (e, contents-update_above slots last last (slots last) (omega arith)) (Perm.refl _)
        | inr other ↦ perm-replace slots last index (slots last) (ground arith)
      ])
