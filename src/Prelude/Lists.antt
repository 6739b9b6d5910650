-- ===== src/Prelude/Lists.antt =====
-- Lists measured by native numbers, membership as a test, and the first occurrence erased.
use mathlib.Core.List.{Perm, Permᴰ}
use mathlib.Core.List.Permᴰ.{nil, cons, swap, trans}
use mathlib.Core.Logic.{∥∥₁_elim}
use mathlib.Core.Path.{◌≡◌, refl, ap₂, ◌∙◌}
use Prim.Native.Nat.{ℕ, suc, ◌+◌}
use mathlib.Core.Bool.{Bool, true, false, ◌||◌, Bool-set}
use mathlib.Core.List.{List, [], ◌∷◌, ◌++◌}
use native.Mathlib.Omega.{arith}
use embla.Prelude.Tests.{◌==◌, if◌then◌else◌}

module _ {ℓ} {A : Type ℓ} where
  abbrev pub length : List A → ℕ
  length [] = 0
  length (x ∷ xs) = suc (length xs)

  pub length-append : (xs ys : List A) → length (xs ++ ys) ≡ length xs + length ys
  length-append [] ys = omega arith
  length-append (x ∷ xs) ys = omega (arith, length-append xs ys)

  abbrev pub All {κ} : (A → Type κ) → List A → Type κ
  All P [] = Unit
  All P (x ∷ xs) = P x × All P xs

abbrev pub elem : ℕ → List ℕ → Bool
elem a [] = false
elem a (x ∷ xs) = x == a || elem a xs

-- The list without the first occurrence of `a`.
abbrev pub erase : ℕ → List ℕ → List ℕ
erase a [] = []
erase a (x ∷ xs) = if x == a then xs else x ∷ erase a xs

-- Rearranging a list keeps its elements.
pub elem-Perm : (a : ℕ) (xs ys : List ℕ) → Perm xs ys → elem a xs ≡ elem a ys
elem-Perm a xs ys perm = ∥∥₁_elim perm (Bool-set (elem a xs) (elem a ys)) go
  where
    or_swap : (b c d : Bool) → (b || (c || d)) ≡ (c || (b || d))
    or_swap true true d = refl
    or_swap true false d = refl
    or_swap false true d = refl
    or_swap false false d = refl

    go : {xs ys : List ℕ} → Permᴰ xs ys → elem a xs ≡ elem a ys
    go nil = refl
    go (cons e rest) = ap₂ (λ x b. x == a || b) e (go rest)
    go (swap {a = x} {b = y} {l = l} e e') =
        or_swap (x == a) (y == a) (elem a l) ∙ ap₂ (λ u w. u == a || (w == a || elem a l)) e' e
    go (trans first second) = go first ∙ go second
