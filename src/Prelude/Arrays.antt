-- ===== src/Prelude/Arrays.antt =====
-- C arrays and the process heap as functions from positions, with pointwise writes.
use Prim.Native.Nat.{ℕ}
use mathlib.Core.Path.{◌≡◌, refl, sym, ap, ◌∙◌, fun_ext}
use mathlib.Core.Logic.{◌≢◌, inl, inr}
use native.Mathlib.Omega.{arith}
use embla.Prelude.Tests.{◌==◌, if◌then◌else◌, ==_refl, ==_ne, ==_iff, Bool-cases}

module _ {ℓ} {A : Type ℓ} where
  abbrev pub update : (ℕ → A) → ℕ → A → ℕ → A
  update f i v j = if i == j then v else f j

  pub update_self : (f : ℕ → A) (i : ℕ) (v : A) → update f i v i ≡ v
  update_self f i v = rw (==_refl i)

  pub update_ne : (f : ℕ → A) (i j : ℕ) (v : A) → i ≢ j → update f i v j ≡ f j
  update_ne f i j v h = rw (==_ne i j h)

  pub update-update : (f : ℕ → A) (i : ℕ) (v w : A) → update (update f i v) i w ≡ update f i w
  update-update f i v w = fun_ext λ j. ground arith

  pub update_same : (f : ℕ → A) (i : ℕ) (v : A) → f i ≡ v → update f i v ≡ f
  update_same f i v e = fun_ext λ j. elim (Bool-cases (i == j)) [
    | inl same ↦ rw same (sym e ∙ ap f ((==_iff i j).0 same))
    | inr other ↦ rw other refl
  ]
