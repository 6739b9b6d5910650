-- ===== src/ProcessConfig/Copies.antt =====
-- The strings that a configuration copies, and what its setters keep.
use embla.Prelude.{
  ℕ, zero, suc, ◌+◌, ◌<◌, ◌≡◌, refl, ap, ◌∙◌, ◌⊎◌, inl, inr, Bool, true, false, Option, none, some,
  List, [], ◌∷◌, length, arith, Bool-cases,
}
use embla.Process.{CString}
use embla.ProcessConfig.{dup_strings, dup_string_array}

-- A result of copying an array from string `i` on: all the strings, if each of them can be copied;
-- none, if one cannot.
abbrev pub Copied : (ℕ → Bool) → (i : ℕ) → List CString → Option (List CString) → Type 0
Copied copies i strings result =
    ((result ≡ some strings) × ((j : ℕ) → j < length strings → copies (i + j) ≡ true))
    ⊎ ((result ≡ none) × ((j : ℕ) × (j < length strings) × (copies (i + j) ≡ false)))

dup_strings-Copied :
    (copies : ℕ → Bool) (i : ℕ) (strings : List CString)
    → Copied copies i strings (dup_strings copies i strings)
unfolding dup_strings
dup_strings-Copied copies i [] = inl (refl, λ j lt. absurd (omega arith))
dup_strings-Copied copies i (string ∷ strings) = elim (Bool-cases (copies i)) [
  | inr failed ↦ rw failed (inr (refl, (0, omega arith, here i copies false failed)))
  | inl okay ↦ elim (dup_strings-Copied copies (i + 1) strings) [
    | inl (all, each) ↦
        rw (okay, all) (inl (refl, later_each i copies strings (here i copies true okay) each))
    | inr (nothing, (j, lt, failed)) ↦
        rw (okay, nothing) (inr (refl, (suc j, omega arith, shift i j copies false failed)))
  ]
]
  where
    here : (i : ℕ) (copies : ℕ → Bool) (b : Bool) → copies i ≡ b → copies (i + 0) ≡ b
    here i copies b e = ap copies (omega arith) ∙ e

    shift :
        (i j : ℕ) (copies : ℕ → Bool) (b : Bool) → copies (i + 1 + j) ≡ b → copies (i + suc j) ≡ b
    shift i j copies b e = ap copies (omega arith) ∙ e

    later_each :
        (i : ℕ) (copies : ℕ → Bool) (strings : List CString)
        → copies (i + 0) ≡ true
        → ((j : ℕ) → j < length strings → copies (i + 1 + j) ≡ true)
        → (j : ℕ) → j < suc (length strings)
        → copies (i + j) ≡ true
    later_each i copies strings now each zero lt = now
    later_each i copies strings now each (suc j) lt = shift i j copies true (each j (omega arith))

-- `dup_string_array` gives a copy equal to its argument exactly if the array and every string can be
-- allocated; otherwise it gives nothing.
pub dup_string_array-Copied :
    (array : Bool) (copies : ℕ → Bool) (strings : List CString)
    → ((array ≡ true) × Copied copies 0 strings (dup_string_array array copies strings))
      ⊎ ((array ≡ false) × (dup_string_array array copies strings ≡ none))
unfolding dup_string_array
dup_string_array-Copied true copies strings = inl (refl, dup_strings-Copied copies 0 strings)
dup_string_array-Copied false copies strings = inr (refl, refl)
