-- ===== src/Descriptors/Ends/Life.antt =====
-- The descriptors of two ends from its creation to its end.
use embla.Prelude.{
  ℕ, ◌+◌, ◌≡◌, refl, Bool, Option, none, some, List, [], ◌∷◌, pos, eqb_ℤ, arith, Option-cases, inl,
  inr,
}
use embla.Descriptors.{Trace, Kind, opened, Host, set_cloexec}
use embla.Descriptors.Balance.{
  one_if, opens, closes, Leaves, set_cloexec-Quiet, clear_cloexec-Quiet,
}
use embla.Descriptors.Ends.{
  Ends, create, create_on, close_first, close_second, clear_cloexec_first, clear_cloexec_second,
  destroy,
}

-- How many of its two descriptors two ends holds open under a number.
abbrev pub holds : ℕ → Option Ends → ℕ
holds fd none = 0
holds fd (some p) = one_if (eqb_ℤ p.first_fd (pos fd)) + one_if (eqb_ℤ p.second_fd (pos fd))

-- The calls on two ends between its creation and its end.
pub data Use : Type 0 where
  closing_first closing_second clearing_first clearing_second : Use

abbrev pub apply : Host → Use → Option Ends × Trace → Option Ends × Trace
apply host closing_first (p, t) = let (_, p', t') = close_first p t in (p', t')
apply host closing_second (p, t) = let (_, p', t') = close_second p t in (p', t')
apply host clearing_first (p, t) = (p, (clear_cloexec_first host p t).1)
apply host clearing_second (p, t) = (p, (clear_cloexec_second host p t).1)

abbrev pub apply_all : Host → List Use → Option Ends × Trace → Option Ends × Trace
apply_all host [] s = s
apply_all host (step ∷ steps) s = apply_all host steps (apply host step s)

create_on-Leaves :
    (host : Host) (allocated : Bool) (a b : ℕ) (t : Trace) (fd : ℕ)
    → Leaves fd t
        (create_on host allocated a b (opened b ∷ opened a ∷ t)).1
        (holds fd (create_on host allocated a b (opened b ∷ opened a ∷ t)).0)
unfolding create_on
create_on-Leaves host allocated a b t fd =
    let t₀ = opened b ∷ opened a ∷ t in
    let t₁ = (set_cloexec host (pos a) t₀).1 in
    let first = set_cloexec-Quiet host (pos a) t₀ fd in
    let second = set_cloexec-Quiet host (pos b) t₁ fd in ground arith

create-Leaves :
    (host : Host) (kind : Kind) (allocated : Bool) (t : Trace) (fd : ℕ)
    → Leaves fd t (create host kind allocated t).1 (holds fd (create host kind allocated t).0)
unfolding create
create-Leaves host kind allocated t fd = elim (Option-cases (host.pair kind t)) [
  | inl failed ↦ rw (failed, create) (omega arith)
  | inr ((a, b), got) ↦ rw (got, create) (create_on-Leaves host allocated a b t fd)
]

-- A step keeps what is open in step with what the ends holds.
abbrev Keeps : ℕ → Option Ends × Trace → Option Ends × Trace → Type 0
Keeps fd (p, t) (p', t') =
    opens fd t' + closes fd t + holds fd p ≡ opens fd t + closes fd t' + holds fd p'

close_first-Keeps :
    (fd : ℕ) (p : Option Ends) (t : Trace)
    → Keeps fd (p, t) ((close_first p t).1, (close_first p t).2)
unfolding close_first
close_first-Keeps fd none t = refl
close_first-Keeps fd (some p) t = ground arith

close_second-Keeps :
    (fd : ℕ) (p : Option Ends) (t : Trace)
    → Keeps fd (p, t) ((close_second p t).1, (close_second p t).2)
unfolding close_second
close_second-Keeps fd none t = refl
close_second-Keeps fd (some p) t = ground arith

apply-Keeps :
    (host : Host) (fd : ℕ) (u : Use) (p : Option Ends) (t : Trace)
    → Keeps fd (p, t) (apply host u (p, t))
unfolding clear_cloexec_first clear_cloexec_second
apply-Keeps host fd closing_first p t = close_first-Keeps fd p t
apply-Keeps host fd closing_second p t = close_second-Keeps fd p t
apply-Keeps host fd clearing_first none t = refl
apply-Keeps host fd clearing_first (some p) t =
    let same = clear_cloexec-Quiet host p.first_fd t fd in ground arith
apply-Keeps host fd clearing_second none t = refl
apply-Keeps host fd clearing_second (some p) t =
    let same = clear_cloexec-Quiet host p.second_fd t fd in ground arith

apply_all-Keeps :
    (host : Host) (fd : ℕ) (us : List Use) (p : Option Ends) (t : Trace)
    → Keeps fd (p, t) (apply_all host us (p, t))
apply_all-Keeps host fd [] p t = refl
apply_all-Keeps host fd (u ∷ us) p t =
    let (p', t') = apply host u (p, t) in
    omega (arith, apply-Keeps host fd u p t, apply_all-Keeps host fd us p' t')

destroy-Keeps :
    (fd : ℕ) (p : Option Ends) (t : Trace)
    → opens fd (destroy p t) + closes fd t + holds fd p ≡ opens fd t + closes fd (destroy p t)
unfolding destroy close_first close_second
destroy-Keeps fd none t = omega arith
destroy-Keeps fd (some p) t = ground arith

-- From the creation of two ends on, through any calls on it, whatever the host answers: a descriptor
-- has been opened as often as it was closed and is held by the ends, so no call closes one that is
-- not the ends's; and when the ends is destroyed, each has been closed as often as it was opened.
pub life-Leaves :
    (host : Host) (kind : Kind) (allocated : Bool) (us : List Use) (t : Trace) (fd : ℕ)
    → let (p, t') = apply_all host us (create host kind allocated t) in
      Leaves fd t t' (holds fd p) × Leaves fd t (destroy p t') 0
life-Leaves host kind allocated us t fd =
    let (p₀, t₀) = create host kind allocated t in
    let (p, t') = apply_all host us (p₀, t₀) in
    let made = create-Leaves host kind allocated t fd in
    let used = apply_all-Keeps host fd us p₀ t₀ in
    (omega (arith, made, used), omega (arith, made, used, destroy-Keeps fd p t'))
