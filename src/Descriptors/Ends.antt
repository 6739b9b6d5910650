-- ===== src/Descriptors/Ends.antt =====
-- Two descriptors that belong together, closed at most once each: the code that src/pipe.c and
-- src/socket_pair.c share. A NULL object is `none`.
pub mod Life
use embla.Prelude.{
  ℕ, not, Option, none, some, List, [], ◌∷◌, Bool, ℤ, pos, success, failure, eqb_ℤ, if◌then◌else◌,
}
use embla.Descriptors.{Trace, Host, Kind, opened, closed, closed_fd, set_cloexec, clear_cloexec}

pub record Ends : Type 0 where
  pub first_fd : ℤ
  pub second_fd : ℤ

-- The steps of the creation on the two descriptors that it got; `allocated` is whether `malloc`
-- succeeds.
unfoldable pub create_on : Host → (allocated : Bool) → (a b : ℕ) → Trace → Option Ends × Trace
unfolding set_cloexec
create_on host allocated a b t =
    let (first, t₁) = set_cloexec host (pos a) t in
    let (second, t₂) = set_cloexec host (pos b) t₁ in
    if not (eqb_ℤ first success)
    then (none, closed (pos b) ∷ closed (pos a) ∷ t₁)
    else if not (eqb_ℤ second success)
    then (none, closed (pos b) ∷ closed (pos a) ∷ t₂)
    else if allocated
    then (some (record { first_fd = pos a; second_fd = pos b }), t₂)
    else (none, closed (pos b) ∷ closed (pos a) ∷ t₂)

unfoldable pub create : Host → Kind → (allocated : Bool) → Trace → Option Ends × Trace
unfolding create_on
create host kind allocated t = elim (host.pair kind t) [
  | none ↦ (none, t)
  | some (a, b) ↦ create_on host allocated a b (opened b ∷ opened a ∷ t)
]

unfoldable pub get_first : Option Ends → ℤ
get_first p = elim p [ none ↦ closed_fd | some p ↦ p.first_fd ]

unfoldable pub get_second : Option Ends → ℤ
get_second p = elim p [ none ↦ closed_fd | some p ↦ p.second_fd ]

unfoldable pub clear_cloexec_first : Host → Option Ends → Trace → ℤ × Trace
unfolding clear_cloexec
clear_cloexec_first host none t = (failure, t)
clear_cloexec_first host (some p) t =
    if eqb_ℤ p.first_fd closed_fd then (failure, t) else clear_cloexec host p.first_fd t

unfoldable pub clear_cloexec_second : Host → Option Ends → Trace → ℤ × Trace
unfolding clear_cloexec
clear_cloexec_second host none t = (failure, t)
clear_cloexec_second host (some p) t =
    if eqb_ℤ p.second_fd closed_fd then (failure, t) else clear_cloexec host p.second_fd t

unfoldable pub close_first : Option Ends → Trace → ℤ × Option Ends × Trace
close_first none t = (failure, none, t)
close_first (some p) t =
    if eqb_ℤ p.first_fd closed_fd
    then (success, some p, t)
    else (success, some (record p { first_fd = closed_fd }), closed p.first_fd ∷ t)

unfoldable pub close_second : Option Ends → Trace → ℤ × Option Ends × Trace
close_second none t = (failure, none, t)
close_second (some p) t =
    if eqb_ℤ p.second_fd closed_fd
    then (success, some p, t)
    else (success, some (record p { second_fd = closed_fd }), closed p.second_fd ∷ t)

unfoldable pub destroy : Option Ends → Trace → Trace
unfolding close_first close_second
destroy p t = let (_, p', t') = close_first p t in (close_second p' t').2
