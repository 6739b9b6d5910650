-- ===== src/Descriptors/Balance.antt =====
-- How often a trace opens and closes a descriptor, and binds and unlinks a path.
use embla.Prelude.{ℕ, ◌+◌, ◌≡◌, ◌==◌, Bool, true, false, [], ◌∷◌, ℤ, pos, eqb_ℤ, ◌&&◌, arith}
use embla.Process.{CString}
use embla.Service.{bytes_eq}
use embla.Descriptors.{
  Trace, Host, opened, closed, bind, unlink, request, set_cloexec, clear_cloexec,
}

abbrev pub one_if : Bool → ℕ
one_if true = 1
one_if false = 0

abbrev pub opens : ℕ → Trace → ℕ
opens fd [] = 0
opens fd (opened other ∷ t) = one_if (other == fd) + opens fd t
opens fd (_ ∷ t) = opens fd t

abbrev pub closes : ℕ → Trace → ℕ
closes fd [] = 0
closes fd (closed other ∷ t) = one_if (eqb_ℤ other (pos fd)) + closes fd t
closes fd (_ ∷ t) = closes fd t

-- From `t` to `t'` the descriptor is opened `n` times more than it is closed.
abbrev pub Leaves : ℕ → Trace → Trace → ℕ → Type 0
Leaves fd t t' n = opens fd t' + closes fd t ≡ opens fd t + closes fd t' + n

-- Neither opens nor closes anything.
abbrev pub Quiet : ℕ → Trace → Trace → Type 0
Quiet fd t t' = (opens fd t' ≡ opens fd t) × (closes fd t' ≡ closes fd t)

pub set_cloexec-Quiet :
    (host : Host) (fd : ℤ) (t : Trace) (k : ℕ) → Quiet k t (set_cloexec host fd t).1
unfolding set_cloexec request
set_cloexec-Quiet host fd t k = ground arith

pub clear_cloexec-Quiet :
    (host : Host) (fd : ℤ) (t : Trace) (k : ℕ) → Quiet k t (clear_cloexec host fd t).1
unfolding clear_cloexec request
clear_cloexec-Quiet host fd t k = ground arith

-- How often a path is bound with success, and how often it is unlinked.
abbrev pub binds : Host → CString → Trace → ℕ
binds host path [] = 0
binds host path (bind fd other ∷ t) =
    one_if (bytes_eq other path && host.succeeds t (bind fd other)) + binds host path t
binds host path (_ ∷ t) = binds host path t

abbrev pub unlinks : CString → Trace → ℕ
unlinks path [] = 0
unlinks path (unlink other ∷ t) = one_if (bytes_eq other path) + unlinks path t
unlinks path (_ ∷ t) = unlinks path t

-- From `t` to `t'` the path is bound `n` times more than it is unlinked.
abbrev pub LeavesPath : Host → CString → Trace → Trace → ℕ → Type 0
LeavesPath host path t t' n =
    binds host path t' + unlinks path t ≡ binds host path t + unlinks path t' + n

pub set_cloexec-binds :
    (host : Host) (fd : ℤ) (t : Trace) (path : CString)
    → (binds host path (set_cloexec host fd t).1 ≡ binds host path t)
      × (unlinks path (set_cloexec host fd t).1 ≡ unlinks path t)
unfolding set_cloexec request
set_cloexec-binds host fd t path = ground arith
