-- ===== src/Descriptors/CloseOnExec.antt =====
-- Which descriptors are closed when a child runs a new program.
use embla.Prelude.{
  ℕ, ◌%◌, ◌≡◌, ◌==◌, ◌&&◌, Bool, true, false, some, [], ◌∷◌, pos, success, eqb_ℤ, if◌then◌else◌,
  arith, Option-cases, inl, inr, ◌⊎◌,
}
use mathlib.Core.Option.{none-ne-some}
use embla.Descriptors.{Trace, Host, Kind, opened, set_flags, request, set_cloexec, with_cloexec}
use embla.Descriptors.Ends.{Ends, create, create_on}

-- FD_CLOEXEC is set on a descriptor: by the last change of its flags that succeeded since it was
-- opened, and a new descriptor has it clear.
abbrev pub marked : Host → ℕ → Trace → Bool
marked host fd [] = false
marked host fd (opened other ∷ t) = if other == fd then false else marked host fd t
marked host fd (set_flags other flags ∷ t) =
    if eqb_ℤ other (pos fd) && host.succeeds t (set_flags other flags)
    then flags % 2 == 1
    else marked host fd t
marked host fd (_ ∷ t) = marked host fd t

module _ (host : Host) where
  odd_flags : (flags : ℕ) → (with_cloexec flags % 2 == 1) ≡ true
  odd_flags flags = ground arith

  pub set_cloexec-marked :
      (fd : ℕ) (t : Trace)
      → (set_cloexec host (pos fd) t).0 ≡ success
      → marked host fd (set_cloexec host (pos fd) t).1 ≡ true
  unfolding set_cloexec request
  set_cloexec-marked fd t done = elim (Option-cases (host.flags t (pos fd))) [
    | inl failed ↦ absurd (ground arith)
    | inr (flags, got) ↦ let odd = odd_flags flags in rw (got, set_cloexec) (ground arith)
  ]

  pub set_cloexec-keeps_marked :
      (fd other : ℕ) (t : Trace)
      → marked host fd t ≡ true
      → marked host fd (set_cloexec host (pos other) t).1 ≡ true
  unfolding set_cloexec request
  set_cloexec-keeps_marked fd other t on = elim (Option-cases (host.flags t (pos other))) [
    | inl failed ↦ rw (failed, set_cloexec) on
    | inr (flags, got) ↦ let odd = odd_flags flags in rw (got, set_cloexec) (ground arith)
  ]

  create_on-marked :
      (allocated : Bool) (a b k : ℕ) (t : Trace) (p : Ends)
      → (create_on host allocated a b t).0 ≡ some p
      → (p.first_fd ≡ pos k) ⊎ (p.second_fd ≡ pos k)
      → marked host k (create_on host allocated a b t).1 ≡ true
  unfolding create_on
  create_on-marked allocated a b k t p made is =
      let t₁ = (set_cloexec host (pos a) t).1 in
      let first = set_cloexec-marked a t in
      let kept = set_cloexec-keeps_marked a b t₁ in
      let second = set_cloexec-marked b t₁ in ground arith

  -- The two descriptors that `pipe_create` or `socket_pair_create` returns are not inherited by the
  -- programs of children, until their flag is cleared.
  create-marked :
      (kind : Kind) (allocated : Bool) (t : Trace) (p : Ends) (k : ℕ)
      → (create host kind allocated t).0 ≡ some p
      → (p.first_fd ≡ pos k) ⊎ (p.second_fd ≡ pos k)
      → marked host k (create host kind allocated t).1 ≡ true
  unfolding create
  create-marked kind allocated t p k made is = elim (Option-cases (host.pair kind t)) [
    | inl failed ↦ absurd (none-ne-some p (rw (failed, create) at made))
    | inr ((a, b), got) ↦
        rw (got, create)
          (create_on-marked allocated a b k (opened b ∷ opened a ∷ t) p (rw (got, create) at made)
            is)
  ]
