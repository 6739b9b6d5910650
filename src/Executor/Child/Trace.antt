-- ===== src/Executor/Child/Trace.antt =====
-- What the child has called when it runs the new program.
use embla.Prelude.{
  ℕ, ◌≡◌, refl, sym, ap, ◌∙◌, inl, inr, Bool, true, false, not, ◌&&◌, Option, none, some, List, [],
  ◌∷◌, ◌++◌, append-nil, append_assoc, Bool-cases, if◌then◌else◌, ℤ, pos, eqb_ℤ,
}
use embla.Process.{CString}
use embla.Platform.{effective, memory_limit_supported}
use embla.ProcessConfig.{ProcessConfig, no_fd}
use embla.Executor.Child.{
  Resource, address_space, cpu_time, open_files, Syscall, setpgid, chdir, umask, dup2, close,
  getrlimit, setrlimit, setgid, setuid, execve, Host, Child, next, exits, Action, ◌>>◌, skip, when,
  attempt, perform, limit, limit_memory, change_directory, redirect, is_standard, elem_ℤ,
  close_redirected, redirect_fds, environment, child_exec,
}

-- If the action goes on, it has made exactly the given calls.
pub record Emits (a : Action) (calls : List Syscall) : Type 0 where
  pub emitted : (t t' : List Syscall) → a t ≡ next t' → t' ≡ t ++ calls

next_injective : {t t' : List Syscall} → next t ≡ next t' → t ≡ t'
next_injective e = cc e

went_on :
    (r : Child) (b : Action) (t' : List Syscall)
    → elim r [ next t ↦ b t | exits code t ↦ exits code t ] ≡ next t'
    → (u : List Syscall) × (r ≡ next u) × (b u ≡ next t')
went_on (next u) b t' e = (u, refl, e)
went_on (exits code u) b t' e = absurd (cc e)

then-Emits :
    {a b : Action} {cs ds : List Syscall} → Emits a cs → Emits b ds → Emits (a >> b) (cs ++ ds)
then-Emits {a} {b} {cs} {ds} f g = record {
  emitted = λ t t' e.
      let (u, first, second) = went_on (a t) b t' e in
      g.emitted u t' second ∙ ap (λ l. l ++ ds) (f.emitted t u first) ∙ append_assoc t cs ds;
}

skip-Emits : Emits skip []
skip-Emits = record { emitted = λ t t' e. sym (next_injective e) ∙ sym (append-nil t) }

when-Emits :
    {a : Action} {cs : List Syscall} (b : Bool)
    → Emits a cs
    → Emits (when b a) (if b then cs else [])
when-Emits true f = f
when-Emits false f = skip-Emits

attempt-Emits :
    (host : Host) (call : Syscall) (code : ℕ) → Emits (attempt host call code) (call ∷ [])
unfolding attempt
attempt-Emits host call code = record {
  emitted = λ t t' e. elim (Bool-cases (host.succeeds t call)) [
    | inl fine ↦ sym (next_injective (rw fine at e))
    | inr broken ↦ absurd (cc (rw broken at e))
  ];
}

perform-Emits : (host : Host) (call : Syscall) → Emits (perform host call) (call ∷ [])
unfolding perform
perform-Emits host call = record { emitted = λ t t' e. sym (next_injective e) }

exits-Emits : (code : ℕ) (cs : List Syscall) → Emits (exits code) cs
exits-Emits code cs = record { emitted = λ t t' e. absurd (cc e) }

-- The calls that set one limit.
abbrev pub limit_calls : Host → Resource → ℕ → List Syscall
limit_calls host resource requested =
    getrlimit resource ∷ setrlimit resource (effective requested (host.rlimit resource)) ∷ []

abbrev pub directory_calls : Option CString → List Syscall
directory_calls none = []
directory_calls (some directory) = chdir directory ∷ []

abbrev pub redirect_calls : (from to : ℤ) → List Syscall
redirect_calls from to = if not (eqb_ℤ from no_fd) then dup2 from to ∷ [] else []

abbrev pub close_calls : (seen fds : List ℤ) → List Syscall
close_calls seen [] = []
close_calls seen (fd ∷ fds) =
    (if not (is_standard fd) && not (elem_ℤ fd seen) then close fd ∷ [] else [])
    ++ close_calls (seen ++ fd ∷ []) fds

abbrev pub flatten : List (List Syscall) → List Syscall
flatten [] = []
flatten (cs ∷ more) = cs ++ flatten more

-- The calls of a child that gets as far as the new program: its group, its directory and mask, its
-- three streams, the descriptors that it closes, its limits, and last the group and the user that
-- it runs as.
abbrev pub call_groups : Host → (target : ℤ) → ProcessConfig → List (List Syscall)
call_groups host target c =
    (setpgid target ∷ [])
    ∷ directory_calls c.working_directory
    ∷ (if c.has_umask then umask c.umask_value ∷ [] else [])
    ∷ redirect_calls c.stdin_fd (pos 0)
    ∷ redirect_calls c.stdout_fd (pos 1)
    ∷ redirect_calls c.stderr_fd (pos 2)
    ∷ close_calls [] (redirect_fds c)
    ∷ (if c.has_memory_limit then limit_calls host address_space c.memory_limit else [])
    ∷ (if c.has_cpu_limit then limit_calls host cpu_time c.cpu_limit else [])
    ∷ (if c.has_fd_limit then limit_calls host open_files c.fd_limit else [])
    ∷ (if c.has_credentials then setgid c.gid ∷ setuid c.uid ∷ [] else [])
    ∷ (execve c.path c.argv (environment host c) ∷ [])
    ∷ []

abbrev pub all_calls : Host → (target : ℤ) → ProcessConfig → List Syscall
all_calls host target c = flatten (call_groups host target c)

module _ (host : Host) where
  limit-Emits :
      (resource : Resource) (requested code : ℕ)
      → Emits (limit host resource requested code) (limit_calls host resource requested)
  unfolding limit
  limit-Emits resource requested code =
      then-Emits (attempt-Emits host (getrlimit resource) code)
        (attempt-Emits host (setrlimit resource (effective requested (host.rlimit resource))) code)

  limit_memory-Emits :
      (requested code : ℕ)
      → Emits (limit_memory host requested code) (limit_calls host address_space requested)
  unfolding limit_memory
  limit_memory-Emits requested code = elim (Bool-cases (memory_limit_supported host.platform)) [
    | inl there ↦ rw there (limit-Emits address_space requested code)
    | inr missing ↦ rw missing (exits-Emits code (limit_calls host address_space requested))
  ]

  change_directory-Emits :
      (directory : Option CString)
      → Emits (change_directory host directory) (directory_calls directory)
  unfolding change_directory
  change_directory-Emits none = skip-Emits
  change_directory-Emits (some directory) = attempt-Emits host (chdir directory) 120

  redirect-Emits :
      (from to : ℤ) (code : ℕ) → Emits (redirect host from to code) (redirect_calls from to)
  unfolding redirect
  redirect-Emits from to code =
      when-Emits (not (eqb_ℤ from no_fd)) (attempt-Emits host (dup2 from to) code)

  close_redirected-Emits :
      (seen fds : List ℤ) → Emits (close_redirected host seen fds) (close_calls seen fds)
  unfolding close_redirected
  close_redirected-Emits seen [] = skip-Emits
  close_redirected-Emits seen (fd ∷ fds) =
      let fresh = not (is_standard fd) && not (elem_ℤ fd seen) in
      then-Emits (when-Emits fresh (perform-Emits host (close fd)))
        (close_redirected-Emits (seen ++ fd ∷ []) fds)

  child_exec-Emits :
      (target : ℤ) (c : ProcessConfig) → Emits (child_exec host target c) (all_calls host target c)
  unfolding child_exec
  child_exec-Emits target c = then-Emits (attempt-Emits host (setpgid target) 126) (
      then-Emits (change_directory-Emits c.working_directory) (
        then-Emits (when-Emits c.has_umask (perform-Emits host (umask c.umask_value))) (
          then-Emits (redirect-Emits c.stdin_fd (pos 0) 121) (
            then-Emits (redirect-Emits c.stdout_fd (pos 1) 122) (
              then-Emits (redirect-Emits c.stderr_fd (pos 2) 123) (
                then-Emits (close_redirected-Emits [] (redirect_fds c)) (
                  then-Emits (when-Emits c.has_memory_limit (limit_memory-Emits c.memory_limit 128))
                    (then-Emits (when-Emits c.has_cpu_limit (limit-Emits cpu_time c.cpu_limit 129))
                      (then-Emits
                        (when-Emits c.has_fd_limit (limit-Emits open_files c.fd_limit 130))
                        (then-Emits
                          (when-Emits c.has_credentials (
                            then-Emits (attempt-Emits host (setgid c.gid) 124)
                              (attempt-Emits host (setuid c.uid) 125)))
                          (attempt-Emits host (execve c.path c.argv (environment host c))
                            127)))))))))))

-- If the child gets as far as running the new program, it has made all the calls that its
-- configuration asks for, in the order of `all_calls`, and no other: nothing is left out, the group
-- is given up before the user, and both behind the limits.
pub child_exec-calls :
    (host : Host) (target : ℤ) (c : ProcessConfig) (trace : List Syscall)
    → child_exec host target c [] ≡ next trace
    → trace ≡ all_calls host target c
child_exec-calls host target c trace e = (child_exec-Emits host target c).emitted [] trace e
