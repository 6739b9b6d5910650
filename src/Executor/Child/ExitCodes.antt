-- ===== src/Executor/Child/ExitCodes.antt =====
-- What an exit code of the child tells its parent.
use embla.Prelude.{
  ℕ, ◌≡◌, refl, ◌⊎◌, inl, inr, Bool, true, false, not, ◌&&◌, Option, none, some, List, [], ◌∷◌,
  ◌++◌, Bool-cases, if◌then◌else◌, ℤ, pos, eqb_ℤ,
}
use embla.Process.{CString}
use embla.Platform.{memory_limit_supported, effective}
use embla.ProcessConfig.{ProcessConfig, no_fd}
use embla.Executor.Child.{
  Resource, address_space, cpu_time, open_files, Syscall, setpgid, chdir, umask, dup2, close,
  getrlimit, setrlimit, setgid, setuid, execve, Host, Child, next, exits, Action, ◌>>◌, skip, when,
  attempt, perform, limit, limit_memory, change_directory, redirect, is_standard, elem_ℤ,
  close_redirected, redirect_fds, environment, child_exec,
}

abbrev limit_code : Resource → ℕ
limit_code address_space = 128
limit_code cpu_time = 129
limit_code open_files = 130

-- The exit code that stands for the failure of a call.
abbrev pub code_of : Syscall → ℕ
code_of (setpgid group) = 126
code_of (chdir directory) = 120
code_of (umask mask) = 0
code_of (dup2 from to) = if eqb_ℤ to (pos 0) then 121 else if eqb_ℤ to (pos 1) then 122 else 123
code_of (close fd) = 0
code_of (getrlimit resource) = limit_code resource
code_of (setrlimit resource value) = limit_code resource
code_of (setgid gid) = 124
code_of (setuid uid) = 125
code_of (execve path argv envp) = 127

-- The last call of the trace failed, and the code is its code.
abbrev pub Blames : Host → ℕ → List Syscall → Type 0
Blames host code trace =
    (before : List Syscall) × (call : Syscall) × (trace ≡ before ++ call ∷ [])
    × (host.succeeds before call ≡ false)
    × (code ≡ code_of call)

-- If the action exits, its code tells the call that failed.
record Tells (host : Host) (a : Action) : Type 0 where
  told : (t t' : List Syscall) (code : ℕ) → a t ≡ exits code t' → Blames host code t'

exits_code : {c c' : ℕ} {t t' : List Syscall} → exits c t ≡ exits c' t' → c' ≡ c
exits_code e = cc e

exits_trace : {c c' : ℕ} {t t' : List Syscall} → exits c t ≡ exits c' t' → t' ≡ t
exits_trace e = cc e

left_or_later :
    (r : Child) (b : Action) (code : ℕ) (t' : List Syscall)
    → elim r [ next t ↦ b t | exits code' t ↦ exits code' t ] ≡ exits code t'
    → (r ≡ exits code t') ⊎ ((u : List Syscall) × (b u ≡ exits code t'))
left_or_later (next u) b code t' e = inr (u, e)
left_or_later (exits code' u) b code t' e = inl e

module _ {host : Host} where
  then-Tells : {a b : Action} → Tells host a → Tells host b → Tells host (a >> b)
  then-Tells {a} {b} f g = record {
    told = λ t t' code e. elim (left_or_later (a t) b code t' e) [
      | inl now ↦ f.told t t' code now
      | inr (u, later) ↦ g.told u t' code later
    ];
  }

  skip-Tells : Tells host skip
  skip-Tells = record { told = λ t t' code e. absurd (cc e) }

  when-Tells : {a : Action} (b : Bool) → Tells host a → Tells host (when b a)
  when-Tells true f = f
  when-Tells false f = skip-Tells

  attempt-Tells :
      (call : Syscall) (code : ℕ) → code ≡ code_of call → Tells host (attempt host call code)
  unfolding attempt
  attempt-Tells call code is = record {
    told = λ t t' code' e. elim (Bool-cases (host.succeeds t call)) [
      | inl fine ↦ absurd (cc (rw fine at e))
      | inr broken ↦
          (t, call, exits_trace (rw broken at e), broken, cc (exits_code (rw broken at e), is))
    ];
  }

  perform-Tells : (call : Syscall) → Tells host (perform host call)
  unfolding perform
  perform-Tells call = record { told = λ t t' code e. absurd (cc e) }

  limit-Tells :
      (resource : Resource) (requested code : ℕ)
      → code ≡ limit_code resource
      → Tells host (limit host resource requested code)
  unfolding limit
  limit-Tells resource requested code is =
      then-Tells (attempt-Tells (getrlimit resource) code is)
        (attempt-Tells (setrlimit resource (effective requested (host.rlimit resource))) code is)

  change_directory-Tells :
      (directory : Option CString) → Tells host (change_directory host directory)
  unfolding change_directory
  change_directory-Tells none = skip-Tells
  change_directory-Tells (some directory) = attempt-Tells (chdir directory) 120 refl

  redirect-Tells :
      (from to : ℤ) (code : ℕ)
      → code ≡ code_of (dup2 from to)
      → Tells host (redirect host from to code)
  unfolding redirect
  redirect-Tells from to code is =
      when-Tells (not (eqb_ℤ from no_fd)) (attempt-Tells (dup2 from to) code is)

  close_redirected-Tells : (seen fds : List ℤ) → Tells host (close_redirected host seen fds)
  unfolding close_redirected
  close_redirected-Tells seen [] = skip-Tells
  close_redirected-Tells seen (fd ∷ fds) =
      then-Tells
        (when-Tells (not (is_standard fd) && not (elem_ℤ fd seen)) (perform-Tells (close fd)))
        (close_redirected-Tells (seen ++ fd ∷ []) fds)

  -- A memory limit is asked for only where there is one.
  memory-Tells :
      (c : ProcessConfig)
      → (c.has_memory_limit ≡ false) ⊎ (memory_limit_supported host.platform ≡ true)
      → Tells host (when c.has_memory_limit (limit_memory host c.memory_limit 128))
  unfolding limit_memory
  memory-Tells c (inl unlimited) = rw unlimited skip-Tells
  memory-Tells c (inr there) =
      rw there (when-Tells c.has_memory_limit (limit-Tells address_space c.memory_limit 128 refl))

-- If the child exits, on a host that knows memory limits or without one in the configuration, then
-- the last call that it made failed, and its exit code is the one that stands for that call.
pub child_exec-Blames :
    (host : Host) (target : ℤ) (c : ProcessConfig) (trace : List Syscall) (code : ℕ)
    → (c.has_memory_limit ≡ false) ⊎ (memory_limit_supported host.platform ≡ true)
    → child_exec host target c [] ≡ exits code trace
    → Blames host code trace
unfolding child_exec
child_exec-Blames host target c trace code limits e = whole.told [] trace code e
  where
    whole : Tells host (child_exec host target c)
    whole = then-Tells (attempt-Tells (setpgid target) 126 refl) (
        then-Tells (change_directory-Tells c.working_directory) (
          then-Tells (when-Tells c.has_umask (perform-Tells (umask c.umask_value))) (
            then-Tells (redirect-Tells c.stdin_fd (pos 0) 121 refl) (
              then-Tells (redirect-Tells c.stdout_fd (pos 1) 122 refl) (
                then-Tells (redirect-Tells c.stderr_fd (pos 2) 123 refl) (
                  then-Tells (close_redirected-Tells [] (redirect_fds c)) (
                    then-Tells (memory-Tells c limits) (
                      then-Tells
                        (when-Tells c.has_cpu_limit (limit-Tells cpu_time c.cpu_limit 129 refl))
                        (then-Tells
                          (when-Tells c.has_fd_limit (limit-Tells open_files c.fd_limit 130 refl))
                          (then-Tells
                            (when-Tells c.has_credentials (
                              then-Tells (attempt-Tells (setgid c.gid) 124 refl)
                                (attempt-Tells (setuid c.uid) 125 refl)))
                            (attempt-Tells (execve c.path c.argv (environment host c)) 127
                              refl)))))))))))
