-- ===== src/Executor/Child/Descriptors.antt =====
-- The open files of the child when it runs the new program.
use embla.Prelude.{
  ℕ, ◌≡◌, Bool, false, Option, none, some, List, [], ◌∷◌, if◌then◌else◌, ℤ, pos, eqb_ℤ,
}
use embla.ProcessConfig.{ProcessConfig, no_fd}
use embla.Executor.Child.{
  Syscall, setpgid, chdir, umask, dup2, close, getrlimit, setrlimit, setgid, setuid, execve, Host,
  address_space, cpu_time, open_files, environment, is_standard, elem_ℤ, redirect_fds,
}
use embla.Executor.Child.Trace.{redirect_calls, close_calls, limit_calls}

-- An open descriptor: the file behind it, and its flag FD_CLOEXEC.
pub record Open : Type 0 where
  pub file : ℕ
  pub cloexec : Bool

abbrev pub Files : Type 0
Files = ℤ → Option Open

-- The copy that `dup2` makes.
abbrev pub cleared : Option Open → Option Open
cleared none = none
cleared (some entry) = some (record entry { cloexec = false })

-- What is left of a descriptor behind `execve`.
abbrev pub kept : Option Open → Option Open
kept none = none
kept (some entry) = if entry.cloexec then none else some entry

abbrev put : Files → ℤ → Option Open → Files
put files fd file other = if eqb_ℤ fd other then file else files other

-- What a call that succeeds does to the descriptors.
abbrev pub effect : Syscall → Files → Files
effect (dup2 from to) files = if eqb_ℤ from to then files else put files to (cleared (files from))
effect (close fd) files = put files fd none
effect (setpgid group) files = files
effect (chdir directory) files = files
effect (umask mask) files = files
effect (getrlimit resource) files = files
effect (setrlimit resource value) files = files
effect (setgid gid) files = files
effect (setuid uid) files = files
effect (execve path argv envp) files = λ k. kept (files k)

abbrev pub effects : List Syscall → Files → Files
effects [] files = files
effects (call ∷ calls) files = effects calls (effect call files)

-- Segment by segment.
abbrev segments : List (List Syscall) → Files → Files
segments [] files = files
segments (calls ∷ more) files = segments more (effects calls files)

-- The descriptors that the configuration asks for: the three streams from its descriptors where it
-- gives them, without FD_CLOEXEC, those descriptors closed, and all else as it was.
abbrev pub prepared : ProcessConfig → Files → Files
prepared c files k =
    if eqb_ℤ k (pos 0)
    then (if eqb_ℤ c.stdin_fd no_fd then files (pos 0) else cleared (files c.stdin_fd))
    else if eqb_ℤ k (pos 1)
    then (if eqb_ℤ c.stdout_fd no_fd then files (pos 1) else cleared (files c.stdout_fd))
    else if eqb_ℤ k (pos 2)
    then (if eqb_ℤ c.stderr_fd no_fd then files (pos 2) else cleared (files c.stderr_fd))
    else if elem_ℤ k (redirect_fds c)
    then none
    else files k

-- Those of them that the new program finds: none that has FD_CLOEXEC.
abbrev pub wanted : ProcessConfig → Files → Files
wanted c files k = kept (prepared c files k)

-- No descriptor of the configuration is a standard stream.
pub record IsOutside (c : ProcessConfig) : Type 0 where
  pub stdin_outside : is_standard c.stdin_fd ≡ false
  pub stdout_outside : is_standard c.stdout_fd ≡ false
  pub stderr_outside : is_standard c.stderr_fd ≡ false

module _ (c : ProcessConfig) (files : Files) where
  abbrev first : Files
  first = effects (redirect_calls c.stdin_fd (pos 0)) files

  abbrev second : Files
  second = effects (redirect_calls c.stdout_fd (pos 1)) first

  abbrev third : Files
  third = effects (redirect_calls c.stderr_fd (pos 2)) second

  abbrev settled : Files
  settled = effects (close_calls [] (redirect_fds c)) third

-- The calls behind those that touch descriptors.
abbrev tail_groups : Host → ProcessConfig → List (List Syscall)
tail_groups host c =
    (if c.has_memory_limit then limit_calls host address_space c.memory_limit else [])
    ∷ (if c.has_cpu_limit then limit_calls host cpu_time c.cpu_limit else [])
    ∷ (if c.has_fd_limit then limit_calls host open_files c.fd_limit else [])
    ∷ (if c.has_credentials then setgid c.gid ∷ setuid c.uid ∷ [] else [])
    ∷ (execve c.path c.argv (environment host c) ∷ [])
    ∷ []
