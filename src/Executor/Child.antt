-- ===== src/Executor/Child.antt =====
-- src/executor.c, `executor_child_exec`: what the child does between `fork` and `execve`. Each
-- system call that it makes is written down; whether it succeeds is the host's answer, which may
-- depend on the calls before. The configuration is a live object, so the fields stand for its getters. The child ends in `execve` or with an exit code.
pub mod Trace
pub mod ExitCodes
pub mod Descriptors
use embla.Prelude.{
  ℕ, Bool, true, false, not, ◌&&◌, ◌||◌, Option, none, some, List, [], ◌∷◌, ◌++◌, ℤ, pos, eqb_ℤ,
  if◌then◌else◌,
}
use embla.Process.{CString}
use embla.Platform.{Platform, effective, memory_limit_supported}
use embla.ProcessConfig.{ProcessConfig, no_fd}

pub data Resource : Type 0 where
  address_space cpu_time open_files : Resource

pub data Syscall : Type 0 where
  setpgid : ℤ → Syscall
  chdir : CString → Syscall
  umask : ℕ → Syscall
  dup2 : (from to : ℤ) → Syscall
  close : ℤ → Syscall
  getrlimit : Resource → Syscall
  setrlimit : Resource → ℕ → Syscall
  setgid setuid : ℕ → Syscall
  execve : CString → List CString → List CString → Syscall

-- `rlimit` is the hard limit that `getrlimit` gives where it succeeds, `environ` the environment.
pub record Host : Type 0 where
  pub succeeds : List Syscall → Syscall → Bool
  pub rlimit : Resource → Option ℕ
  pub platform : Platform
  pub environ : List CString

-- Where the child stands after some calls: it goes on, or it has left with an exit code.
pub data Child : Type 0 where
  next : List Syscall → Child
  exits : ℕ → List Syscall → Child

abbrev pub Action : Type 0
Action = List Syscall → Child

infixl 5 ◌>>◌
abbrev pub ◌>>◌ : Action → Action → Action
(a >> b) trace = elim (a trace) [ next trace' ↦ b trace' | exits code trace' ↦ exits code trace' ]

abbrev pub skip : Action
skip trace = next trace

abbrev pub when : Bool → Action → Action
when b a = if b then a else skip

abbrev pub is_standard : ℤ → Bool
is_standard fd = eqb_ℤ fd (pos 0) || eqb_ℤ fd (pos 1) || eqb_ℤ fd (pos 2)

abbrev pub elem_ℤ : ℤ → List ℤ → Bool
elem_ℤ fd [] = false
elem_ℤ fd (x ∷ xs) = eqb_ℤ x fd || elem_ℤ fd xs

-- The array `redirect_fds`.
abbrev pub redirect_fds : ProcessConfig → List ℤ
redirect_fds c =
    (if eqb_ℤ c.stdin_fd no_fd then [] else c.stdin_fd ∷ [])
    ++ (if eqb_ℤ c.stdout_fd no_fd then [] else c.stdout_fd ∷ [])
    ++ (if eqb_ℤ c.stderr_fd no_fd then [] else c.stderr_fd ∷ [])

module _ (host : Host) where
  -- A call whose failure ends the child.
  unfoldable pub attempt : Syscall → (code : ℕ) → Action
  attempt call code trace =
      if host.succeeds trace call
      then next (trace ++ call ∷ [])
      else exits code (trace ++ call ∷ [])

  -- A call whose result is not looked at.
  unfoldable pub perform : Syscall → Action
  perform call trace = next (trace ++ call ∷ [])

  -- `platform_apply_rlimit`, with the exit code that its caller gives.
  unfoldable pub limit : Resource → (requested code : ℕ) → Action
  unfolding attempt
  limit resource requested code = do
    attempt (getrlimit resource) code
    attempt (setrlimit resource (effective requested (host.rlimit resource))) code

  -- `platform_apply_memory_limit`: there is none on Darwin.
  unfoldable pub limit_memory : (requested code : ℕ) → Action
  unfolding limit
  limit_memory requested code =
      if memory_limit_supported host.platform
      then limit address_space requested code
      else exits code

  unfoldable pub change_directory : Option CString → Action
  unfolding attempt
  change_directory none = skip
  change_directory (some directory) = attempt (chdir directory) 120

  -- One `dup2` of a configured descriptor.
  unfoldable pub redirect : (from to : ℤ) → (code : ℕ) → Action
  unfolding attempt
  redirect from to code = when (not (eqb_ℤ from no_fd)) (attempt (dup2 from to) code)

  -- The loop that closes the redirected descriptors; `seen` are those of the rounds before.
  unfoldable pub close_redirected : (seen fds : List ℤ) → Action
  unfolding perform
  close_redirected seen [] = skip
  close_redirected seen (fd ∷ fds) = do
    when (not (is_standard fd) && not (elem_ℤ fd seen)) (perform (close fd))
    close_redirected (seen ++ fd ∷ []) fds

  -- `envp != NULL ? envp : environ`
  abbrev pub environment : ProcessConfig → List CString
  environment c = elim c.envp [ none ↦ host.environ | some envp ↦ envp ]

  -- Behind the last call, `next` means that the new program runs.
  unfoldable pub child_exec : (target_host_group_id : ℤ) → ProcessConfig → Action
  unfolding attempt perform change_directory redirect close_redirected limit limit_memory
  child_exec target c = do
    attempt (setpgid target) 126
    change_directory c.working_directory
    when c.has_umask (perform (umask c.umask_value))
    redirect c.stdin_fd (pos 0) 121
    redirect c.stdout_fd (pos 1) 122
    redirect c.stderr_fd (pos 2) 123
    close_redirected [] (redirect_fds c)
    when c.has_memory_limit (limit_memory c.memory_limit 128)
    when c.has_cpu_limit (limit cpu_time c.cpu_limit 129)
    when c.has_fd_limit (limit open_files c.fd_limit 130)
    when c.has_credentials (do attempt (setgid c.gid) 124; attempt (setuid c.uid) 125)
    attempt (execve c.path c.argv (environment c)) 127
