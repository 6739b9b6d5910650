-- ===== src/ProcessConfig/Settings.antt =====
-- Sequences of calls of the setters: the configurations that a client can build.
use embla.Prelude.{
  ℕ, ◌≡◌, refl, sym, subst, ap, ◌∙◌, ◌⊎◌, inl, inr, Bool, true, false, Option, none, some, List, [],
  ◌∷◌, arith, Bool-cases, Option-cases, ℤ, pos, negsuc, success, failure, ltb_ℤ, if◌then◌else◌,
}
use mathlib.Core.Option.{some-injective, none-ne-some}
use embla.Process.{CString}
use embla.ProcessConfig.Copies.{dup_string_array-Copied}
use embla.ProcessConfig.{
  ProcessConfig, no_fd, dup_string_array, create, modify, set_working_directory, set_env,
  set_stdin_fd, set_stdout_fd, set_stderr_fd, set_umask, set_credentials, set_memory_limit,
  set_cpu_limit, set_fd_limit,
}

-- One call of a setter, with what its allocations come to.
pub data Setting : Type 0 where
  working_directory : Bool → Option CString → Setting
  env : Bool → (ℕ → Bool) → Option (List CString) → Setting
  stdin stdout stderr : ℤ → Setting
  umask memory cpu files : ℕ → Setting
  credentials : (uid gid : ℕ) → Setting

abbrev pub set : Setting → Option ProcessConfig → ℤ × Option ProcessConfig
set (working_directory copied directory) c = set_working_directory copied c directory
set (env array copies envp) c = set_env array copies c envp
set (stdin fd) c = set_stdin_fd c fd
set (stdout fd) c = set_stdout_fd c fd
set (stderr fd) c = set_stderr_fd c fd
set (umask mask) c = set_umask c mask
set (memory bytes) c = set_memory_limit c bytes
set (cpu seconds) c = set_cpu_limit c seconds
set (files count) c = set_fd_limit c count
set (credentials uid gid) c = set_credentials c uid gid

abbrev pub set_all : List Setting → Option ProcessConfig → Option ProcessConfig
set_all [] c = c
set_all (setting ∷ settings) c = set_all settings (set setting c).1

-- No redirection, or a descriptor that is not negative.
abbrev pub IsDescriptor : ℤ → Type 0
IsDescriptor fd = (fd ≡ no_fd) ⊎ ((n : ℕ) × (fd ≡ pos n))

abbrev pub Unset : Bool → ℕ → Type 0
Unset has value = has ≡ false → value ≡ 0

was_set : (value : ℕ) → Unset true value
was_set value h = absurd (cc h)

-- The program and its arguments are those given; the descriptors are valid; and a value that was
-- never set is 0.
abbrev pub IsConfig : (path : CString) (argv : List CString) → ProcessConfig → Type 0
IsConfig path argv c =
    ((c.path ≡ path) × (c.argv ≡ argv))
    × (IsDescriptor c.stdin_fd × IsDescriptor c.stdout_fd × IsDescriptor c.stderr_fd)
    × (Unset c.has_umask c.umask_value
        × Unset c.has_memory_limit c.memory_limit
        × Unset c.has_cpu_limit c.cpu_limit
        × Unset c.has_fd_limit c.fd_limit
        × Unset c.has_credentials c.uid
        × Unset c.has_credentials c.gid)

descriptor : (fd : ℤ) → ltb_ℤ fd (pos 0) ≡ false → IsDescriptor fd
descriptor (pos n) h = inr (n, refl)
descriptor (negsuc n) h = absurd (ground arith)

-- A setter on a valid configuration keeps it valid, and changes nothing when it fails.
abbrev pub Keeps : CString → List CString → ProcessConfig → ℤ × Option ProcessConfig → Type 0
Keeps path argv c (code, result) =
    (c' : ProcessConfig) × (result ≡ some c')
    × IsConfig path argv c'
    × ((code ≡ success) ⊎ ((code ≡ failure) × (c' ≡ c)))

module _ (path : CString) (argv : List CString) (c : ProcessConfig) where
  failed : IsConfig path argv c → Keeps path argv c (failure, some c)
  failed v = (c, refl, v, inr (refl, refl))

  done : (c' : ProcessConfig) → IsConfig path argv c' → Keeps path argv c (success, some c')
  done c' v' = (c', refl, v', inl refl)

  redirected :
      (set_fd : ProcessConfig → ProcessConfig) (fd : ℤ)
      → (ltb_ℤ fd (pos 0) ≡ false → IsConfig path argv (set_fd c))
      → IsConfig path argv c
      → Keeps path argv c
          (if ltb_ℤ fd (pos 0) then (failure, some c) else (success, some (set_fd c)))
  redirected set_fd fd valid v = elim (Bool-cases (ltb_ℤ fd (pos 0))) [
    | inl negative ↦ rw negative (failed v)
    | inr h ↦ rw h (done (set_fd c) (valid h))
  ]

  pub set-Keeps :
      (setting : Setting) → IsConfig path argv c → Keeps path argv c (set setting (some c))
  unfolding set_working_directory set_env set_stdin_fd set_stdout_fd set_stderr_fd set_umask
      set_credentials set_memory_limit set_cpu_limit set_fd_limit modify
  set-Keeps (working_directory copied none) v = failed v
  set-Keeps (working_directory true (some directory)) v =
      done (record c { working_directory = some directory }) v
  set-Keeps (working_directory false (some directory)) v = failed v
  set-Keeps (env array copies none) v = failed v
  set-Keeps (env array copies (some envp)) v =
      elim (Option-cases (dup_string_array array copies envp)) [
        | inl refusal ↦ rw (refusal, set, set_env) (failed v)
        | inr (strings, copied) ↦
            rw (copied, set, set_env) (done (record c { envp = some strings }) v)
      ]
  set-Keeps (stdin fd) (kept, (input, output, errors), unset) =
      redirected (λ c. record c { stdin_fd = fd }) fd
        (λ h. (kept, (descriptor fd h, output, errors), unset))
        (kept, (input, output, errors), unset)
  set-Keeps (stdout fd) (kept, (input, output, errors), unset) =
      redirected (λ c. record c { stdout_fd = fd }) fd
        (λ h. (kept, (input, descriptor fd h, errors), unset))
        (kept, (input, output, errors), unset)
  set-Keeps (stderr fd) (kept, (input, output, errors), unset) =
      redirected (λ c. record c { stderr_fd = fd }) fd
        (λ h. (kept, (input, output, descriptor fd h), unset))
        (kept, (input, output, errors), unset)
  set-Keeps (umask mask) (kept, fds, (u, m, s, f, uid_unset, gid_unset)) =
      done (record c { has_umask = true; umask_value = mask })
        (kept, fds, (was_set mask, m, s, f, uid_unset, gid_unset))
  set-Keeps (memory bytes) (kept, fds, (u, m, s, f, uid_unset, gid_unset)) =
      done (record c { has_memory_limit = true; memory_limit = bytes })
        (kept, fds, (u, was_set bytes, s, f, uid_unset, gid_unset))
  set-Keeps (cpu seconds) (kept, fds, (u, m, s, f, uid_unset, gid_unset)) =
      done (record c { has_cpu_limit = true; cpu_limit = seconds })
        (kept, fds, (u, m, was_set seconds, f, uid_unset, gid_unset))
  set-Keeps (files count) (kept, fds, (u, m, s, f, uid_unset, gid_unset)) =
      done (record c { has_fd_limit = true; fd_limit = count })
        (kept, fds, (u, m, s, was_set count, uid_unset, gid_unset))
  set-Keeps (credentials uid gid) (kept, fds, (u, m, s, f, uid_unset, gid_unset)) =
      done (record c { has_credentials = true; uid = uid; gid = gid })
        (kept, fds, (u, m, s, f, was_set uid, was_set gid))

-- What comes of a sequence of calls.
set_all-kept :
    (path : CString) (argv : List CString) (settings : List Setting) (c : ProcessConfig)
    → IsConfig path argv c
    → (c' : ProcessConfig) × (set_all settings (some c) ≡ some c') × IsConfig path argv c'
set_all-kept path argv [] c v = (c, refl, v)
set_all-kept path argv (setting ∷ settings) c v =
    let (c₁, set₁, v₁, _) = set-Keeps path argv c setting v in
    let (c₂, set₂, v₂) = set_all-kept path argv settings c₁ v₁ in
    (c₂, ap (set_all settings) set₁ ∙ set₂, v₂)

abbrev pub initial : (path : CString) (argv : List CString) → ProcessConfig
initial path argv = record {
  path = path;
  argv = argv;
  working_directory = none;
  envp = none;
  stdin_fd = no_fd;
  stdout_fd = no_fd;
  stderr_fd = no_fd;
  has_umask = false;
  umask_value = 0;
  has_credentials = false;
  uid = 0;
  gid = 0;
  has_memory_limit = false;
  memory_limit = 0;
  has_cpu_limit = false;
  cpu_limit = 0;
  has_fd_limit = false;
  fd_limit = 0;
}

pub initial-IsConfig :
    (path : CString) (argv : List CString) → IsConfig path argv (initial path argv)
initial-IsConfig path argv = (
  (refl, refl),
  (inl refl, inl refl, inl refl),
  ((λ h. refl), (λ h. refl), (λ h. refl), (λ h. refl), (λ h. refl), (λ h. refl)),
)

create-IsConfig :
    (block copied array : Bool) (copies : ℕ → Bool) (path : CString) (argv : List CString)
    (c : ProcessConfig)
    → create block copied array copies (some path) (some argv) ≡ some c
    → IsConfig path argv c
unfolding create
create-IsConfig true true true copies path argv c e =
    elim (dup_string_array-Copied true copies argv) [
      | inl (_, inl (same, _)) ↦
          let start : create true true true copies (some path) (some argv)
              ≡ some (initial path argv) =
            rw (same, create) refl in
          subst (IsConfig path argv) (some-injective _ _ (sym start ∙ e))
            (initial-IsConfig path argv)
      | inl (_, inr (nothing, _)) ↦
          let refused : create true true true copies (some path) (some argv) ≡ none =
            rw (nothing, create) refl in
          absurd (none-ne-some _ (sym refused ∙ e))
      | inr (impossible, _) ↦ absurd (cc impossible)
    ]
create-IsConfig true true false copies path argv c e = absurd (cc e)
create-IsConfig true false array copies path argv c e = absurd (cc e)
create-IsConfig false copied array copies path argv c e = absurd (cc e)

-- Whatever setters are called on a configuration that `process_config_create` has returned, with any
-- arguments and whichever allocations fail: it keeps the path and the arguments it was created with,
-- each of its three descriptors is unset or not negative, and a limit, a mask or an id whose flag is
-- not set is 0.
pub create-set_all-IsConfig :
    (block copied array : Bool) (copies : ℕ → Bool) (path : CString) (argv : List CString)
    (c : ProcessConfig) (settings : List Setting)
    → create block copied array copies (some path) (some argv) ≡ some c
    → (c' : ProcessConfig) × (set_all settings (some c) ≡ some c') × IsConfig path argv c'
create-set_all-IsConfig block copied array copies path argv c settings e =
    set_all-kept path argv settings c (create-IsConfig block copied array copies path argv c e)
