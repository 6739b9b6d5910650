-- ===== src/ProcessConfig.antt =====
-- src/process_config.c: what a process is started with. A NULL configuration is `none`; arrays of
-- strings that end with NULL are lists. Whether each allocation succeeds is an argument. `mode_t`,
-- `uid_t`, `gid_t` and `rlim_t` are numbers of the host; `calloc` sets them to 0.
pub mod Copies
pub mod Settings
mod Tests
use embla.Prelude.{
  ℕ, zero, suc, ◌+◌, Bool, true, false, Option, none, some, List, [], ◌∷◌, ℤ, pos, negsuc, success,
  failure, ltb_ℤ, if◌then◌else◌,
}
use embla.Process.{CString}

pub record ProcessConfig : Type 0 where
  pub path : CString
  pub argv : List CString
  pub working_directory : Option CString
  pub envp : Option (List CString)
  pub stdin_fd : ℤ
  pub stdout_fd : ℤ
  pub stderr_fd : ℤ
  pub has_umask : Bool
  pub umask_value : ℕ
  pub has_credentials : Bool
  pub uid : ℕ
  pub gid : ℕ
  pub has_memory_limit : Bool
  pub memory_limit : ℕ
  pub has_cpu_limit : Bool
  pub cpu_limit : ℕ
  pub has_fd_limit : Bool
  pub fd_limit : ℕ

-- The descriptor that stands for none.
abbrev pub no_fd : ℤ
no_fd = negsuc 0

-- The loop of `dup_string_array` at string `i`; `copies i` is whether that one can be copied.
unfoldable pub dup_strings : (copies : ℕ → Bool) → (i : ℕ) → List CString → Option (List CString)
dup_strings copies i [] = some []
dup_strings copies i (string ∷ strings) =
    let rest : Option (List CString) = elim (dup_strings copies (i + 1) strings) [
      | none ↦ none
      | some copied ↦ some (string ∷ copied)
    ] in
    if copies i then rest else none

-- `array` is whether the array of pointers can be allocated.
unfoldable pub dup_string_array :
    (array : Bool) → (copies : ℕ → Bool) → List CString → Option (List CString)
unfolding dup_strings
dup_string_array array copies strings = if array then dup_strings copies 0 strings else none

-- `block` and `copied` are whether the object and the path can be allocated.
unfoldable pub create :
    (block copied array : Bool)
    → (copies : ℕ → Bool) → Option CString
    → Option (List CString)
    → Option ProcessConfig
unfolding dup_string_array
create block copied array copies none argv = none
create block copied array copies (some path) none = none
create block copied array copies (some path) (some argv) =
    if block
    then (if copied
        then elim (dup_string_array array copies argv) [
          | none ↦ none
          | some strings ↦ some (record {
            path = path;
            argv = strings;
            working_directory = none;
            envp = none;
            stdin_fd = no_fd;
            stdout_fd = no_fd;
            stderr_fd = no_fd;
            has_umask = false;
            umask_value = 0;
            has_credentials = false;
            uid = 0;
            gid = 0;
            has_memory_limit = false;
            memory_limit = 0;
            has_cpu_limit = false;
            cpu_limit = 0;
            has_fd_limit = false;
            fd_limit = 0;
          })
        ]
        else none)
    else none

-- What the setters that cannot fail on a configuration share.
unfoldable pub modify :
    Option ProcessConfig → (ProcessConfig → ProcessConfig) → ℤ × Option ProcessConfig
modify none f = (failure, none)
modify (some c) f = (success, some (f c))

unfoldable pub set_working_directory :
    (copied : Bool) → Option ProcessConfig → Option CString → ℤ × Option ProcessConfig
set_working_directory copied none directory = (failure, none)
set_working_directory copied (some c) none = (failure, some c)
set_working_directory copied (some c) (some directory) =
    if copied
    then (success, some (record c { working_directory = some directory }))
    else (failure, some c)

unfoldable pub set_env :
    (array : Bool)
    → (copies : ℕ → Bool) → Option ProcessConfig
    → Option (List CString)
    → ℤ × Option ProcessConfig
unfolding dup_string_array
set_env array copies none envp = (failure, none)
set_env array copies (some c) none = (failure, some c)
set_env array copies (some c) (some envp) = elim (dup_string_array array copies envp) [
  | none ↦ (failure, some c)
  | some strings ↦ (success, some (record c { envp = some strings }))
]

unfoldable pub set_stdin_fd : Option ProcessConfig → ℤ → ℤ × Option ProcessConfig
unfolding modify
set_stdin_fd c fd =
    if ltb_ℤ fd (pos 0) then (failure, c) else modify c (λ c. record c { stdin_fd = fd })

unfoldable pub set_stdout_fd : Option ProcessConfig → ℤ → ℤ × Option ProcessConfig
unfolding modify
set_stdout_fd c fd =
    if ltb_ℤ fd (pos 0) then (failure, c) else modify c (λ c. record c { stdout_fd = fd })

unfoldable pub set_stderr_fd : Option ProcessConfig → ℤ → ℤ × Option ProcessConfig
unfolding modify
set_stderr_fd c fd =
    if ltb_ℤ fd (pos 0) then (failure, c) else modify c (λ c. record c { stderr_fd = fd })

unfoldable pub set_umask : Option ProcessConfig → ℕ → ℤ × Option ProcessConfig
unfolding modify
set_umask c mask = modify c (λ c. record c { has_umask = true; umask_value = mask })

unfoldable pub set_credentials : Option ProcessConfig → (uid gid : ℕ) → ℤ × Option ProcessConfig
unfolding modify
set_credentials c uid gid =
    modify c (λ c. record c { has_credentials = true; uid = uid; gid = gid })

unfoldable pub set_memory_limit : Option ProcessConfig → ℕ → ℤ × Option ProcessConfig
unfolding modify
set_memory_limit c bytes =
    modify c (λ c. record c { has_memory_limit = true; memory_limit = bytes })

unfoldable pub set_cpu_limit : Option ProcessConfig → ℕ → ℤ × Option ProcessConfig
unfolding modify
set_cpu_limit c seconds = modify c (λ c. record c { has_cpu_limit = true; cpu_limit = seconds })

unfoldable pub set_fd_limit : Option ProcessConfig → ℕ → ℤ × Option ProcessConfig
unfolding modify
set_fd_limit c count = modify c (λ c. record c { has_fd_limit = true; fd_limit = count })

unfoldable pub get_path : Option ProcessConfig → Option CString
get_path c = elim c [ none ↦ none | some c ↦ some c.path ]

unfoldable pub get_argv : Option ProcessConfig → Option (List CString)
get_argv c = elim c [ none ↦ none | some c ↦ some c.argv ]

unfoldable pub get_working_directory : Option ProcessConfig → Option CString
get_working_directory c = elim c [ none ↦ none | some c ↦ c.working_directory ]

unfoldable pub get_env : Option ProcessConfig → Option (List CString)
get_env c = elim c [ none ↦ none | some c ↦ c.envp ]

unfoldable pub get_stdin_fd : Option ProcessConfig → ℤ
get_stdin_fd c = elim c [ none ↦ no_fd | some c ↦ c.stdin_fd ]

unfoldable pub get_stdout_fd : Option ProcessConfig → ℤ
get_stdout_fd c = elim c [ none ↦ no_fd | some c ↦ c.stdout_fd ]

unfoldable pub get_stderr_fd : Option ProcessConfig → ℤ
get_stderr_fd c = elim c [ none ↦ no_fd | some c ↦ c.stderr_fd ]

unfoldable pub has_umask : Option ProcessConfig → Bool
has_umask c = elim c [ none ↦ false | some c ↦ c.has_umask ]

unfoldable pub get_umask : Option ProcessConfig → ℕ
get_umask c = elim c [ none ↦ 0 | some c ↦ c.umask_value ]

unfoldable pub has_credentials : Option ProcessConfig → Bool
has_credentials c = elim c [ none ↦ false | some c ↦ c.has_credentials ]

unfoldable pub get_uid : Option ProcessConfig → ℕ
get_uid c = elim c [ none ↦ 0 | some c ↦ c.uid ]

unfoldable pub get_gid : Option ProcessConfig → ℕ
get_gid c = elim c [ none ↦ 0 | some c ↦ c.gid ]

unfoldable pub has_memory_limit : Option ProcessConfig → Bool
has_memory_limit c = elim c [ none ↦ false | some c ↦ c.has_memory_limit ]

unfoldable pub get_memory_limit : Option ProcessConfig → ℕ
get_memory_limit c = elim c [ none ↦ 0 | some c ↦ c.memory_limit ]

unfoldable pub has_cpu_limit : Option ProcessConfig → Bool
has_cpu_limit c = elim c [ none ↦ false | some c ↦ c.has_cpu_limit ]

unfoldable pub get_cpu_limit : Option ProcessConfig → ℕ
get_cpu_limit c = elim c [ none ↦ 0 | some c ↦ c.cpu_limit ]

unfoldable pub has_fd_limit : Option ProcessConfig → Bool
has_fd_limit c = elim c [ none ↦ false | some c ↦ c.has_fd_limit ]

unfoldable pub get_fd_limit : Option ProcessConfig → ℕ
get_fd_limit c = elim c [ none ↦ 0 | some c ↦ c.fd_limit ]
