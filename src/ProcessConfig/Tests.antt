-- ===== src/ProcessConfig/Tests.antt =====
-- A configuration as a client builds it.
use embla.Prelude.{◌≡◌, refl, ℕ, Bool, true, false, some, [], ◌∷◌, List, pos, negsuc, ◌==◌, not}
use embla.Process.{CString}
use embla.ProcessConfig.{ProcessConfig, create, dup_string_array, dup_strings}
use embla.ProcessConfig.Settings.{
  Setting, working_directory, umask, stdout, set_all, initial, IsConfig, create-set_all-IsConfig,
}

abbrev path : CString
path = 47 ∷ 120 ∷ []

abbrev arguments : List CString
arguments = (120 ∷ []) ∷ (45 ∷ 118 ∷ []) ∷ []

-- The negative descriptor is refused, and the directory cannot be copied.
abbrev settings : List Setting
settings = umask 18 ∷ stdout (negsuc 4) ∷ working_directory false (some path) ∷ stdout (pos 7) ∷ []

create-set_all-IsConfig_example :
    (c : ProcessConfig) × (set_all settings (some (initial path arguments)) ≡ some c)
    × IsConfig path arguments c
unfolding create dup_string_array dup_strings
create-set_all-IsConfig_example =
    create-set_all-IsConfig true true true (λ _. true) path arguments (initial path arguments)
      settings refl

-- The second string cannot be copied.
abbrev short : ℕ → Bool
short i = not (i == 1)
