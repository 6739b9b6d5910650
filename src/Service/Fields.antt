-- ===== src/Service/Fields.antt =====
-- src/service.c: the setters and getters of a service. A NULL service is `none`. A flag is true for
-- every `int` but 0; the configuration is left out.
use embla.Prelude.{
  ℕ, zero, suc, ◌-◌, ◌%◌, ◌^◌, Bool, false, Option, none, some, List, [], ◌∷◌, ℤ, pos, negsuc,
  success, failure, ltb, ltb_ℤ, length, if◌then◌else◌,
}
use embla.Process.{Ptr, null, CString}
use embla.Service.{Service, ServiceState, stopped, RestartPolicy, never, add_dependency}

-- What a time getter gives for NULL, in nanoseconds: -1.0 seconds.
abbrev pub minus_second : ℤ
minus_second = negsuc 999999999

-- What the setters share: they fail only on NULL.
unfoldable pub modify : Option Service → (Service → Service) → ℤ × Option Service
modify none f = (failure, none)
modify (some s) f = (success, some (f s))

unfoldable pub set_state : Option Service → ServiceState → ℤ × Option Service
unfolding modify
set_state s value = modify s (λ s. record s { state = value })

unfoldable pub set_process : Option Service → Ptr → ℤ × Option Service
unfolding modify
set_process s value = modify s (λ s. record s { process = value })

unfoldable pub set_last_exit_code : Option Service → ℤ → ℤ × Option Service
unfolding modify
set_last_exit_code s value = modify s (λ s. record s { last_exit_code = value })

unfoldable pub set_last_term_signal : Option Service → ℤ → ℤ × Option Service
unfolding modify
set_last_term_signal s value = modify s (λ s. record s { last_term_signal = value })

unfoldable pub set_restart_policy : Option Service → RestartPolicy → ℤ × Option Service
unfolding modify
set_restart_policy s value = modify s (λ s. record s { restart_policy = value })

unfoldable pub set_restart_base_delay : Option Service → ℤ → ℤ × Option Service
unfolding modify
set_restart_base_delay s value = modify s (λ s. record s { restart_base_delay = value })

unfoldable pub set_restart_max_delay : Option Service → ℤ → ℤ × Option Service
unfolding modify
set_restart_max_delay s value = modify s (λ s. record s { restart_max_delay = value })

unfoldable pub set_restart_stability_threshold : Option Service → ℤ → ℤ × Option Service
unfolding modify
set_restart_stability_threshold s value =
    modify s (λ s. record s { restart_stability_threshold = value })

unfoldable pub set_max_consecutive_restarts : Option Service → ℤ → ℤ × Option Service
unfolding modify
set_max_consecutive_restarts s value = modify s (λ s. record s { max_consecutive_restarts = value })

unfoldable pub set_stop_requested : Option Service → Bool → ℤ × Option Service
unfolding modify
set_stop_requested s value = modify s (λ s. record s { stop_requested = value })

unfoldable pub set_consecutive_restart_count : Option Service → ℤ → ℤ × Option Service
unfolding modify
set_consecutive_restart_count s value =
    modify s (λ s. record s { consecutive_restart_count = value })

unfoldable pub set_permanently_failed : Option Service → Bool → ℤ × Option Service
unfolding modify
set_permanently_failed s value = modify s (λ s. record s { permanently_failed = value })

unfoldable pub set_restart_pending : Option Service → Bool → ℤ × Option Service
unfolding modify
set_restart_pending s value = modify s (λ s. record s { restart_pending = value })

unfoldable pub set_last_start_time : Option Service → ℤ → ℤ × Option Service
unfolding modify
set_last_start_time s value = modify s (λ s. record s { last_start_time = value })

unfoldable pub set_restart_allowed_at : Option Service → ℤ → ℤ × Option Service
unfolding modify
set_restart_allowed_at s value = modify s (λ s. record s { restart_allowed_at = value })

unfoldable pub get_name : Option Service → Option CString
get_name s = elim s [ none ↦ none | some s ↦ some s.name ]

unfoldable pub get_state : Option Service → ServiceState
get_state s = elim s [ none ↦ stopped | some s ↦ s.state ]

unfoldable pub get_process : Option Service → Ptr
get_process s = elim s [ none ↦ null | some s ↦ s.process ]

unfoldable pub get_last_exit_code : Option Service → ℤ
get_last_exit_code s = elim s [ none ↦ failure | some s ↦ s.last_exit_code ]

unfoldable pub get_last_term_signal : Option Service → ℤ
get_last_term_signal s = elim s [ none ↦ failure | some s ↦ s.last_term_signal ]

unfoldable pub get_restart_policy : Option Service → RestartPolicy
get_restart_policy s = elim s [ none ↦ never | some s ↦ s.restart_policy ]

unfoldable pub get_restart_base_delay : Option Service → ℤ
get_restart_base_delay s = elim s [ none ↦ minus_second | some s ↦ s.restart_base_delay ]

unfoldable pub get_restart_max_delay : Option Service → ℤ
get_restart_max_delay s = elim s [ none ↦ minus_second | some s ↦ s.restart_max_delay ]

unfoldable pub get_restart_stability_threshold : Option Service → ℤ
get_restart_stability_threshold s = elim s [
  | none ↦ minus_second
  | some s ↦ s.restart_stability_threshold
]

unfoldable pub get_max_consecutive_restarts : Option Service → ℤ
get_max_consecutive_restarts s = elim s [ none ↦ failure | some s ↦ s.max_consecutive_restarts ]

unfoldable pub get_stop_requested : Option Service → Bool
get_stop_requested s = elim s [ none ↦ false | some s ↦ s.stop_requested ]

unfoldable pub get_consecutive_restart_count : Option Service → ℤ
get_consecutive_restart_count s = elim s [ none ↦ failure | some s ↦ s.consecutive_restart_count ]

unfoldable pub has_failed_permanently : Option Service → Bool
has_failed_permanently s = elim s [ none ↦ false | some s ↦ s.permanently_failed ]

unfoldable pub is_restart_pending : Option Service → Bool
is_restart_pending s = elim s [ none ↦ false | some s ↦ s.restart_pending ]

unfoldable pub get_last_start_time : Option Service → ℤ
get_last_start_time s = elim s [ none ↦ minus_second | some s ↦ s.last_start_time ]

unfoldable pub get_restart_allowed_at : Option Service → ℤ
get_restart_allowed_at s = elim s [ none ↦ minus_second | some s ↦ s.restart_allowed_at ]

unfoldable pub depend : Option Service → Option CString → (copied : Bool) → ℤ × Option Service
unfolding add_dependency
depend none name copied = (failure, none)
depend (some s) name copied = let (code, s') = add_dependency s name copied in (code, some s')

unfoldable pub get_dependency_count : Option Service → ℕ
get_dependency_count s = elim s [ none ↦ 0 | some s ↦ length s.dependencies ]

-- A `size_t` converted to `int`, which the compilers reduce modulo 2 ^ 32 to the signed range.
unfoldable pub to_int : ℕ → ℤ
to_int n = let low = n % 2 ^ 32 in if ltb low (2 ^ 31) then pos low else negsuc (2 ^ 32 - 1 - low)

-- What reading a dependency gives: NULL, a name, or a read outside of the array's used slots.
pub data Reading : Type 0 where
  null_name outside : Reading
  name_at : CString → Reading

unfoldable pub slot : List CString → ℕ → Reading
slot [] index = outside
slot (name ∷ names) zero = name_at name
slot (name ∷ names) (suc index) = slot names index

unfoldable pub get_dependency_name : Option Service → (index : ℕ) → Reading
unfolding to_int slot
get_dependency_name none index = null_name
get_dependency_name (some s) index =
    if ltb_ℤ (to_int index) (pos (length s.dependencies))
    then slot s.dependencies index
    else null_name
