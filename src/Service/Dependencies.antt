-- ===== src/Service/Dependencies.antt =====
-- What the calls on a service keep: its name, and that it does not depend on itself.
use embla.Prelude.{
  ◌&&◌, subst, ℕ, zero, suc, ◌≤◌, ◌<◌, ◌≡◌, refl, sym, ap, ◌∙◌, ◌⊎◌, inl, inr, Bool, false, Option,
  none, some, List, [], ◌∷◌, ◌++◌, All, arith, ℤ, length, length-append, leb, Bool-cases, ltb_ℤ,
  pos,
}
use mathlib.Core.Option.{some-injective, none-ne-some}
use embla.Process.{Ptr, CString}
use embla.Service.{
  Service, ServiceState, RestartPolicy, bytes_eq, add_dependency, create, fresh_service,
  max_dependencies,
}
use embla.Service.Fields.{
  modify, depend, get_dependency_name, slot, to_int, null_name, name_at, set_state, set_process,
  set_last_exit_code, set_last_term_signal, set_restart_policy, set_restart_base_delay,
  set_restart_max_delay, set_restart_stability_threshold, set_max_consecutive_restarts,
  set_stop_requested, set_consecutive_restart_count, set_permanently_failed, set_restart_pending,
  set_last_start_time, set_restart_allowed_at,
}

-- One call of a setter; for `dependency`, whether its name can be copied.
pub data Call : Type 0 where
  state : ServiceState → Call
  process : Ptr → Call
  last_exit_code last_term_signal restart_base_delay restart_max_delay restart_stability_threshold
        max_consecutive_restarts consecutive_restart_count last_start_time restart_allowed_at :
      ℤ → Call
  restart_policy : RestartPolicy → Call
  stop_requested permanently_failed restart_pending : Bool → Call
  dependency : Option CString → Bool → Call

abbrev pub call : Call → Option Service → ℤ × Option Service
call (state value) s = set_state s value
call (process value) s = set_process s value
call (last_exit_code value) s = set_last_exit_code s value
call (last_term_signal value) s = set_last_term_signal s value
call (restart_policy value) s = set_restart_policy s value
call (restart_base_delay value) s = set_restart_base_delay s value
call (restart_max_delay value) s = set_restart_max_delay s value
call (restart_stability_threshold value) s = set_restart_stability_threshold s value
call (max_consecutive_restarts value) s = set_max_consecutive_restarts s value
call (stop_requested value) s = set_stop_requested s value
call (consecutive_restart_count value) s = set_consecutive_restart_count s value
call (permanently_failed value) s = set_permanently_failed s value
call (restart_pending value) s = set_restart_pending s value
call (last_start_time value) s = set_last_start_time s value
call (restart_allowed_at value) s = set_restart_allowed_at s value
call (dependency name copied) s = depend s name copied

abbrev pub call_all : List Call → Option Service → Option Service
call_all [] s = s
call_all (c ∷ cs) s = call_all cs (call c s).1

-- The service has the given name, at most 16 dependencies, and none on itself.
abbrev pub IsSound : CString → Service → Type 0
IsSound name s =
    (s.name ≡ name)
    × (length s.dependencies ≤ max_dependencies)
    × All (λ dependency. bytes_eq dependency name ≡ false) s.dependencies

All-snoc :
    (P : CString → Type 0) (xs : List CString) (x : CString) → All P xs → P x → All P (xs ++ x ∷ [])
All-snoc P [] x all px = (px, tt)
All-snoc P (y ∷ ys) x (py, all) px = (py, All-snoc P ys x all px)

-- What one call leaves.
abbrev Keeps : CString → ℤ × Option Service → Type 0
Keeps name r = (s' : Service) × (r.1 ≡ some s') × IsSound name s'

depend-Keeps :
    (name : CString) (s : Service) (other : Option CString) (copied : Bool)
    → IsSound name s
    → Keeps name (depend (some s) other copied)
unfolding depend add_dependency
depend-Keeps name s none copied v = (s, refl, v)
depend-Keeps name s (some other) copied (named, few, apart) =
    elim (Bool-cases (bytes_eq other s.name)) [
      | inl itself ↦ (s, rw (itself, depend, add_dependency) refl, (named, few, apart))
      | inr distinct ↦ elim (Bool-cases (leb max_dependencies (length s.dependencies))) [
        | inl full ↦ (s, rw (distinct, full, depend, add_dependency) refl, (named, few, apart))
        | inr room ↦ elim (Bool-cases copied) [
          | inr failed ↦
              (s, rw (distinct, room, failed, depend, add_dependency) refl, (named, few, apart))
          | inl okay ↦ (
            record s { dependencies = s.dependencies ++ other ∷ [] },
            rw (distinct, room, okay, depend, add_dependency) refl,
            (
              named,
              longer s.dependencies room,
              All-snoc (λ d. bytes_eq d name ≡ false) s.dependencies other apart
                  (ap (bytes_eq other) (sym named) ∙ distinct),
            ),
          )
        ]
      ]
    ]
  where
    longer :
        (names : List CString)
        → leb max_dependencies (length names) ≡ false
        → length (names ++ other ∷ []) ≤ max_dependencies
    longer names room = ground (arith, length-append names (other ∷ []))

call-Keeps :
    (name : CString) (c : Call) (s : Service) → IsSound name s → Keeps name (call c (some s))
unfolding modify set_state set_process set_last_exit_code set_last_term_signal set_restart_policy
    set_restart_base_delay set_restart_max_delay set_restart_stability_threshold
    set_max_consecutive_restarts set_stop_requested set_consecutive_restart_count
    set_permanently_failed set_restart_pending set_last_start_time set_restart_allowed_at
call-Keeps name (state value) s v = (record s { state = value }, refl, v)
call-Keeps name (process value) s v = (record s { process = value }, refl, v)
call-Keeps name (last_exit_code value) s v = (record s { last_exit_code = value }, refl, v)
call-Keeps name (last_term_signal value) s v = (record s { last_term_signal = value }, refl, v)
call-Keeps name (restart_policy value) s v = (record s { restart_policy = value }, refl, v)
call-Keeps name (restart_base_delay value) s v = (record s { restart_base_delay = value }, refl, v)
call-Keeps name (restart_max_delay value) s v = (record s { restart_max_delay = value }, refl, v)
call-Keeps name (restart_stability_threshold value) s v =
    (record s { restart_stability_threshold = value }, refl, v)
call-Keeps name (max_consecutive_restarts value) s v =
    (record s { max_consecutive_restarts = value }, refl, v)
call-Keeps name (stop_requested value) s v = (record s { stop_requested = value }, refl, v)
call-Keeps name (consecutive_restart_count value) s v =
    (record s { consecutive_restart_count = value }, refl, v)
call-Keeps name (permanently_failed value) s v = (record s { permanently_failed = value }, refl, v)
call-Keeps name (restart_pending value) s v = (record s { restart_pending = value }, refl, v)
call-Keeps name (last_start_time value) s v = (record s { last_start_time = value }, refl, v)
call-Keeps name (restart_allowed_at value) s v = (record s { restart_allowed_at = value }, refl, v)
call-Keeps name (dependency other copied) s v = depend-Keeps name s other copied v

call_all-kept :
    (name : CString) (cs : List Call) (s : Service)
    → IsSound name s
    → (s' : Service) × (call_all cs (some s) ≡ some s') × IsSound name s'
call_all-kept name [] s v = (s, refl, v)
call_all-kept name (c ∷ cs) s v =
    let (s₁, e₁, v₁) = call-Keeps name c s v in
    let (s₂, e₂, v₂) = call_all-kept name cs s₁ v₁ in (s₂, ap (call_all cs) e₁ ∙ e₂, v₂)

-- Whatever setters are called on a service that `service_create` has returned, and whatever
-- dependencies are added to it, it keeps its name, has at most 16 dependencies and none on itself.
pub create-call_all-IsSound :
    (name : CString) (config allocated copied : Bool) (created : Service) (cs : List Call)
    → create (some name) config allocated copied ≡ some created
    → (s : Service) × (call_all cs (some created) ≡ some s) × IsSound name s
unfolding create
create-call_all-IsSound name config allocated copied created cs e =
    elim (Bool-cases (config && allocated && copied)) [
      | inl fine ↦
          subst (λ x. (s : Service) × (call_all cs (some x) ≡ some s) × IsSound name s)
            (some-injective (fresh_service name) created (rw (fine, create) at e))
            (call_all-kept name cs (fresh_service name) (refl, omega arith, tt))
      | inr missing ↦ absurd (none-ne-some created (rw (missing, create) at e))
    ]

-- `names` has `name` behind `index` others.
abbrev pub StandsAt : ℕ → CString → List CString → Type 0
StandsAt index name names =
    (before : List CString) × (after : List CString) × (names ≡ before ++ name ∷ after)
    × (length before ≡ index)

slot-StandsAt :
    (names : List CString) (index : ℕ)
    → index < length names
    → (name : CString) × (slot names index ≡ name_at name) × StandsAt index name names
unfolding slot
slot-StandsAt [] index lt = absurd (omega arith)
slot-StandsAt (x ∷ xs) zero lt = (x, refl, ([], xs, refl, refl))
slot-StandsAt (x ∷ xs) (suc index) lt =
    let (name, read, (before, after, parts, len)) = slot-StandsAt xs index (omega arith) in
    (name, read, (x ∷ before, after, ap (λ l. x ∷ l) parts, ap suc len))

to_int_small : (n : ℕ) → n < 2147483648 → to_int n ≡ pos n
unfolding to_int
to_int_small n lt = ground arith

-- For an index below 2 ^ 31, `service_get_dependency_name` gives the dependency that stands at the
-- index if there is one, and NULL if there is none; it reads no slot that is not used.
pub get_dependency_name-StandsAt :
    (s : Service) (index : ℕ)
    → index < 2147483648
    → ((name : CString) × (get_dependency_name (some s) index ≡ name_at name)
        × StandsAt index name s.dependencies)
      ⊎ ((length s.dependencies ≤ index) × (get_dependency_name (some s) index ≡ null_name))
unfolding get_dependency_name
get_dependency_name-StandsAt s index small =
    elim (Bool-cases (ltb_ℤ (pos index) (pos (length s.dependencies)))) [
      | inl within ↦
          let (name, read, stands) = slot-StandsAt s.dependencies index (ground arith) in
          inl (name, rw (to_int_small index small, within, get_dependency_name) read, stands)
      | inr beyond ↦
          inr (ground arith, rw (to_int_small index small, beyond, get_dependency_name) refl)
    ]
