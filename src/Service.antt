-- ===== src/Service.antt =====
-- src/service.c, src/service_lifecycle.c and src/service_restart.c: one supervised service.
-- Times are integers of nanoseconds in place of the code's doubles; the clock's readings, and what
-- allocations and the host give during a start, are arguments. The receivers are live objects.
pub mod Restart
pub mod Fields
pub mod Dependencies
mod Tests
use embla.Prelude.{
  ℕ, ◌+◌, ◌^◌, Bool, true, false, not, ◌&&◌, ◌||◌, Option, none, some, List, [], ◌∷◌, ◌++◌, ℤ, pos,
  negsuc, success, failure, ◌==◌, leb, eqb_ℤ, ltb_ℤ, ◌+ℤ◌, ◌-ℤ◌, scale, pos_part, length,
  if◌then◌else◌,
}
use embla.Process.{Ptr, null, CString, get_id, get_state, get_exit_code, get_term_signal}
use embla.ProcessManager.{is_terminated}
use embla.Executor.{SpawnHost, Sent}
use embla.Runtime.{Embla, Memory, GroupMemory, Signals, reap_process}
use embla.Runtime

pub data ServiceState : Type 0 where
  stopped running : ServiceState

pub data RestartPolicy : Type 0 where
  never on_failure always : RestartPolicy

pub record Service : Type 0 where
  pub name : CString
  pub state : ServiceState
  pub process : Ptr
  pub last_exit_code : ℤ
  pub last_term_signal : ℤ
  pub restart_policy : RestartPolicy
  pub restart_base_delay : ℤ
  pub restart_max_delay : ℤ
  pub restart_stability_threshold : ℤ
  pub max_consecutive_restarts : ℤ
  pub stop_requested : Bool
  pub consecutive_restart_count : ℤ
  pub permanently_failed : Bool
  pub restart_pending : Bool
  pub last_start_time : ℤ
  pub restart_allowed_at : ℤ
  pub dependencies : List CString

abbrev pub max_dependencies : ℕ
max_dependencies = 16

-- A new service, its fields set.
abbrev pub fresh_service : CString → Service
fresh_service name = record {
  name = name;
  state = stopped;
  process = null;
  last_exit_code = negsuc 0;
  last_term_signal = negsuc 0;
  restart_policy = never;
  restart_base_delay = pos 1000000000;
  restart_max_delay = pos 300000000000;
  restart_stability_threshold = pos 60000000000;
  max_consecutive_restarts = pos 5;
  stop_requested = false;
  consecutive_restart_count = pos 0;
  permanently_failed = false;
  restart_pending = false;
  last_start_time = pos 0;
  restart_allowed_at = pos 0;
  dependencies = [];
}

-- `config` is whether the configuration is not NULL, `allocated` and `copied` whether `malloc` and
-- `embla_strdup` succeed.
unfoldable pub create : Option CString → (config allocated copied : Bool) → Option Service
create none config allocated copied = none
create (some name) config allocated copied =
    if config && allocated && copied then some (fresh_service name) else none

-- `strcmp` is 0.
unfoldable pub bytes_eq : CString → CString → Bool
bytes_eq [] [] = true
bytes_eq (a ∷ as') (b ∷ bs) = a == b && bytes_eq as' bs
bytes_eq _ _ = false

unfoldable pub add_dependency : Service → Option CString → (copied : Bool) → ℤ × Service
add_dependency s none copied = (failure, s)
add_dependency s (some dependency) copied =
    if bytes_eq dependency s.name
    then (failure, s)
    else if leb max_dependencies (length s.dependencies)
    then (failure, s)
    else if copied
    then (success, record s { dependencies = s.dependencies ++ dependency ∷ [] })
    else (failure, s)

abbrev pub is_running : ServiceState → Bool
is_running running = true
is_running stopped = false

-- What a start draws on: the allocations, the host, and the clock.
pub record Start : Type 0 where
  pub group_memory : GroupMemory
  pub memory : Memory
  pub host : SpawnHost
  pub clock : ℤ

unfoldable pub start : Service → Embla → Start → ℤ × Service × Embla
start s e env =
    let (process, e') = Runtime.spawn e env.group_memory env.memory (some s.name) true env.host in
    if is_running s.state then (failure, s, e) else if process == null then (failure, s, e') else (
      success,
      record s {
        process = process;
        last_start_time = env.clock;
        permanently_failed = false;
        state = running;
      },
      e',
    )

unfoldable pub stop : Signals → Service → Embla → (delivered : Bool) → ℤ × Service × Option Sent
stop signals s e delivered =
    let (code, sent) = Runtime.terminate signals e s.process delivered in
    if not (is_running s.state) || s.process == null
    then (failure, s, none)
    else (code, record s { stop_requested = true }, sent)

unfoldable pub kill : Signals → Service → Embla → (delivered : Bool) → ℤ × Option Sent
kill signals s e delivered =
    if not (is_running s.state) || s.process == null
    then (failure, none)
    else Runtime.kill signals e s.process delivered

-- 1 is a reaped process, 0 none to reap, -1 an error.
unfoldable pub reap : Service → Embla → ℤ × Service × Embla
reap s e =
    let s' = record s {
      last_exit_code = get_exit_code e.heap s.process;
      last_term_signal = get_term_signal e.heap s.process;
    } in
    let (reaped, e') = reap_process e (get_id e.heap s.process) in
    if not (is_running s.state)
    then (pos 0, s, e)
    else if s.process == null
    then (failure, s, e)
    else if not (is_terminated (get_state e.heap s.process))
    then (pos 0, s, e)
    else if eqb_ℤ reaped success
    then (pos 1, record s' { process = null; state = stopped }, e')
    else (failure, s', e')

-- The exponent count - 1, held between 0 and 30.
unfoldable pub backoff_exponent : ℤ → ℕ
backoff_exponent count =
    let exponent = count -ℤ pos 1 in
    if ltb_ℤ exponent (pos 0) then 0 else if ltb_ℤ (pos 30) exponent then 30 else pos_part exponent

unfoldable pub compute_delay : Service → ℤ
compute_delay s =
    let delay = scale s.restart_base_delay (2 ^ backoff_exponent s.consecutive_restart_count) in
    if ltb_ℤ s.restart_max_delay delay then s.restart_max_delay else delay

pub data TickResult : Type 0 where
  tick_nothing tick_waiting tick_restarted reaped_no_restart reaped_restart_scheduled : TickResult
  tick_gave_up tick_error : TickResult

unfoldable pub should_restart : RestartPolicy → (was_clean_exit : Bool) → Bool
should_restart always was_clean_exit = true
should_restart on_failure was_clean_exit = not was_clean_exit
should_restart never was_clean_exit = false

unfoldable pub was_clean_exit : Service → Bool
was_clean_exit s = eqb_ℤ s.last_term_signal (negsuc 0) && eqb_ℤ s.last_exit_code (pos 0)

-- The end of `service_tick`, for a reaped service that is to be restarted.
unfoldable pub schedule_restart : Service → (now : ℤ) → TickResult × Service
schedule_restart s now =
    let stable = not (ltb_ℤ (now -ℤ s.last_start_time) s.restart_stability_threshold) in
    let old_count = if stable then pos 0 else s.consecutive_restart_count in
    let new_count = old_count +ℤ pos 1 in
    let s' = record s { consecutive_restart_count = new_count } in
    if ltb_ℤ s.max_consecutive_restarts new_count
    then (tick_gave_up, record s' { permanently_failed = true })
    else (
      reaped_restart_scheduled,
      record s' { restart_allowed_at = now +ℤ compute_delay s'; restart_pending = true },
    )

-- What `service_tick` does once a process has been reaped.
unfoldable pub after_reap : Service → (now : ℤ) → TickResult × Service
unfolding should_restart was_clean_exit schedule_restart
after_reap s now =
    if s.stop_requested
    then (reaped_no_restart, record s { stop_requested = false })
    else if should_restart s.restart_policy (was_clean_exit s)
    then schedule_restart s now
    else (reaped_no_restart, s)

-- `env.clock` is the reading that a start takes, `now` the one that the tick takes.
unfoldable pub tick : Service → Embla → (now : ℤ) → Start → TickResult × Service × Embla
tick s e now env =
    let s' = record s { restart_pending = false } in
    let (started, s'', e') = start s' e env in
    let (reaped, r, e'') = reap s e in
    let (result, r') = after_reap r now in
    if s.restart_pending
    then (if ltb_ℤ now s.restart_allowed_at
        then (tick_waiting, s, e)
        else if eqb_ℤ started success
        then (tick_restarted, s'', e')
        else (tick_error, s'', e'))
    else if ltb_ℤ reaped (pos 0)
    then (tick_error, r, e'')
    else if eqb_ℤ reaped (pos 0)
    then (tick_nothing, r, e'')
    else (result, r', e'')
