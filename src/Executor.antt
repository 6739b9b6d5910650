-- ===== src/Executor.antt =====
-- src/executor.c, the parent's side: what spawning, waiting and signalling do to a process object.
-- What fork, setpgid, kill and wait4 come to is an argument; a wait status is given as the W*
-- macros of <sys/wait.h> decode it, and resource usage in microseconds and in the bytes that
-- `platform_normalize_max_rss` gives. The child's side stands in `Executor.Child`.
pub mod Child
pub mod Polling
mod Tests
use embla.Prelude.{
  ℕ, Bool, not, ◌&&◌, ◌||◌, Option, none, some, List, [], ◌∷◌, ℤ, pos, ◌-ℤ◌, success, failure, ◌==◌,
  eqb_ℤ, if◌then◌else◌,
}
use embla.Process.{
  Ptr, null, Heap, invalid_host_pid, terminated, set_host_id, get_host_id, set_exit_code,
  set_term_signal, transition, set_cpu_user_seconds, set_cpu_system_seconds, set_max_rss_bytes,
}
use embla.ProcessGroup.{invalid_host_pgid}

-- What `fork` returns to the parent: an error, or the child's pid.
pub data Fork : Type 0 where
  fork_failed : Fork
  forked : ℤ → Fork

pub data WaitStatus : Type 0 where
  exited signaled stopped_by : ℤ → WaitStatus
  continued other_status : WaitStatus

pub record Usage : Type 0 where
  pub user : ℤ
  pub system : ℤ
  pub max_rss : ℤ

-- The host's answers while one process is spawned; `eacces` is whether `setpgid` failed with it.
pub record SpawnHost : Type 0 where
  pub fork : Fork
  pub setpgid : Bool
  pub eacces : Bool

unfoldable pub apply_termination : Heap → Ptr → WaitStatus → ℤ × Heap
apply_termination h p (exited code) =
    let (set, h') = set_exit_code h p code in
    let (moved, h'') = transition h' p terminated in
    if not (eqb_ℤ set success)
    then (failure, h')
    else if eqb_ℤ moved success
    then (success, h'')
    else (failure, h'')
apply_termination h p (signaled signal) =
    let (set, h') = set_term_signal h p signal in
    let (moved, h'') = transition h' p terminated in
    if not (eqb_ℤ set success)
    then (failure, h')
    else if eqb_ℤ moved success
    then (success, h'')
    else (failure, h'')
apply_termination h p _ =
    let (moved, h') = transition h p terminated in
    if eqb_ℤ moved success then (success, h') else (failure, h')

-- The three setters in turn; each fails only on NULL.
unfoldable pub apply_rusage : Heap → Ptr → Usage → ℤ × Heap
apply_rusage h p usage =
    let (a, h₁) = set_cpu_user_seconds h p usage.user in
    let (b, h₂) = set_cpu_system_seconds h₁ p usage.system in
    let (c, h₃) = set_max_rss_bytes h₂ p usage.max_rss in
    if p == null || not (eqb_ℤ a success)
    then (failure, h)
    else if not (eqb_ℤ b success)
    then (failure, h₁)
    else if not (eqb_ℤ c success)
    then (failure, h₂)
    else (success, h₃)

-- `config` is whether the configuration is not NULL.
unfoldable pub spawn : Heap → Ptr → (config : Bool) → SpawnHost → ℤ × Heap
spawn h p config host = if p == null || not config then (failure, h) else elim host.fork [
  | fork_failed ↦ (failure, h)
  | forked pid ↦ if not host.setpgid && not host.eacces then (failure, h) else set_host_id h p pid
]

-- `kill` and `wait4`: whether each succeeds, and for `kill` whether it failed with ESRCH.
unfoldable pub kill_and_reap : (killed esrch waited : Bool) → ℤ
kill_and_reap killed esrch waited =
    if not killed && not esrch then failure else if waited then success else failure

unfoldable pub terminate : Heap → Ptr → (killed esrch waited : Bool) → ℤ
unfolding kill_and_reap
terminate h p killed esrch waited =
    if p == null || eqb_ℤ (get_host_id h p) invalid_host_pid
    then failure
    else kill_and_reap killed esrch waited

-- The signal that reaches the host: the host pid (or the negated group) and its number.
pub record Sent : Type 0 where
  pub target : ℤ
  pub number : ℕ

-- The call of `kill` that is made, if one is, and what the function returns.
unfoldable pub signal : Heap → Ptr → ℕ → (delivered : Bool) → ℤ × Option Sent
signal h p number delivered =
    if p == null || eqb_ℤ (get_host_id h p) invalid_host_pid then (failure, none) else (
      if delivered then success else failure,
      some (record { target = get_host_id h p; number = number }),
    )

-- `executor_wait` after wait4: the result is that of the retried call.
unfoldable pub wait : Heap → Ptr → Option (WaitStatus × Usage) → ℤ × Heap
wait h p none = (failure, h)
wait h p (some (status, usage)) =
    let (ended, h') = apply_termination h p status in
    let (used, h'') = apply_rusage h' p usage in
    if p == null || eqb_ℤ (get_host_id h p) invalid_host_pid
    then (failure, h)
    else if not (eqb_ℤ ended success)
    then (failure, h')
    else if eqb_ℤ used success
    then (success, h'')
    else (failure, h'')

-- What `executor_poll_any` gives back: -1, 0, or 1 with a child's status.
pub data Poll : Type 0 where
  poll_error nothing : Poll
  event : (host_id : ℤ) (status : WaitStatus) (usage : Usage) → Poll

-- What one call of `wait4` gives for any child: -1 with EINTR, -1 with another errno, 0, or a pid.
pub data Wait4 : Type 0 where
  interrupted no_change : Wait4
  failed : (echild : Bool) → Wait4
  changed : (host_id : ℤ) (status : WaitStatus) (usage : Usage) → Wait4

-- `executor_wait4_retry` on the answers of its calls in turn, of which `last` is the first that no
-- signal interrupted, if the others are all interrupted.
unfoldable pub wait4_retry : List Wait4 → (last : Wait4) → Wait4
wait4_retry [] last = last
wait4_retry (interrupted ∷ answers) last = wait4_retry answers last
wait4_retry (failed echild ∷ answers) last = failed echild
wait4_retry (no_change ∷ answers) last = no_change
wait4_retry (changed host_id status usage ∷ answers) last = changed host_id status usage

-- `executor_poll_any`, from what the retried `wait4` gives: 0 without a child or without a change.
-- An interrupted call is retried, so its clause, an error with EINTR, is never reached.
unfoldable pub poll_any : Wait4 → Poll
poll_any (failed echild) = if echild then nothing else poll_error
poll_any interrupted = poll_error
poll_any no_change = nothing
poll_any (changed host_id status usage) = event host_id status usage

-- The end of `executor_poll`: 1 for an end that it recorded, 0 for any other change.
unfoldable pub poll_status : Heap → Ptr → WaitStatus → ℤ × Heap
unfolding apply_termination
poll_status h p (stopped_by number) = (pos 0, h)
poll_status h p continued = (pos 0, h)
poll_status h p other_status = (pos 0, h)
poll_status h p status =
    let (ended, h') = apply_termination h p status in
    if eqb_ℤ ended success then (pos 1, h') else (failure, h')

-- `executor_poll`, from what the retried `waitpid` gives: an error, no change, or a status.
unfoldable pub poll : Heap → Ptr → Option (Option WaitStatus) → ℤ × Heap
unfolding poll_status
poll h p answer =
    if p == null || eqb_ℤ (get_host_id h p) invalid_host_pid then (failure, h) else elim answer [
      | none ↦ (failure, h)
      | some none ↦ (pos 0, h)
      | some (some status) ↦ poll_status h p status
    ]

-- The call of `kill` on the negated id of a host group.
unfoldable pub signal_group : (host_group_id : ℤ) → ℕ → (delivered : Bool) → ℤ × Option Sent
signal_group group number delivered = if eqb_ℤ group invalid_host_pgid then (failure, none) else (
  if delivered then success else failure,
  some (record { target = pos 0 -ℤ group; number = number }),
)
