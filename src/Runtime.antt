-- ===== src/Runtime.antt =====
-- src/embla.c: the runtime that ties the process table, the group table, the scheduler and the
-- executor together. The two heaps are part of its state. What the allocations and the host give
-- during a call are arguments. The main loop stands in `Loop`, the group signals in `GroupSignals`.
pub mod Loop
pub mod Capacity
pub mod GroupSignals
pub mod Growth
pub mod Shutdown
pub mod Invariant
pub mod Kept
pub mod Handled
pub mod Looped
pub mod Steps
pub mod Membership
pub mod Grouped
pub mod Closing
pub mod Rollback
pub mod Attempt
pub mod Settled
pub mod Spawn
mod Tests
use embla.Prelude.{
  ℕ, zero, suc, ◌+◌, ◌-◌, Bool, true, false, not, ◌&&◌, ◌||◌, Option, none, some, List, [], ◌∷◌, ℤ,
  pos, success, failure, ◌==◌, ltb, leb, eqb_ℤ, if◌then◌else◌,
}
use embla.Process.{
  Ptr, null, CString, Heap, root_pid, invalid_pgid, get_id, get_group_id, get_host_id, get_state,
  transition, set_exit_code, set_term_signal, ProcessState, ready, stopped, running, terminated,
}
use embla.Executor
use embla.Executor.{
  SpawnHost, WaitStatus, exited, signaled, stopped_by, continued, other_status, Usage, Poll,
  poll_error, nothing, event, Sent, apply_rusage,
}
use embla.ProcessManager
use embla.ProcessManager.{
  ProcessManager, create_process, destroy_process, get_by_host_id, wait_child, live_count,
  reparent_children, is_terminated,
}
use embla.ProcessGroup
use embla.ProcessGroup.{Groups, has_max_members, get_max_members, member_count, invalid_host_pgid}
use embla.ProcessGroupManager
use embla.ProcessGroupManager.{ProcessGroupManager, create_group, destroy_group}
use embla.Scheduler
use embla.Scheduler.{Scheduler, dispatch, ready_count}

-- EMBLA_STOPPED, EMBLA_RUNNING and EMBLA_STOPPING.
pub data EmblaState : Type 0 where
  halted active stopping : EmblaState

pub record Embla : Type 0 where
  pub process_manager : ProcessManager
  pub process_group_manager : ProcessGroupManager
  pub scheduler : Scheduler
  pub state : EmblaState
  pub heap : Heap
  pub groups : Groups

-- The runtime that `embla_create` returns, if every allocation in it succeeds.
unfoldable pub create : Heap → Groups → Embla
create heap groups = record {
  process_manager = ProcessManager.create;
  process_group_manager = ProcessGroupManager.create;
  scheduler = Scheduler.create;
  state = halted;
  heap = heap;
  groups = groups;
}

-- What `malloc` and `embla_strdup` give while one process is made.
pub record Memory : Type 0 where
  pub block : Ptr
  pub copied : Bool

-- A child that was forked is killed first, which changes no state of the model.
unfoldable pub spawn_rollback : Embla → (group process : Ptr) → (id : ℕ) → Embla
spawn_rollback e group process id =
    let (_, groups) = ProcessGroup.remove e.groups group process in
    let (_, heap, manager) = destroy_process e.process_manager e.heap id in
    record e { groups = groups; heap = heap; process_manager = manager }

-- The last steps of a spawn: READY, and into the scheduler's queue.
unfoldable pub spawn_enqueue : Embla → (group process : Ptr) → (id : ℕ) → Ptr × Embla
spawn_enqueue e group process id =
    let (moved, heap) = transition e.heap process ready in
    let (queued, scheduler) = Scheduler.add e.scheduler process in
    let e' = record e { heap = heap } in
    if not (eqb_ℤ moved success)
    then (null, spawn_rollback e' group process id)
    else if not (eqb_ℤ queued success)
    then (null, spawn_rollback (record e' { scheduler = scheduler }) group process id)
    else (process, record e' { scheduler = scheduler })

-- After the fork: the first process of a group leads its host group.
unfoldable pub spawn_lead : Embla → (group process : Ptr) → (id : ℕ) → ℤ → Ptr × Embla
spawn_lead e group process id target =
    let (led, groups) = ProcessGroup.set_host_id e.groups group (get_host_id e.heap process) in
    let e' = record e { groups = groups } in
    if eqb_ℤ target invalid_host_pgid
    then (if eqb_ℤ led success
        then spawn_enqueue e' group process id
        else (null, spawn_rollback e' group process id))
    else spawn_enqueue e group process id

-- The process is in the table: into its group, then to the host.
unfoldable pub spawn_member :
    Embla → (group process : Ptr) → (config : Bool) → SpawnHost → Ptr × Embla
spawn_member e group process config host =
    let id = get_id e.heap process in
    let (joined, groups) = ProcessGroup.add e.groups e.heap group process in
    let e' = record e { groups = groups } in
    let target = ProcessGroup.get_host_id groups group in
    let (forked, heap) = Executor.spawn e.heap process config host in
    let e'' = record e' { heap = heap } in
    if not (eqb_ℤ joined success)
    then (null, spawn_rollback e' group process id)
    else if not (eqb_ℤ forked success)
    then (null, spawn_rollback e'' group process id)
    else spawn_lead e'' group process id target

unfoldable pub spawn_internal :
    Embla
    → Memory
    → (parent group_id : ℕ) → Option CString
    → (config : Bool) → SpawnHost
    → Ptr × Embla
spawn_internal e mem parent group_id none config host = (null, e)
spawn_internal e mem parent group_id (some name) config host =
    let group = ProcessGroupManager.get e.process_group_manager e.groups group_id in
    let (process, heap, manager) =
      create_process e.process_manager e.heap mem.block mem.copied parent group_id (some name) in
    let e' = record e { heap = heap; process_manager = manager } in
    if not config || group == null
    then (null, e)
    else if has_max_members e.groups group
        && leb (get_max_members e.groups group) (member_count e.groups group)
    then (null, e)
    else if process == null
    then (null, e')
    else spawn_member e' group process config host

-- What the allocations give while a group is made.
pub record GroupMemory : Type 0 where
  pub block : Ptr
  pub members : Bool
  pub garbage : ℕ

unfoldable pub spawn :
    Embla → GroupMemory → Memory → Option CString → (config : Bool) → SpawnHost → Ptr × Embla
spawn e gmem mem none config host = (null, e)
spawn e gmem mem (some name) config host =
    let (group, groups, directory) =
      create_group e.process_group_manager e.groups gmem.block gmem.members gmem.garbage in
    let e' = record e { groups = groups; process_group_manager = directory } in
    let id = ProcessGroup.get_id groups group in
    let (process, e'') = spawn_internal e' mem root_pid id (some name) config host in
    let (_, groups', directory') = destroy_group e''.process_group_manager e''.groups id in
    if not config
    then (null, e)
    else if group == null
    then (null, e')
    else if process == null
    then (null, record e'' { groups = groups'; process_group_manager = directory' })
    else (process, e'')

unfoldable pub spawn_child :
    Embla → Memory → (parent : Ptr) → Option CString → (config : Bool) → SpawnHost → Ptr × Embla
spawn_child e mem parent none config host = (null, e)
spawn_child e mem parent (some name) config host =
    if not config || parent == null || get_group_id e.heap parent == invalid_pgid
    then (null, e)
    else spawn_internal e mem (get_id e.heap parent) (get_group_id e.heap parent) (some name) config
        host

-- POSIX signal numbers, as the headers of the host define them.
pub record Signals : Type 0 where
  pub sigterm : ℕ
  pub sigstop : ℕ
  pub sigcont : ℕ
  pub sigkill : ℕ

module _ (signals : Signals) where
  unfoldable pub terminate : Embla → Ptr → (delivered : Bool) → ℤ × Option Sent
  terminate e p delivered =
      if p == null || is_terminated (get_state e.heap p)
      then (failure, none)
      else Executor.signal e.heap p signals.sigterm delivered

  abbrev is_stopped : ProcessState → Bool
  is_stopped stopped = true
  is_stopped _ = false

  unfoldable pub stop_process : Embla → Ptr → (delivered : Bool) → ℤ × Option Sent
  stop_process e p delivered =
      if p == null || is_terminated (get_state e.heap p) || is_stopped (get_state e.heap p)
      then (failure, none)
      else Executor.signal e.heap p signals.sigstop delivered

  unfoldable pub continue_process : Embla → Ptr → (delivered : Bool) → ℤ × Option Sent
  continue_process e p delivered =
      if p == null || not (is_stopped (get_state e.heap p))
      then (failure, none)
      else Executor.signal e.heap p signals.sigcont delivered

  unfoldable pub kill : Embla → Ptr → (delivered : Bool) → ℤ × Option Sent
  kill e p delivered =
      if p == null || is_terminated (get_state e.heap p)
      then (failure, none)
      else Executor.signal e.heap p signals.sigkill delivered

unfoldable pub reap_found_process : Embla → Ptr → ℤ × Embla
reap_found_process e p =
    let id = get_id e.heap p in
    let group_id = get_group_id e.heap p in
    let group = ProcessGroupManager.get e.process_group_manager e.groups group_id in
    let (left, groups) = ProcessGroup.remove e.groups group p in
    let e₁ = record e { groups = groups } in
    let empty = member_count groups group == 0 in
    let (gone, heap, manager) = destroy_process e.process_manager e.heap id in
    let e₂ = record e₁ { heap = heap; process_manager = manager } in
    let (closed, groups', directory) = destroy_group e.process_group_manager groups group_id in
    let e₃ = record e₂ { groups = groups'; process_group_manager = directory } in
    if group == null
    then (failure, e)
    else if not (eqb_ℤ left success)
    then (failure, e)
    else if not (eqb_ℤ gone success)
    then (failure, e₁)
    else if not empty
    then (success, e₂)
    else if eqb_ℤ closed success
    then (success, e₃)
    else (failure, e₂)

-- The reaped child's id is the middle part; 0 where none is reported.
unfoldable pub reap_child : Embla → (parent : ℕ) → ℤ × ℕ × Embla
reap_child e parent =
    let p = wait_child e.process_manager e.heap parent in
    let (code, e') = reap_found_process e p in
    if p == null
    then (failure, 0, e)
    else if eqb_ℤ code success
    then (success, get_id e.heap p, e')
    else (failure, 0, e')

unfoldable pub reap_process : Embla → (id : ℕ) → ℤ × Embla
reap_process e id =
    let p = ProcessManager.get e.process_manager e.heap id in
    if p == null || not (is_terminated (get_state e.heap p))
    then (failure, e)
    else reap_found_process e p

-- The part of `embla_handle_child_event` behind its `terminated` label. `iterator` is whether the
-- child iterator can be allocated.
unfoldable pub child_terminated : Embla → Ptr → Usage → (iterator : Bool) → ℤ × Embla
child_terminated e p usage iterator =
    let (moved, h₁) = transition e.heap p terminated in
    let (used, h₂) = apply_rusage h₁ p usage in
    let (adopted, h₃) = reparent_children e.process_manager h₂ iterator (get_id h₂ p) root_pid in
    let (taken, scheduler) = Scheduler.remove e.scheduler p in
    if not (eqb_ℤ moved success)
    then (failure, record e { heap = h₁ })
    else if not (eqb_ℤ used success)
    then (failure, record e { heap = h₂ })
    else if not (eqb_ℤ adopted success)
    then (failure, record e { heap = h₃ })
    else if eqb_ℤ taken success
    then (success, record e { heap = h₃; scheduler = scheduler })
    else (failure, record e { heap = h₃ })

unfoldable pub child_status : Embla → Ptr → WaitStatus → Usage → (iterator : Bool) → ℤ × Embla
unfolding child_terminated
child_status e p (exited code) usage iterator =
    let (set, heap) = set_exit_code e.heap p code in
    if eqb_ℤ set success
    then child_terminated (record e { heap = heap }) p usage iterator
    else (failure, e)
child_status e p (signaled number) usage iterator =
    let (set, heap) = set_term_signal e.heap p number in
    if eqb_ℤ set success
    then child_terminated (record e { heap = heap }) p usage iterator
    else (failure, e)
child_status e p (stopped_by number) usage iterator =
    let (moved, heap) = transition e.heap p stopped in (moved, record e { heap = heap })
child_status e p continued usage iterator =
    let (moved, heap) = transition e.heap p running in (moved, record e { heap = heap })
child_status e p other_status usage iterator = (success, e)

unfoldable pub handle_child_event : Embla → ℤ → WaitStatus → Usage → (iterator : Bool) → ℤ × Embla
unfolding child_status
handle_child_event e host_id status usage iterator =
    let p = get_by_host_id e.process_manager e.heap host_id in
    if p == null then (success, e) else child_status e p status usage iterator

unfoldable pub stop : Embla → ℤ × Embla
stop e = elim e.state [ active ↦ (success, record e { state = stopping }) | _ ↦ (success, e) ]
