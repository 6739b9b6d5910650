-- ===== src/Runtime/Handled.antt =====
-- Reaping and child events of src/embla.c, with regard to the invariant of the runtime.
use embla.Prelude.{ℕ, Bool, ◌==◌, ℤ, if-both, not, ◌||◌, eqb_ℤ, success}
use embla.Process.{
  Ptr, null, running, stopped, terminated, transition, get_id, get_group_id, get_state,
  set_exit_code, set_term_signal, root_pid,
}
use embla.Executor.{
  Usage, apply_rusage, WaitStatus, exited, signaled, stopped_by, continued, other_status,
}
use embla.ProcessManager
use embla.ProcessManager.{
  destroy_process, reparent_children, get_by_host_id, wait_child, is_terminated, live_count,
}
use embla.ProcessGroup
use embla.ProcessGroup.{member_count}
use embla.ProcessGroupManager
use embla.ProcessGroupManager.{destroy_group}
use embla.Scheduler
use embla.Scheduler.Remove.{remove-IsRing}
use embla.Runtime.{
  Embla, reap_found_process, reap_child, reap_process, child_terminated, child_status,
  handle_child_event,
}
use embla.Runtime.Invariant.{
  IsRuntime, transition-Alike, set_exit_code-Alike, set_term_signal-Alike, apply_rusage-Alike,
  reparent_children-Alike, heap-IsRuntime,
}
use embla.Runtime.Kept.{
  groups-IsRuntime, destroy_process-IsTable, destroy_group-IsGroups, remove-KeepsIds,
}

-- The runtime that comes with a code.
abbrev pub Handled : ℤ × Embla → Type 0
Handled r = IsRuntime r.1

reap_found_process-IsRuntime :
    (e : Embla) (p : Ptr) → IsRuntime e → IsRuntime (reap_found_process e p).1
unfolding reap_found_process
reap_found_process-IsRuntime e p v =
    let id = get_id e.heap p in
    let group_id = get_group_id e.heap p in
    let group = ProcessGroupManager.get e.process_group_manager e.groups group_id in
    let left = ProcessGroup.remove e.groups group p in
    let gone = destroy_process e.process_manager e.heap id in
    let closed = destroy_group e.process_group_manager left.1 group_id in
    let v₁ = groups-IsRuntime e left.1 (remove-KeepsIds e.groups group p) v in
    let table = destroy_process-IsTable e.process_manager e.heap id v.table in
    let v₂ : IsRuntime (record e { groups = left.1; heap = gone.1; process_manager = gone.2 }) =
      record { table = table; directory = v₁.directory; ring = v.ring } in
    let v₃ : IsRuntime (record e {
      groups = closed.1;
      heap = gone.1;
      process_manager = gone.2;
      process_group_manager = closed.2;
    }) =
      record {
        table = table;
        directory = destroy_group-IsGroups e.process_group_manager left.1 group_id v₁.directory;
        ring = v.ring;
      } in
    if-both Handled (group == null) v (
      if-both Handled (not (eqb_ℤ left.0 success)) v (
        if-both Handled (not (eqb_ℤ gone.0 success)) v₁ (
          if-both Handled (not (member_count left.1 group == 0)) v₂
            (if-both Handled (eqb_ℤ closed.0 success) v₃ v₂))))

pub reap_child-IsRuntime :
    (e : Embla) (parent : ℕ) → IsRuntime e → IsRuntime (reap_child e parent).2
unfolding reap_child
reap_child-IsRuntime e parent v =
    let p = wait_child e.process_manager e.heap parent in
    let well = λ (r : ℤ × ℕ × Embla). IsRuntime r.2 in
    if-both well (p == null) v (
      if-both well (eqb_ℤ (reap_found_process e p).0 success) (reap_found_process-IsRuntime e p v)
        (reap_found_process-IsRuntime e p v))

pub reap_process-IsRuntime : (e : Embla) (id : ℕ) → IsRuntime e → IsRuntime (reap_process e id).1
unfolding reap_process
reap_process-IsRuntime e id v =
    let p = ProcessManager.get e.process_manager e.heap id in
    if-both Handled (p == null || not (is_terminated (get_state e.heap p))) v
      (reap_found_process-IsRuntime e p v)

child_terminated-IsRuntime :
    (e : Embla) (p : Ptr) (usage : Usage) (iterator : Bool)
    → IsRuntime e
    → IsRuntime (child_terminated e p usage iterator).1
unfolding child_terminated
child_terminated-IsRuntime e p usage iterator v =
    let moved = transition e.heap p terminated in
    let used = apply_rusage moved.1 p usage in
    let adopted = reparent_children e.process_manager used.1 iterator (get_id used.1 p) root_pid in
    let taken = Scheduler.remove e.scheduler p in
    let v₁ = heap-IsRuntime e moved.1 (transition-Alike e.heap p terminated) v in
    let v₂ = heap-IsRuntime _ used.1 (apply_rusage-Alike moved.1 p usage) v₁ in
    let v₃ =
      heap-IsRuntime _ adopted.1
        (reparent_children-Alike e.process_manager used.1 iterator (get_id used.1 p) root_pid) v₂ in
    let v₄ : IsRuntime (record e { heap = adopted.1; scheduler = taken.1 }) = record {
      table = v₃.table;
      directory = v.directory;
      ring = remove-IsRing e.scheduler p v.ring;
    } in
    if-both Handled (not (eqb_ℤ moved.0 success)) v₁ (
      if-both Handled (not (eqb_ℤ used.0 success)) v₂ (
        if-both Handled (not (eqb_ℤ adopted.0 success)) v₃
          (if-both Handled (eqb_ℤ taken.0 success) v₄ v₃)))

child_status-IsRuntime :
    (e : Embla) (p : Ptr) (status : WaitStatus) (usage : Usage) (iterator : Bool)
    → IsRuntime e
    → IsRuntime (child_status e p status usage iterator).1
unfolding child_status
child_status-IsRuntime e p (exited code) usage iterator v =
    if-both Handled (eqb_ℤ (set_exit_code e.heap p code).0 success)
      (child_terminated-IsRuntime _ p usage iterator
        (heap-IsRuntime e _ (set_exit_code-Alike e.heap p code) v))
      v
child_status-IsRuntime e p (signaled number) usage iterator v =
    if-both Handled (eqb_ℤ (set_term_signal e.heap p number).0 success)
      (child_terminated-IsRuntime _ p usage iterator
        (heap-IsRuntime e _ (set_term_signal-Alike e.heap p number) v))
      v
child_status-IsRuntime e p (stopped_by number) usage iterator v =
    heap-IsRuntime e _ (transition-Alike e.heap p stopped) v
child_status-IsRuntime e p continued usage iterator v =
    heap-IsRuntime e _ (transition-Alike e.heap p running) v
child_status-IsRuntime e p other_status usage iterator v = v

pub handle_child_event-IsRuntime :
    (e : Embla) (host_id : ℤ) (status : WaitStatus) (usage : Usage) (iterator : Bool)
    → IsRuntime e
    → IsRuntime (handle_child_event e host_id status usage iterator).1
unfolding handle_child_event
handle_child_event-IsRuntime e host_id status usage iterator v =
    let p = get_by_host_id e.process_manager e.heap host_id in
    if-both Handled (p == null) v (child_status-IsRuntime e p status usage iterator v)
