-- ===== src/Runtime/Grouped/Steps.antt =====
-- The members of the groups through reaping, child events and every other call of the runtime.
use embla.Prelude.{
  ℕ, ◌≡◌, ◌≢◌, refl, sym, ap, ◌∙◌, inl, inr, Bool, true, not, ◌||◌, ℤ, success, ◌==◌, ==_iff,
  Bool-cases, Option-cases, eqb_ℤ, if-both,
}
use embla.Process.{
  Ptr, null, Heap, get_id, get_group_id, get_state, running, stopped, terminated, transition,
  set_exit_code, set_term_signal, root_pid, invalid_pid, invalid_pgid,
}
use embla.Executor.{
  WaitStatus, exited, signaled, stopped_by, continued, other_status, Usage, apply_rusage,
}
use embla.ProcessManager
use embla.ProcessManager.{
  destroy_process, reparent_children, wait_child, get_by_host_id, is_terminated,
}
use embla.ProcessManager.Invariant.{get-at}
use embla.ProcessManager.Frame.{Alike}
use embla.ProcessManager.Reap.{wait_child-first}
use embla.ProcessGroup
use embla.ProcessGroup.{Groups, member_count, set_max_members}
use embla.ProcessGroupManager
use embla.ProcessGroupManager.{destroy_group}
use embla.Table.{find_from}
use embla.Scheduler
use embla.Scheduler.{Scheduler, yield}
use embla.Runtime
use embla.Runtime.{
  Embla, EmblaState, reap_found_process, reap_child, reap_process, child_terminated, child_status,
  handle_child_event, spawn_rollback,
}
use embla.Runtime.Invariant.{
  IsRuntime, create-IsRuntime, transition-Alike, set_exit_code-Alike, set_term_signal-Alike,
  apply_rusage-Alike, reparent_children-Alike, run-Alike,
}
use embla.Runtime.Kept.{groups-IsRuntime, remove-KeepsIds, destroy_process-IsTable}
use embla.Runtime.Handled.{reap_child-IsRuntime, handle_child_event-IsRuntime}
use embla.Runtime.Looped.{
  dispatched, dispatch-Alike, dispatched-IsRuntime, state-IsRuntime, stop_keeps, run_keeps,
}
use embla.Runtime.Steps.{
  Step, Reached, start, then_step, spawns, spawns_child, handles, reaps_child, reaps, runs, stops,
  dispatches, yields, calls, limits, step-IsRuntime, yield-Alike,
}
use embla.Runtime.Membership.{Alive, Alike-IsGrouped, got-process}
use embla.Runtime.Membership.Lists.{written-IsGrouped}
use embla.Runtime.Grouped.{Grouped, left-Grouped}
use embla.Runtime.Grouped.Spawns.{spawn-Grouped, spawn_child-Grouped, close_group-Grouped}

abbrev HandledGrouped : ℤ × Embla → Type 0
HandledGrouped r = Grouped r.1

reap_found_process-Grouped :
    (e : Embla) (p : Ptr)
    → IsRuntime e
    → Grouped e
    → Alive e.process_manager e.heap p (get_group_id e.heap p)
    → Grouped (reap_found_process e p).1
unfolding reap_found_process spawn_rollback
reap_found_process-Grouped e p v w alive = elim (Bool-cases (group == null)) [
  | inl missing ↦ rw missing w
  | inr found ↦
      let (left_grouped, code, gone_grouped, _) =
        left-Grouped e group p (get_id e.heap p) group_id (record {
          well = v;
          grouped = w;
          alive = alive;
          at = refl;
          live = λ z. cc (found, (==_iff group null).1 z);
          key = refl;
        }) in
      let e₂ : Embla = record e { groups = left.1; heap = gone.1; process_manager = gone.2 } in
      let v₁ = groups-IsRuntime e left.1 (remove-KeepsIds e.groups group p) v in
      let v₂ : IsRuntime e₂ = record {
        table = destroy_process-IsTable e.process_manager e.heap (get_id e.heap p) v.table;
        directory = v₁.directory;
        ring = v.ring;
      } in
      let closed_grouped = close_group-Grouped e₂ group_id v₂ gone_grouped in
      if-both HandledGrouped (group == null) w (
        if-both HandledGrouped (not (eqb_ℤ left.0 success)) w (
          if-both HandledGrouped (not (eqb_ℤ gone.0 success)) left_grouped (
            if-both HandledGrouped (not (member_count left.1 group == 0)) gone_grouped (
              if-both HandledGrouped
                (eqb_ℤ (destroy_group e.process_group_manager left.1 group_id).0 success)
                closed_grouped gone_grouped))))
]
  where
    group_id : ℕ
    group_id = get_group_id e.heap p

    group : Ptr
    group = ProcessGroupManager.get e.process_group_manager e.groups group_id

    left : ℤ × Groups
    left = ProcessGroup.remove e.groups group p

    gone : ℤ × Heap × ProcessManager.ProcessManager
    gone = destroy_process e.process_manager e.heap (get_id e.heap p)

reap_process-Grouped :
    (e : Embla) (id : ℕ) → IsRuntime e → Grouped e → Grouped (reap_process e id).1
unfolding reap_process
reap_process-Grouped e id v w = elim (Bool-cases (p == null)) [
  | inl missing ↦ rw missing w
  | inr found ↦
      let live : p ≢ null = λ z. cc (found, (==_iff p null).1 z) in
      let (own, _, _) = got-process e.process_manager e.heap id v.table live in
      if-both HandledGrouped (p == null || not (is_terminated (get_state e.heap p))) w (
        reap_found_process-Grouped e p v w (record {
          there = live;
          of_group = refl;
          listed = ap (ProcessManager.get e.process_manager e.heap) own;
        }))
]
  where
    p : Ptr
    p = ProcessManager.get e.process_manager e.heap id

reap_child-Grouped :
    (e : Embla) (parent : ℕ) → IsRuntime e → Grouped e → Grouped (reap_child e parent).2
unfolding reap_child
reap_child-Grouped e parent v w = elim (Bool-cases (parent == invalid_pid)) [
  | inl out ↦ let missing : p ≡ null = (unfold wait_child in rw out refl) in rw missing w
  | inr valid ↦
      elim (wait_child-first e.process_manager e.heap parent
        (λ z. cc (valid, (==_iff parent invalid_pid).1 z))) [
          | inr (missing, _) ↦ rw missing w
          | inl (k, lt, is, _, _) ↦
              let reaped = reap_found_process-Grouped e p v w (record {
                there = λ z. v.table.address k lt (sym is ∙ z);
                of_group = refl;
                listed =
                    get-at e.process_manager e.heap v.table k (get_id e.heap p) lt
                      (ap (get_id e.heap) (sym is))
                    ∙ sym is;
              }) in
              let well = λ (r : ℤ × ℕ × Embla). Grouped r.2 in
              if-both well (p == null) w
                (if-both well (eqb_ℤ (reap_found_process e p).0 success) reaped reaped)
        ]
]
  where
    p : Ptr
    p = wait_child e.process_manager e.heap parent

heap-Grouped : (e : Embla) (h : Heap) → Alike e.heap h → Grouped e → Grouped (record e { heap = h })
heap-Grouped e h alike w =
    Alike-IsGrouped e.process_manager e.heap h e.process_group_manager e.groups alike w

child_terminated-Grouped :
    (e : Embla) (p : Ptr) (usage : Usage) (iterator : Bool)
    → Grouped e
    → Grouped (child_terminated e p usage iterator).1
unfolding child_terminated
child_terminated-Grouped e p usage iterator w =
    let moved = transition e.heap p terminated in
    let used = apply_rusage moved.1 p usage in
    let adopted = reparent_children e.process_manager used.1 iterator (get_id used.1 p) root_pid in
    let w₁ = heap-Grouped e moved.1 (transition-Alike e.heap p terminated) w in
    let w₂ =
      heap-Grouped (record e { heap = moved.1 }) used.1 (apply_rusage-Alike moved.1 p usage) w₁ in
    let w₃ =
      heap-Grouped (record e { heap = used.1 }) adopted.1
        (reparent_children-Alike e.process_manager used.1 iterator (get_id used.1 p) root_pid) w₂ in
    if-both HandledGrouped (not (eqb_ℤ moved.0 success)) w₁ (
      if-both HandledGrouped (not (eqb_ℤ used.0 success)) w₂ (
        if-both HandledGrouped (not (eqb_ℤ adopted.0 success)) w₃
          (if-both HandledGrouped (eqb_ℤ (Scheduler.remove e.scheduler p).0 success) w₃ w₃)))

child_status-Grouped :
    (e : Embla) (p : Ptr) (status : WaitStatus) (usage : Usage) (iterator : Bool)
    → Grouped e
    → Grouped (child_status e p status usage iterator).1
unfolding child_status
child_status-Grouped e p (exited code) usage iterator w =
    if-both HandledGrouped (eqb_ℤ (set_exit_code e.heap p code).0 success)
      (child_terminated-Grouped _ p usage iterator
        (heap-Grouped e _ (set_exit_code-Alike e.heap p code) w))
      w
child_status-Grouped e p (signaled number) usage iterator w =
    if-both HandledGrouped (eqb_ℤ (set_term_signal e.heap p number).0 success)
      (child_terminated-Grouped _ p usage iterator
        (heap-Grouped e _ (set_term_signal-Alike e.heap p number) w))
      w
child_status-Grouped e p (stopped_by number) usage iterator w =
    heap-Grouped e _ (transition-Alike e.heap p stopped) w
child_status-Grouped e p continued usage iterator w =
    heap-Grouped e _ (transition-Alike e.heap p running) w
child_status-Grouped e p other_status usage iterator w = w

handle_child_event-Grouped :
    (e : Embla) (host_id : ℤ) (status : WaitStatus) (usage : Usage) (iterator : Bool)
    → Grouped e
    → Grouped (handle_child_event e host_id status usage iterator).1
unfolding handle_child_event
handle_child_event-Grouped e host_id status usage iterator w =
    let p = get_by_host_id e.process_manager e.heap host_id in
    if-both HandledGrouped (p == null) w (child_status-Grouped e p status usage iterator w)

limits-Grouped :
    (e : Embla) (g : Ptr) (n : ℕ)
    → IsRuntime e
    → Grouped e
    → Grouped (record e { groups = (set_max_members e.groups g n).1 })
unfolding set_max_members
limits-Grouped e g n v w = elim (Option-cases (e.groups g)) [
  | inl absent ↦ rw (absent, set_max_members) w
  | inr (grp, is) ↦
      rw (is, set_max_members)
        (written-IsGrouped e.process_manager e.heap e.process_group_manager e.groups v.directory w g
          grp (record grp { has_max_members = true; max_members = n }) is refl
          (λ gid live here.
            let well = w.group gid grp live (ap e.groups here ∙ is) in
            (
              record { fixed = well.fixed; fits = well.fits; distinct = well.distinct },
              λ q listed. w.member gid q live (grp, ap e.groups here ∙ is, listed),
            )))
]

create-Grouped : (heap : Heap) (groups : Groups) → Grouped (Runtime.create heap groups)
unfolding Runtime.create ProcessGroupManager.create ProcessGroupManager.get
    ProcessGroupManager.find_index find_from
create-Grouped heap groups = record {
  member = λ gid q live holds. absurd (live (empty gid));
  group = λ gid grp live at. absurd (live (empty gid));
}
  where
    empty : (gid : ℕ) → ProcessGroupManager.get ProcessGroupManager.create groups gid ≡ null
    empty gid = elim (Bool-cases (gid == invalid_pgid)) [
      | inl out ↦ rw out refl
      | inr valid ↦ rw valid refl
    ]

-- The runtime's tables and queue are well formed, and so are the lists of members.
abbrev pub IsSound : Embla → Type 0
IsSound e = IsRuntime e × Grouped e

stating : (e : Embla) (s : EmblaState) → IsSound e → IsSound (record e { state = s })
stating e s (v, w) = (state-IsRuntime e s v, w)

dispatching : (e : Embla) → IsSound e → IsSound (dispatched e)
dispatching e (v, w) =
    (dispatched-IsRuntime e v, heap-Grouped e _ (dispatch-Alike e.heap e.scheduler) w)

reaping : (e : Embla) (parent : ℕ) → IsSound e → IsSound (reap_child e parent).2
reaping e parent (v, w) = (reap_child-IsRuntime e parent v, reap_child-Grouped e parent v w)

handling :
    (e : Embla) (host_id : ℤ) (status : WaitStatus) (usage : Usage) (iterator : Bool)
    → IsSound e
    → IsSound (handle_child_event e host_id status usage iterator).1
handling e host_id status usage iterator (v, w) = (
  handle_child_event-IsRuntime e host_id status usage iterator v,
  handle_child_event-Grouped e host_id status usage iterator w,
)

step-Grouped : {e e' : Embla} → Step e e' → IsRuntime e → Grouped e → Grouped e'
step-Grouped {e} (spawns gmem mem name config host group_fresh fresh) v w =
    spawn-Grouped e gmem mem name config host v w fresh group_fresh
step-Grouped {e} (spawns_child mem parent name config host fresh) v w =
    spawn_child-Grouped e mem parent name config host v w fresh
step-Grouped {e} (handles host_id status usage iterator) v w =
    handle_child_event-Grouped e host_id status usage iterator w
step-Grouped {e} (reaps_child parent) v w = reap_child-Grouped e parent v w
step-Grouped {e} (reaps id) v w = reap_process-Grouped e id v w
step-Grouped {e} (runs polls r is) v w =
    (run_keeps IsSound stating dispatching reaping handling polls e (v, w) r is).1
step-Grouped {e} stops v w = (stop_keeps IsSound stating dispatching reaping handling e (v, w)).1
step-Grouped {e} dispatches v w = heap-Grouped e _ (dispatch-Alike e.heap e.scheduler) w
step-Grouped {e} yields v w = heap-Grouped e _ (yield-Alike e.heap e.scheduler) w
step-Grouped {e} (calls cs keeps) v w = heap-Grouped e _ (run-Alike e.heap cs keeps) w
step-Grouped {e} (limits g n) v w = limits-Grouped e g n v w

-- After any sequence of calls on a new runtime, whatever the host and the allocations answer, the
-- process table, the group table and the ready queue are well formed, and no group has a dangling
-- member: what a group of the table lists is a process of the process table, with the group's id, and
-- is listed once.
pub reached-IsSound :
    (heap : Heap) (groups : Groups) (e : Embla) → Reached heap groups e → IsSound e
reached-IsSound heap groups e start = (create-IsRuntime heap groups, create-Grouped heap groups)
reached-IsSound heap groups e (then_step before step) =
    let (v, w) = reached-IsSound heap groups _ before in
    (step-IsRuntime step v, step-Grouped step v w)
