-- ===== src/Runtime/Kept.antt =====
-- The operations on one group and the steps of a spawn, with regard to the invariant of the runtime.
use embla.Prelude.{
  ◌⊎◌, ℕ, ◌≡◌, refl, sym, ap, ◌∙◌, Bool, Option, none, some, ◌==◌, Bool-cases, inl, inr, update, ℤ,
  arith, Option-cases, ==_iff, if-both, not, ◌||◌, ◌&&◌, eqb_ℤ, success, leb,
}
use mathlib.Core.Option.{some-injective}
use embla.Process.{
  Ptr, null, CString, Heap, ready, transition, get_id, get_host_id, get_group_id, invalid_pid,
  invalid_pgid,
}
use embla.Executor
use embla.Executor.{
  SpawnHost, Fork, forked, fork_failed, Usage, apply_rusage, WaitStatus, exited, signaled,
  stopped_by, continued, other_status,
}
use embla.ProcessManager.{ProcessManager, create_process, destroy_process}
use embla.ProcessManager.Invariant.{IsTable}
use embla.ProcessManager.Create.{create_process-IsTable}
use embla.ProcessManager.Destroy.{destroy_process-Removes}
use embla.ProcessManager.Frame.{Alike}
use embla.ProcessGroup
use embla.ProcessGroup.{
  ProcessGroup, Groups, find_index, is_found, member_count, invalid_host_pgid, has_max_members,
  get_max_members,
}
use embla.ProcessGroupManager
use embla.ProcessGroupManager.{ProcessGroupManager, destroy_group}
use embla.ProcessGroupManager.Directory.{IsGroups}
use embla.ProcessGroupManager.Destroy.{destroy_group-Closes}
use embla.ProcessGroupManager.Frame.{IsGroups-frame, KeepsIds}
use embla.Scheduler
use embla.Scheduler.Queue.{add-IsRing}
use embla.Runtime.{
  Embla, Memory, spawn_rollback, spawn_enqueue, spawn_lead, spawn_member, spawn_internal,
  spawn_child,
}
use embla.Runtime.Invariant.{
  IsRuntime, transition-Alike, set_host_id-Alike, same-Alike, heap-IsRuntime,
}

pub write-KeepsIds :
    (gs : Groups) (g : Ptr) (x y : ProcessGroup)
    → gs g ≡ some x
    → y.id ≡ x.id
    → KeepsIds gs (update gs g (some y))
write-KeepsIds gs g x y there same q grp is = elim (Bool-cases (g == q)) [
  | inl here ↦ (
    y,
    rw here refl,
    same
        ∙ ap (λ (z : ProcessGroup). z.id)
            (some-injective x grp (sym there ∙ ap gs ((==_iff g q).0 here) ∙ is)),
  )
  | inr off ↦ (grp, rw off is, refl)
]

-- Operations on one group keep all ids.
pub add-KeepsIds : (gs : Groups) (h : Heap) (g p : Ptr) → KeepsIds gs (ProcessGroup.add gs h g p).1
unfolding ProcessGroup.add
add-KeepsIds gs h g p = elim (Option-cases (gs g)) [
  | inl absent ↦ rw (absent, ProcessGroup.add) (λ q grp is. (grp, is, refl))
  | inr (grp, there) ↦
      let keeps = λ (r : ℤ × Groups). KeepsIds gs r.1 in
      let same : KeepsIds gs gs = (λ q grp is. (grp, is, refl)) in
      rw (there, ProcessGroup.add)
        (if-both keeps (p == null) same (
          if-both keeps (leb grp.capacity grp.count) same (
            if-both keeps (not (get_group_id h p == grp.id)) same (
              if-both keeps (is_found (find_index grp p)) same
                (write-KeepsIds gs g grp _ there refl)))))
]

pub remove-KeepsIds : (gs : Groups) (g p : Ptr) → KeepsIds gs (ProcessGroup.remove gs g p).1
unfolding ProcessGroup.remove ProcessGroup.remove_at
remove-KeepsIds gs g p = elim (Option-cases (gs g)) [
  | inl absent ↦ rw (absent, ProcessGroup.remove) (λ q grp is. (grp, is, refl))
  | inr (grp, there) ↦
      let keeps = λ (r : ℤ × Groups). KeepsIds gs r.1 in
      let same : KeepsIds gs gs = (λ q grp is. (grp, is, refl)) in
      rw (there, ProcessGroup.remove)
        (if-both keeps (p == null) same (elim (Option-cases (find_index grp p)) [
          | inl missing ↦ rw (missing, ProcessGroup.remove_at) same
          | inr (index, found) ↦
              rw (found, ProcessGroup.remove_at) (write-KeepsIds gs g grp _ there refl)
        ]))
]

pub set_host_id-keeps_groups :
    (gs : Groups) (g : Ptr) (host : ℤ) → KeepsIds gs (ProcessGroup.set_host_id gs g host).1
unfolding ProcessGroup.set_host_id
set_host_id-keeps_groups gs g host = elim (Option-cases (gs g)) [
  | inl absent ↦ rw (absent, ProcessGroup.set_host_id) (λ q grp is. (grp, is, refl))
  | inr (grp, there) ↦ rw (there, ProcessGroup.set_host_id) (write-KeepsIds gs g grp _ there refl)
]

pub groups-IsRuntime :
    (e : Embla) (gs : Groups)
    → KeepsIds e.groups gs
    → IsRuntime e
    → IsRuntime (record e { groups = gs })
groups-IsRuntime e gs keeps v = record {
  table = v.table;
  directory = IsGroups-frame e.process_group_manager e.groups gs keeps v.directory;
  ring = v.ring;
}

pub destroy_process-IsTable :
    (m : ProcessManager) (h : Heap) (id : ℕ)
    → IsTable m h
    → IsTable (destroy_process m h id).2 (destroy_process m h id).1
destroy_process-IsTable m h id v = elim (Bool-cases (id == invalid_pid)) [
  | inl out ↦ (unfold destroy_process in rw out v)
  | inr valid ↦ elim (destroy_process-Removes m h id v (ground arith)) [
    | inl (_, (_, _, _, _, well)) ↦ well
    | inr (_, (_, heap, table)) ↦ rw (heap, table) v
  ]
]

pub destroy_group-IsGroups :
    (m : ProcessGroupManager) (gs : Groups) (id : ℕ)
    → IsGroups m gs
    → IsGroups (destroy_group m gs id).2 (destroy_group m gs id).1
destroy_group-IsGroups m gs id v = elim (Bool-cases (id == invalid_pgid)) [
  | inl out ↦ (unfold destroy_group in rw out v)
  | inr valid ↦ elim (destroy_group-Closes m gs id v (ground arith)) [
    | inl (_, (_, _, _, _, _, well)) ↦ well
    | inr (_, (_, groups, table)) ↦ rw (groups, table) v
  ]
]

spawn_rollback-IsRuntime :
    (e : Embla) (g p : Ptr) (id : ℕ) → IsRuntime e → IsRuntime (spawn_rollback e g p id)
unfolding spawn_rollback
spawn_rollback-IsRuntime e g p id v = record {
  table = destroy_process-IsTable e.process_manager e.heap id v.table;
  directory =
      IsGroups-frame e.process_group_manager e.groups _ (remove-KeepsIds e.groups g p) v.directory;
  ring = v.ring;
}

-- The runtime that comes with a result.
abbrev Spawned : Ptr × Embla → Type 0
Spawned r = IsRuntime r.1

spawn_enqueue-IsRuntime :
    (e : Embla) (g p : Ptr) (id : ℕ) → IsRuntime e → IsRuntime (spawn_enqueue e g p id).1
unfolding spawn_enqueue
spawn_enqueue-IsRuntime e g p id v =
    let moved =
      heap-IsRuntime e (transition e.heap p ready).1 (transition-Alike e.heap p ready) v in
    let added : IsRuntime (record e {
      heap = (transition e.heap p ready).1;
      scheduler = (Scheduler.add e.scheduler p).1;
    }) =
      record {
        table = moved.table;
        directory = v.directory;
        ring = add-IsRing e.scheduler p v.ring;
      } in
    if-both Spawned (not (eqb_ℤ (transition e.heap p ready).0 success))
      (spawn_rollback-IsRuntime _ g p id moved)
      (if-both Spawned (not (eqb_ℤ (Scheduler.add e.scheduler p).0 success))
        (spawn_rollback-IsRuntime _ g p id added) added)

spawn_lead-IsRuntime :
    (e : Embla) (g p : Ptr) (id : ℕ) (target : ℤ)
    → IsRuntime e
    → IsRuntime (spawn_lead e g p id target).1
unfolding spawn_lead
spawn_lead-IsRuntime e g p id target v =
    let host = get_host_id e.heap p in
    let led = groups-IsRuntime e _ (set_host_id-keeps_groups e.groups g host) v in
    if-both Spawned (eqb_ℤ target invalid_host_pgid)
      (if-both Spawned (eqb_ℤ (ProcessGroup.set_host_id e.groups g host).0 success)
        (spawn_enqueue-IsRuntime _ g p id led) (spawn_rollback-IsRuntime _ g p id led))
      (spawn_enqueue-IsRuntime e g p id v)

fork-cases : (f : Fork) → (f ≡ fork_failed) ⊎ ((pid : ℤ) × (f ≡ forked pid))
fork-cases fork_failed = inl refl
fork-cases (forked pid) = inr (pid, refl)

pub spawn-Alike :
    (h : Heap) (p : Ptr) (config : Bool) (host : SpawnHost)
    → Alike h (Executor.spawn h p config host).1
unfolding Executor.spawn
spawn-Alike h p config host =
    let keeps = λ (r : ℤ × Heap). Alike h r.1 in
    if-both keeps (p == null || not config) (same-Alike h) (elim (fork-cases host.fork) [
      | inl failed ↦ rw failed (same-Alike h)
      | inr (pid, forks) ↦ rw forks (
          if-both keeps (not host.setpgid && not host.eacces) (same-Alike h)
            (set_host_id-Alike h p pid))
    ])

spawn_member-IsRuntime :
    (e : Embla) (g p : Ptr) (config : Bool) (host : SpawnHost)
    → IsRuntime e
    → IsRuntime (spawn_member e g p config host).1
unfolding spawn_member
spawn_member-IsRuntime e g p config host v =
    let id = get_id e.heap p in
    let joined = groups-IsRuntime e _ (add-KeepsIds e.groups e.heap g p) v in
    let spawned = heap-IsRuntime _ _ (spawn-Alike e.heap p config host) joined in
    if-both Spawned (not (eqb_ℤ (ProcessGroup.add e.groups e.heap g p).0 success))
      (spawn_rollback-IsRuntime _ g p id joined)
      (if-both Spawned (not (eqb_ℤ (Executor.spawn e.heap p config host).0 success))
        (spawn_rollback-IsRuntime _ g p id spawned) (spawn_lead-IsRuntime _ g p id _ spawned))

pub spawn_internal-IsRuntime :
    (e : Embla) (mem : Memory) (parent gid : ℕ) (name : Option CString) (config : Bool)
    (host : SpawnHost)
    → IsRuntime e
    → e.heap mem.block ≡ none
    → IsRuntime (spawn_internal e mem parent gid name config host).1
unfolding spawn_internal
spawn_internal-IsRuntime e mem parent gid none config host v fresh = v
spawn_internal-IsRuntime e mem parent gid (some name) config host v fresh =
    let group = ProcessGroupManager.get e.process_group_manager e.groups gid in
    let made =
      create_process e.process_manager e.heap mem.block mem.copied parent gid (some name) in
    let e' : Embla = record e { heap = made.1; process_manager = made.2 } in
    let v' : IsRuntime e' = record {
      table =
          create_process-IsTable e.process_manager e.heap mem.block mem.copied parent gid
            (some name) v.table fresh;
      directory = v.directory;
      ring = v.ring;
    } in
    if-both Spawned (not config || group == null) v (
      if-both Spawned
        (has_max_members e.groups group
          && leb (get_max_members e.groups group) (member_count e.groups group))
        v
        (if-both Spawned (made.0 == null) v'
          (spawn_member-IsRuntime e' group made.0 config host v')))

pub spawn_child-IsRuntime :
    (e : Embla) (mem : Memory) (parent : Ptr) (name : Option CString) (config : Bool)
    (host : SpawnHost)
    → IsRuntime e
    → e.heap mem.block ≡ none
    → IsRuntime (spawn_child e mem parent name config host).1
unfolding spawn_child
spawn_child-IsRuntime e mem parent none config host v fresh = v
spawn_child-IsRuntime e mem parent (some name) config host v fresh =
    if-both Spawned (not config || parent == null || get_group_id e.heap parent == invalid_pgid) v (
      spawn_internal-IsRuntime e mem (get_id e.heap parent) (get_group_id e.heap parent) (some name)
        config host v fresh)
