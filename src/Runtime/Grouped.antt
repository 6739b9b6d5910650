-- ===== src/Runtime/Grouped.antt =====
-- The members of the groups through the steps of a spawn and its rollback.
pub mod Spawns
pub mod Steps
use embla.Prelude.{
  ℕ, ◌≡◌, ◌≢◌, refl, sym, ap, ◌∙◌, inl, inr, Bool, true, false, not, ◌||◌, ◌&&◌, Option, none, some,
  ℤ, success, failure, ◌==◌, ==_iff, Bool-cases, leb, eqb_ℤ, if◌then◌else◌, if-both, subst,
}
use mathlib.Core.Option.{some-injective}
use embla.Process.{
  Ptr, null, CString, Heap, ready, transition, get_id, get_group_id, get_host_id, root_pid,
  invalid_pgid,
}
use embla.Executor
use embla.Executor.{SpawnHost}
use embla.ProcessManager
use embla.ProcessManager.{ProcessManager, create_process, destroy_process}
use embla.ProcessManager.Create
use embla.ProcessManager.Create.{create_process-cases}
use embla.ProcessManager.Frame.{Alike, Alike-get_id, Alike-get_group_id, get-frame}
use embla.ProcessGroup
use embla.ProcessGroup.{Groups, invalid_host_pgid, has_max_members, get_max_members, member_count}
use embla.ProcessGroupManager
use embla.ProcessGroupManager.{ProcessGroupManager}
use embla.Scheduler
use embla.Scheduler.{Scheduler}
use embla.Runtime.{
  Embla, Memory, spawn_rollback, spawn_enqueue, spawn_lead, spawn_member, spawn_internal,
  spawn_child,
}
use embla.Runtime.Invariant.{IsRuntime, transition-Alike, heap-IsRuntime}
use embla.Runtime.Kept.{
  groups-IsRuntime, remove-KeepsIds, add-KeepsIds, set_host_id-keeps_groups, spawn-Alike,
}
use embla.Runtime.Membership.{Alive, Holds, IsGrouped, Alike-IsGrouped}
use embla.Runtime.Membership.Processes.{created-IsGrouped, Unchanged-IsGrouped, destroyed-IsGrouped}
use embla.Runtime.Membership.Lists.{
  StillGrouped, added-StillGrouped, hosted-StillGrouped, left-StillGrouped,
}

-- The members of every group of the runtime are live processes of that group.
abbrev pub Grouped : Embla → Type 0
Grouped e = IsGrouped e.process_manager e.heap e.process_group_manager e.groups

-- A process of a group, in a runtime whose table of groups and whose groups are as they should be.
pub record Spawning (e : Embla) (g p : Ptr) (id gid : ℕ) : Type 0 where
  pub well : IsRuntime e
  pub grouped : Grouped e
  pub alive : Alive e.process_manager e.heap p gid
  pub at : ProcessGroupManager.get e.process_group_manager e.groups gid ≡ g
  pub live : g ≢ null
  pub key : get_id e.heap p ≡ id

heap-Spawning :
    (e : Embla) (g p : Ptr) (id gid : ℕ) (h : Heap)
    → Alike e.heap h
    → Spawning e g p id gid
    → Spawning (record e { heap = h }) g p id gid
heap-Spawning e g p id gid h alike s = record {
  well = heap-IsRuntime e h alike s.well;
  grouped =
      Alike-IsGrouped e.process_manager e.heap h e.process_group_manager e.groups alike s.grouped;
  alive = record {
    there = s.alive.there;
    of_group = Alike-get_group_id e.heap h alike p ∙ s.alive.of_group;
    listed =
        ap (ProcessManager.get e.process_manager h) (Alike-get_id e.heap h alike p)
        ∙ get-frame e.process_manager e.heap h (get_id e.heap p) (Alike-get_id e.heap h alike)
        ∙ s.alive.listed;
  };
  at = s.at;
  live = s.live;
  key = Alike-get_id e.heap h alike p ∙ s.key;
}

add-Spawning :
    (e : Embla) (g p : Ptr) (id gid : ℕ)
    → Spawning e g p id gid
    → Spawning (record e { groups = (ProcessGroup.add e.groups e.heap g p).1 }) g p id gid
add-Spawning e g p id gid s =
    let (grouped, at) =
      added-StillGrouped e.process_manager e.heap e.process_group_manager e.groups s.well.directory
        s.grouped gid g p s.at s.live s.alive in
    record {
      well = groups-IsRuntime e _ (add-KeepsIds e.groups e.heap g p) s.well;
      grouped = grouped;
      alive = s.alive;
      at = at;
      live = s.live;
      key = s.key;
    }

host-Spawning :
    (e : Embla) (g p : Ptr) (id gid : ℕ) (host : ℤ)
    → Spawning e g p id gid
    → Spawning (record e { groups = (ProcessGroup.set_host_id e.groups g host).1 }) g p id gid
host-Spawning e g p id gid host s =
    let (grouped, at) =
      hosted-StillGrouped e.process_manager e.heap e.process_group_manager e.groups s.well.directory
        s.grouped gid g p s.at s.live s.alive host in
    record {
      well = groups-IsRuntime e _ (set_host_id-keeps_groups e.groups g host) s.well;
      grouped = grouped;
      alive = s.alive;
      at = at;
      live = s.live;
      key = s.key;
    }

-- The process leaves its group and is destroyed.
pub left-Grouped :
    (e : Embla) (g p : Ptr) (id gid : ℕ)
    → Spawning e g p id gid
    → (Grouped (record e { groups = (ProcessGroup.remove e.groups g p).1 }))
      × ((destroy_process e.process_manager e.heap id).0 ≡ success)
      × (Grouped (spawn_rollback e g p id))
      × (ProcessGroupManager.get e.process_group_manager (ProcessGroup.remove e.groups g p).1 gid
          ≡ g)
unfolding spawn_rollback
left-Grouped e g p id gid s =
    let ((grouped, at), unlisted) =
      left-StillGrouped e.process_manager e.heap e.process_group_manager e.groups s.well.directory
        s.grouped gid g p s.at s.live s.alive in
    let (code, gone) =
      destroyed-IsGrouped e.process_manager e.heap e.process_group_manager
        (ProcessGroup.remove e.groups g p).1 s.well.table grouped p gid s.alive unlisted in
    (
      grouped,
      subst (λ i. (destroy_process e.process_manager e.heap i).0 ≡ success) s.key code,
      subst
          (λ i.
            IsGrouped (destroy_process e.process_manager e.heap i).2
              (destroy_process e.process_manager e.heap i).1 e.process_group_manager
              (ProcessGroup.remove e.groups g p).1)
          s.key gone,
      at,
    )

rolled_back :
    (e : Embla) (g p : Ptr) (id gid : ℕ) → Spawning e g p id gid → Grouped (spawn_rollback e g p id)
rolled_back e g p id gid s = let (_, _, grouped, _) = left-Grouped e g p id gid s in grouped

abbrev pub LeavesGrouped : Ptr × Embla → Type 0
LeavesGrouped r = Grouped r.1

spawn_enqueue-Grouped :
    (e : Embla) (g p : Ptr) (id gid : ℕ)
    → Spawning e g p id gid
    → Grouped (spawn_enqueue e g p id).1
unfolding spawn_enqueue spawn_rollback
spawn_enqueue-Grouped e g p id gid s =
    let moved =
      heap-Spawning e g p id gid (transition e.heap p ready).1 (transition-Alike e.heap p ready)
        s in
    if-both LeavesGrouped (not (eqb_ℤ (transition e.heap p ready).0 success))
      (rolled_back _ g p id gid moved)
      (if-both LeavesGrouped (not (eqb_ℤ (Scheduler.add e.scheduler p).0 success))
        (rolled_back _ g p id gid moved) moved.grouped)

spawn_lead-Grouped :
    (e : Embla) (g p : Ptr) (id gid : ℕ) (target : ℤ)
    → Spawning e g p id gid
    → Grouped (spawn_lead e g p id target).1
unfolding spawn_lead
spawn_lead-Grouped e g p id gid target s =
    let host = get_host_id e.heap p in
    let led = host-Spawning e g p id gid host s in
    if-both LeavesGrouped (eqb_ℤ target invalid_host_pgid)
      (if-both LeavesGrouped (eqb_ℤ (ProcessGroup.set_host_id e.groups g host).0 success)
        (spawn_enqueue-Grouped _ g p id gid led) (rolled_back _ g p id gid led))
      (spawn_enqueue-Grouped e g p id gid s)

pub spawn_member-Grouped :
    (e : Embla) (g p : Ptr) (gid : ℕ) (config : Bool) (host : SpawnHost)
    → Spawning e g p (get_id e.heap p) gid
    → Grouped (spawn_member e g p config host).1
unfolding spawn_member
spawn_member-Grouped e g p gid config host s =
    let id = get_id e.heap p in
    let joined = add-Spawning e g p id gid s in
    let spawned =
      heap-Spawning _ g p id gid (Executor.spawn e.heap p config host).1
        (spawn-Alike e.heap p config host) joined in
    if-both LeavesGrouped (not (eqb_ℤ (ProcessGroup.add e.groups e.heap g p).0 success))
      (rolled_back _ g p id gid joined)
      (if-both LeavesGrouped (not (eqb_ℤ (Executor.spawn e.heap p config host).0 success))
        (rolled_back _ g p id gid spawned) (spawn_lead-Grouped _ g p id gid _ spawned))
