-- ===== src/Runtime/Growth.antt =====
-- How a spawn changes the length of the ready queue.
use embla.Prelude.{ℕ, suc, ◌≡◌, ◌≢◌, ◌≤◌, ◌⊎◌, inl, Bool, Option, none, some, refl, arith, ℤ}
use embla.Process.{Ptr, null, CString, get_host_id, get_id, root_pid}
use embla.ProcessGroup
use embla.ProcessGroupManager
use embla.ProcessGroupManager.{create_group}
use embla.ProcessManager.{create_process}
use embla.Executor
use embla.Executor.{SpawnHost}
use embla.Scheduler.{Scheduler, add}
use embla.Runtime.{
  Embla, Memory, GroupMemory, spawn_rollback, spawn_enqueue, spawn_lead, spawn_member,
  spawn_internal, spawn,
}

-- NULL and a queue of the same length, or a process and a queue that is longer by one entry.
abbrev pub Grows : Scheduler → Ptr × Embla → Type 0
Grows s (p, e) =
    (e.scheduler.capacity ≡ s.capacity)
    × (((p ≡ null) × (e.scheduler.count ≡ s.count))
        ⊎ ((p ≢ null) × (e.scheduler.count ≡ suc s.count) × (suc s.count ≤ s.capacity)))

spawn_enqueue-Grows :
    (e : Embla) (group p : Ptr) (id : ℕ) → Grows e.scheduler (spawn_enqueue e group p id)
unfolding spawn_enqueue spawn_rollback add
spawn_enqueue-Grows e group p id = ground arith

spawn_lead-Grows :
    (e : Embla) (group p : Ptr) (id : ℕ) (target : ℤ)
    → Grows e.scheduler (spawn_lead e group p id target)
unfolding spawn_lead spawn_rollback
spawn_lead-Grows e group p id target =
    let (_, groups) = ProcessGroup.set_host_id e.groups group (get_host_id e.heap p) in
    let a = spawn_enqueue-Grows (record e { groups = groups }) group p id in
    let b = spawn_enqueue-Grows e group p id in ground arith

spawn_member-Grows :
    (e : Embla) (group p : Ptr) (config : Bool) (host : SpawnHost)
    → Grows e.scheduler (spawn_member e group p config host)
unfolding spawn_member spawn_rollback
spawn_member-Grows e group p config host =
    let (_, groups) = ProcessGroup.add e.groups e.heap group p in
    let (_, heap) = Executor.spawn e.heap p config host in
    let e' = record e { groups = groups; heap = heap } in
    let led =
      spawn_lead-Grows e' group p (get_id e.heap p) (ProcessGroup.get_host_id groups group) in
    ground arith

spawn_internal-Grows :
    (e : Embla) (mem : Memory) (parent group_id : ℕ) (name : Option CString) (config : Bool)
    → (host : SpawnHost) → Grows e.scheduler (spawn_internal e mem parent group_id name config host)
unfolding spawn_internal
spawn_internal-Grows e mem parent group_id none config host = (refl, inl (refl, refl))
spawn_internal-Grows e mem parent group_id (some name) config host =
    let group = ProcessGroupManager.get e.process_group_manager e.groups group_id in
    let (p, heap, manager) =
      create_process e.process_manager e.heap mem.block mem.copied parent group_id (some name) in
    let e' = record e { heap = heap; process_manager = manager } in
    let member = spawn_member-Grows e' group p config host in ground arith

-- `embla_spawn` gives NULL and a queue of the same length, or a process and a queue with one entry
-- more, for which there was room.
pub spawn-Grows :
    (e : Embla) (gmem : GroupMemory) (mem : Memory) (name : Option CString) (config : Bool)
    → (host : SpawnHost) → Grows e.scheduler (spawn e gmem mem name config host)
unfolding spawn
spawn-Grows e gmem mem none config host = (refl, inl (refl, refl))
spawn-Grows e gmem mem (some name) config host =
    let (group, groups, directory) =
      create_group e.process_group_manager e.groups gmem.block gmem.members gmem.garbage in
    let e' = record e { groups = groups; process_group_manager = directory } in
    let id = ProcessGroup.get_id groups group in
    let internal = spawn_internal-Grows e' mem root_pid id (some name) config host in ground arith
