-- ===== src/Runtime/Capacity.antt =====
-- The ready queue as a bound on spawning: what `embla_spawn` does when the queue is full, and what
-- reaping leaves of the queue.
use embla.Prelude.{
  ℕ, ◌≡◌, Bool, Option, none, some, List, [], ◌∷◌, refl, sym, ap, ◌∙◌, arith, ℤ, failure,
}
use embla.Process.{Ptr, null, CString, get_host_id, get_id, root_pid}
use embla.ProcessGroup
use embla.ProcessGroupManager
use embla.ProcessGroupManager.{create_group}
use embla.ProcessManager
use embla.ProcessManager.{create_process}
use embla.Executor
use embla.Executor.{SpawnHost}
use embla.Scheduler.{Scheduler, add}
use embla.Runtime.{
  Embla, Memory, GroupMemory, spawn_rollback, spawn_enqueue, spawn_lead, spawn_member,
  spawn_internal, spawn, reap_found_process, reap_process,
}

add_full : (s : Scheduler) (p : Ptr) → s.count ≡ s.capacity → add s p ≡ (failure, s)
unfolding add
add_full s p full = ground arith

-- The scheduler is untouched, and nothing is handed out.
abbrev pub Refused : Embla → Ptr × Embla → Type 0
Refused e r = (r.0 ≡ null) × (r.1.scheduler ≡ e.scheduler)

spawn_enqueue_full :
    (e : Embla) (group p : Ptr) (id : ℕ)
    → e.scheduler.count ≡ e.scheduler.capacity
    → Refused e (spawn_enqueue e group p id)
unfolding spawn_enqueue spawn_rollback add
spawn_enqueue_full e group p id full = ground arith

spawn_lead_full :
    (e : Embla) (group p : Ptr) (id : ℕ) (target : ℤ)
    → e.scheduler.count ≡ e.scheduler.capacity
    → Refused e (spawn_lead e group p id target)
unfolding spawn_lead spawn_rollback
spawn_lead_full e group p id target full =
    let (_, groups) = ProcessGroup.set_host_id e.groups group (get_host_id e.heap p) in
    let a = spawn_enqueue_full (record e { groups = groups }) group p id full in
    let b = spawn_enqueue_full e group p id full in ground arith

spawn_member_full :
    (e : Embla) (group p : Ptr) (config : Bool) (host : SpawnHost)
    → e.scheduler.count ≡ e.scheduler.capacity
    → Refused e (spawn_member e group p config host)
unfolding spawn_member spawn_rollback
spawn_member_full e group p config host full =
    let (_, groups) = ProcessGroup.add e.groups e.heap group p in
    let (_, heap) = Executor.spawn e.heap p config host in
    let e' = record e { groups = groups; heap = heap } in
    let led =
      spawn_lead_full e' group p (get_id e.heap p) (ProcessGroup.get_host_id groups group) full in
    ground arith

spawn_internal_full :
    (e : Embla) (mem : Memory) (parent group_id : ℕ) (name : Option CString) (config : Bool)
    → (host : SpawnHost) → e.scheduler.count ≡ e.scheduler.capacity
    → Refused e (spawn_internal e mem parent group_id name config host)
unfolding spawn_internal
spawn_internal_full e mem parent group_id none config host full = (refl, refl)
spawn_internal_full e mem parent group_id (some name) config host full =
    let group = ProcessGroupManager.get e.process_group_manager e.groups group_id in
    let (p, heap, manager) =
      create_process e.process_manager e.heap mem.block mem.copied parent group_id (some name) in
    let e' = record e { heap = heap; process_manager = manager } in
    let member = spawn_member_full e' group p config host full in ground arith

-- While the ready queue is full, `embla_spawn` returns NULL and leaves the scheduler alone,
-- whatever the allocations and the host give.
pub spawn_full :
    (e : Embla) (gmem : GroupMemory) (mem : Memory) (name : Option CString) (config : Bool)
    → (host : SpawnHost) → e.scheduler.count ≡ e.scheduler.capacity
    → Refused e (spawn e gmem mem name config host)
unfolding spawn
spawn_full e gmem mem none config host full = (refl, refl)
spawn_full e gmem mem (some name) config host full =
    let (group, groups, directory) =
      create_group e.process_group_manager e.groups gmem.block gmem.members gmem.garbage in
    let e' = record e { groups = groups; process_group_manager = directory } in
    let id = ProcessGroup.get_id groups group in
    let internal = spawn_internal_full e' mem root_pid id (some name) config host full in
    ground arith

reap_found_process-scheduler :
    (e : Embla) (p : Ptr) → (reap_found_process e p).1.scheduler ≡ e.scheduler
unfolding reap_found_process
reap_found_process-scheduler e p = ground arith

-- Reaping a process never touches the scheduler.
pub reap_process-scheduler : (e : Embla) (id : ℕ) → (reap_process e id).1.scheduler ≡ e.scheduler
unfolding reap_process
reap_process-scheduler e id =
    let p = ProcessManager.get e.process_manager e.heap id in
    let found = reap_found_process-scheduler e p in ground arith

-- `embla_reap_process` on each id of a list.
abbrev pub reap_all : List ℕ → Embla → Embla
reap_all [] e = e
reap_all (id ∷ ids) e = reap_all ids (reap_process e id).1

reap_all-scheduler : (ids : List ℕ) (e : Embla) → (reap_all ids e).scheduler ≡ e.scheduler
reap_all-scheduler [] e = refl
reap_all-scheduler (id ∷ ids) e =
    reap_all-scheduler ids (reap_process e id).1 ∙ reap_process-scheduler e id

-- Reaping frees no place in the ready queue: from a full queue, whatever processes are reaped with
-- `embla_reap_process`, `embla_spawn` still returns NULL and leaves the scheduler alone.
pub spawn-reap_all_full :
    (e : Embla) (ids : List ℕ) (gmem : GroupMemory) (mem : Memory) (name : Option CString)
    → (config : Bool) (host : SpawnHost) → e.scheduler.count ≡ e.scheduler.capacity
    → Refused (reap_all ids e) (spawn (reap_all ids e) gmem mem name config host)
spawn-reap_all_full e ids gmem mem name config host full =
    spawn_full (reap_all ids e) gmem mem name config host (
      let same = reap_all-scheduler ids e in
      ap (λ (t : Scheduler). t.count) same ∙ full ∙ sym (ap (λ (t : Scheduler). t.capacity) same))
