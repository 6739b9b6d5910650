-- ===== src/Runtime/Steps.antt =====
-- The runtime as a machine: a step is one call of its interface, or of that of its processes, groups
-- and scheduler; `process_set_group_id`, with which a caller can move a process without its groups
-- knowing of it, is left out. `malloc` gives blocks that are not in use.
use embla.Prelude.{
  ℕ, ◌≡◌, refl, Bool, true, Option, none, some, List, ℤ, if-both, ◌==◌, leb, eqb_ℤ, success, inl,
  inr, Option-cases,
}
use embla.Process.{Ptr, null, CString, Heap, ready, transition}
use embla.Process.Calls.{Call}
use embla.Process.Calls
use embla.Executor.{SpawnHost, WaitStatus, Usage, Poll}
use embla.ProcessGroup.{Groups, set_max_members}
use embla.ProcessManager.Frame.{Alike}
use embla.ProcessGroupManager.Frame.{KeepsIds}
use embla.Scheduler.{Scheduler, yield}
use embla.Scheduler.Queue.{IsRing, add-IsRing}
use embla.Runtime
use embla.Runtime.{
  Embla, GroupMemory, Memory, spawn, spawn_child, reap_child, reap_process, handle_child_event,
  stop,
}
use embla.Runtime.Loop.{run}
use embla.Runtime.Invariant.{
  IsRuntime, heap-IsRuntime, keep_groups, run-Alike, transition-Alike, same-Alike,
}
use embla.Runtime.Kept.{groups-IsRuntime, spawn_child-IsRuntime, write-KeepsIds}
use embla.Runtime.Handled.{
  reap_child-IsRuntime, reap_process-IsRuntime, handle_child_event-IsRuntime,
}
use embla.Runtime.Looped.{dispatched, dispatched-IsRuntime, state-IsRuntime, stop_keeps, run_keeps}
use embla.Runtime.Spawn.{spawn-Spawns}

-- The runtime whose running process has given way.
abbrev pub yielded : Embla → Embla
yielded e =
    let (_, heap, scheduler) = yield e.heap e.scheduler in
    record e { heap = heap; scheduler = scheduler }

pub data Step (e : Embla) : Embla → Type 0 where
  spawns :
      (gmem : GroupMemory) (mem : Memory) (name : Option CString) (config : Bool) (host : SpawnHost)
      → e.groups gmem.block ≡ none
      → e.heap mem.block ≡ none
      → Step e (spawn e gmem mem name config host).1
  spawns_child :
      (mem : Memory) (parent : Ptr) (name : Option CString) (config : Bool) (host : SpawnHost)
      → e.heap mem.block ≡ none
      → Step e (spawn_child e mem parent name config host).1
  handles :
      (host_id : ℤ) (status : WaitStatus) (usage : Usage) (iterator : Bool)
      → Step e (handle_child_event e host_id status usage iterator).1
  reaps_child : (parent : ℕ) → Step e (reap_child e parent).2
  reaps : (id : ℕ) → Step e (reap_process e id).1
  runs : (polls : List (Poll × Bool)) (r : ℤ × Embla) → run polls e ≡ some r → Step e r.1
  stops : Step e (stop e).1
  dispatches : Step e (dispatched e)
  yields : Step e (yielded e)
  calls :
      (calls : List (Ptr × Call))
      → keep_groups calls ≡ true
      → Step e (record e { heap = Calls.run e.heap calls })
  limits :
      (g : Ptr) (members : ℕ)
      → Step e (record e { groups = (set_max_members e.groups g members).1 })

pub data Reached (heap : Heap) (groups : Groups) : Embla → Type 0 where
  start : Reached heap groups (Runtime.create heap groups)
  then_step : {e e' : Embla} → Reached heap groups e → Step e e' → Reached heap groups e'

limits-KeepsIds :
    (gs : Groups) (g : Ptr) (members : ℕ) → KeepsIds gs (set_max_members gs g members).1
unfolding set_max_members
limits-KeepsIds gs g members = elim (Option-cases (gs g)) [
  | inl absent ↦ rw (absent, set_max_members) (λ q grp is. (grp, is, refl))
  | inr (grp, there) ↦ rw (there, set_max_members) (write-KeepsIds gs g grp _ there refl)
]

pub yield-Alike : (h : Heap) (s : Scheduler) → Alike h (yield h s).1
unfolding yield
yield-Alike h s =
    let keeps = λ (r : ℤ × Heap × Scheduler). Alike h r.1 in
    let moved = transition-Alike h s.current ready in
    if-both keeps (s.current == null) (same-Alike h) (
      if-both keeps (leb s.capacity s.count) (same-Alike h)
        (if-both keeps (eqb_ℤ (transition h s.current ready).0 success) moved moved))

yield-IsRing : (h : Heap) (s : Scheduler) → IsRing s → IsRing (yield h s).2
unfolding yield
yield-IsRing h s v =
    let rings = λ (r : ℤ × Heap × Scheduler). IsRing r.2 in
    let idle : IsRing (record s { current = null }) = record {
      fixed = v.fixed;
      head_in = v.head_in;
      fits = v.fits;
      tail_at = v.tail_at;
    } in
    if-both rings (s.current == null) v (
      if-both rings (leb s.capacity s.count) v (
        if-both rings (eqb_ℤ (transition h s.current ready).0 success)
          (add-IsRing (record s { current = null }) s.current idle) v))

pub yielded-IsRuntime : (e : Embla) → IsRuntime e → IsRuntime (yielded e)
yielded-IsRuntime e v = record {
  table = (heap-IsRuntime e _ (yield-Alike e.heap e.scheduler) v).table;
  directory = v.directory;
  ring = yield-IsRing e.heap e.scheduler v.ring;
}

pub step-IsRuntime : {e e' : Embla} → Step e e' → IsRuntime e → IsRuntime e'
step-IsRuntime {e} (spawns gmem mem name config host group_fresh fresh) v =
    (spawn-Spawns e gmem mem name config host v fresh group_fresh).0
step-IsRuntime {e} (spawns_child mem parent name config host fresh) v =
    spawn_child-IsRuntime e mem parent name config host v fresh
step-IsRuntime {e} (handles host_id status usage iterator) v =
    handle_child_event-IsRuntime e host_id status usage iterator v
step-IsRuntime {e} (reaps_child parent) v = reap_child-IsRuntime e parent v
step-IsRuntime {e} (reaps id) v = reap_process-IsRuntime e id v
step-IsRuntime {e} (runs polls r is) v =
    run_keeps IsRuntime state-IsRuntime dispatched-IsRuntime reap_child-IsRuntime
      handle_child_event-IsRuntime polls e v r is
step-IsRuntime {e} stops v =
    stop_keeps IsRuntime state-IsRuntime dispatched-IsRuntime reap_child-IsRuntime
      handle_child_event-IsRuntime e v
step-IsRuntime {e} dispatches v = dispatched-IsRuntime e v
step-IsRuntime {e} yields v = yielded-IsRuntime e v
step-IsRuntime {e} (calls cs keeps) v = heap-IsRuntime e _ (run-Alike e.heap cs keeps) v
step-IsRuntime {e} (limits g members) v =
    groups-IsRuntime e _ (limits-KeepsIds e.groups g members) v
