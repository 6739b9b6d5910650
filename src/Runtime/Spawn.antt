-- ===== src/Runtime/Spawn.antt =====
-- `embla_spawn` as a whole: what its result and the runtime after it are.
use embla.Prelude.{
  ap₂, ℕ, ◌<◌, ◌≡◌, ◌≢◌, refl, sym, ap, ◌∙◌, ◌⊎◌, inl, inr, Bool, true, false, Option, none, some,
  ◌==◌, ==_ne, update_self, if◌then◌else◌, ℤ, subst,
}
use embla.Process.{Ptr, null, CString, root_pid, invalid_pgid}
use embla.Executor.{SpawnHost, forked}
use embla.ProcessManager
use embla.ProcessManager.{ProcessManager, create_process}
use embla.ProcessManager.Create.{create_process-cases, Unchanged-IsTable, Unchanged-get}
use embla.ProcessManager.Create
use embla.ProcessGroup.{Groups, get_id, fresh_group}
use embla.ProcessGroupManager
use embla.ProcessGroupManager.{ProcessGroupManager, create_group, destroy_group}
use embla.ProcessGroupManager.Directory.{
  IsGroups, create-IsGroups, IsRefused, Unchanged, create_group-cases, Unchanged-IsGroups,
}
use embla.ProcessGroupManager.Directory
use embla.Scheduler.Queue.{IsRing}
use embla.Runtime.{Embla, Memory, GroupMemory, spawn}
use embla.Runtime.Invariant.{IsRuntime}
use embla.Runtime.Closing
use embla.Runtime.Closing.{get-own, destroy_group-Closed, get-holding, holding-IsGroups}
use embla.Runtime.Rollback.{Cleared}
use embla.Runtime.Attempt.{IsStuck}
use embla.Runtime.Settled.{Launched, Outcome, spawn_internal-Outcome}

-- The same objects on both heaps, every id leading where it led, the same queue; an id may have been
-- used up.
pub record Same (e e' : Embla) : Type 0 where
  pub heap : e'.heap ≡ e.heap
  pub groups : e'.groups ≡ e.groups
  pub scheduler : e'.scheduler ≡ e.scheduler
  pub state : e'.state ≡ e.state
  pub ids :
      (id : ℕ)
      → ProcessManager.get e'.process_manager e'.heap id
        ≡ ProcessManager.get e.process_manager e.heap id
  pub group_ids :
      (id : ℕ)
      → id ≢ invalid_pgid
      → ProcessGroupManager.get e'.process_group_manager e'.groups id
        ≡ ProcessGroupManager.get e.process_group_manager e.groups id

-- NULL is explained by the arguments, a table without room or ids, the memory, the host or the scheduler.
abbrev pub IsExplained :
    Embla → GroupMemory → Memory → Option CString → (config : Bool) → SpawnHost → Type 0
IsExplained e gmem mem name config host =
    (config ≡ false)
    ⊎ (name ≡ none)
    ⊎ IsRefused e.process_group_manager gmem.block gmem.members
    ⊎ Create.IsRefused e.process_manager e.heap mem.block root_pid e.process_group_manager.next_id
        mem.copied name
    ⊎ IsStuck e host

abbrev pub Spawns :
    Embla
    → GroupMemory
    → Memory
    → Option CString
    → (config : Bool) → SpawnHost
    → Ptr × Embla
    → Type 0
Spawns e gmem mem name config host (q, e') =
    IsRuntime e'
    × (((q ≡ null) × Same e e' × IsExplained e gmem mem name config host)
        ⊎ ((q ≡ mem.block)
            × (q ≢ null)
            × ((bytes : CString) × (n : ℤ) × (name ≡ some bytes)
                × (host.fork ≡ forked n)
                × Launched e gmem.block mem.block gmem.garbage bytes n e')))

same : (e : Embla) → Same e e
same e = record {
  heap = refl;
  groups = refl;
  scheduler = refl;
  state = refl;
  ids = λ id. refl;
  group_ids = λ id valid. refl;
}

-- No group was made.
refused :
    (e : Embla) (m : ProcessGroupManager) (gs : Groups)
    → IsRuntime e
    → gs ≡ e.groups
    → Unchanged e.process_group_manager m
    → IsRuntime (record e { groups = gs; process_group_manager = m })
      × Same e (record e { groups = gs; process_group_manager = m })
refused e m gs v is u = (
  record {
    table = v.table;
    directory =
        subst (IsGroups m) (sym is)
          (Unchanged-IsGroups e.process_group_manager m e.groups v.directory u);
    ring = v.ring;
  },
  record {
    heap = refl;
    groups = is;
    scheduler = refl;
    state = refl;
    ids = λ id. refl;
    group_ids = λ id valid.
        ap (λ k. ProcessGroupManager.get m k id) is
        ∙ Directory.Unchanged-get e.process_group_manager m e.groups id u;
  },
)

-- The group that a failed spawn leaves is destroyed.
closed :
    (e e' : Embla) (g : Ptr) (garbage : ℕ)
    → (v : IsRuntime e) → e.process_group_manager.count < 16
    → e.process_group_manager.next_id < 4294967295
    → g ≢ null
    → e.groups g ≡ none
    → Cleared e g garbage e'
    → (let (_, gs, m) =
          destroy_group e'.process_group_manager e'.groups e.process_group_manager.next_id in
        IsRuntime (record e' { groups = gs; process_group_manager = m })
        × Same e (record e' { groups = gs; process_group_manager = m }))
closed e e' g garbage v room ids live fresh c =
    let (left, own, empty, groups) = c.groups in
    let (back, directory, got) =
      subst
        (Closing.Closed e.process_group_manager e.groups g garbage v.directory room ids live fresh)
        (ap₂ (λ m k. destroy_group m k e.process_group_manager.next_id) (sym c.directory)
          (sym groups))
        (destroy_group-Closed e.process_group_manager e.groups g garbage v.directory room ids live
          fresh left own empty) in
    (
      record {
        table = c.table;
        directory = directory;
        ring = subst IsRing (sym c.scheduler) v.ring;
      },
      record {
        heap = c.heap;
        groups = back;
        scheduler = c.scheduler;
        state = c.state;
        ids = c.got;
        group_ids = got;
      },
    )

-- The end of the spawn, after its inner part.
spawned :
    (e : Embla) (gmem : GroupMemory) (mem : Memory) (name : CString) (host : SpawnHost)
    → (v : IsRuntime e) → (room : e.process_group_manager.count < 16)
    → (ids : e.process_group_manager.next_id < 4294967295) → (live : gmem.block ≢ null)
    → (fresh : e.groups gmem.block ≡ none) → (r : Ptr × Embla)
    → Outcome e gmem.block gmem.garbage v room ids live fresh mem name host r
    → Spawns e gmem mem (some name) true host (
        let (process, e') = r in
        let (_, gs, m) =
          destroy_group e'.process_group_manager e'.groups e.process_group_manager.next_id in
        if process == null
        then (null, record e' { groups = gs; process_group_manager = m })
        else (process, e'))
spawned e gmem mem name host v room ids live fresh (q, e') (inl (gone, c, why)) = rw gone (
    let (well, unchanged) = closed e e' gmem.block gmem.garbage v room ids live fresh c in
    (well, inl (refl, unchanged, explain why)))
  where
    explain :
        Create.IsRefused e.process_manager e.heap mem.block root_pid e.process_group_manager.next_id
            mem.copied
            (some name)
          ⊎ IsStuck e host
        → IsExplained e gmem mem (some name) true host
    explain (inl table) = inr (inr (inr (inl table)))
    explain (inr stuck) = inr (inr (inr (inr stuck)))
spawned e gmem mem name host v room ids live fresh (q, e')
      (inr (own, there, (n, forks, well, launched))) =
    rw (==_ne q null there) (well, inr (own, there, (name, n, refl, forks, launched)))

spawn_group :
    (e : Embla) (gmem : GroupMemory) (mem : Memory) (name : CString) (host : SpawnHost)
    → IsRuntime e
    → e.heap mem.block ≡ none
    → e.groups gmem.block ≡ none
    → Spawns e gmem mem (some name) true host (spawn e gmem mem (some name) true host)
unfolding spawn get_id
spawn_group e gmem mem name host v fresh group_fresh =
    elim (create_group-cases e.process_group_manager e.groups gmem.block gmem.members gmem.garbage
      v.directory group_fresh) [
        | inr (missing, is, u, why) ↦ rw missing (
            let (well, unchanged) = refused e _ _ v is u in
            (well, inl (refl, unchanged, inr (inr (inl why)))))
        | inl (a, is) ↦
            rw
              (
                is,
                ==_ne gmem.block null a.allocated,
                update_self e.groups gmem.block
                    (some (fresh_group e.process_group_manager.next_id gmem.garbage)),
                get_id,
              )
              (spawned e gmem mem name host v a.room a.ids_left a.allocated group_fresh _ (
                spawn_internal-Outcome e gmem.block gmem.garbage v a.room a.ids_left a.allocated
                  group_fresh mem name host fresh))
      ]

-- `embla_spawn` on a runtime whose tables and queue are well formed keeps them so; see `Spawns`.
pub spawn-Spawns :
    (e : Embla) (gmem : GroupMemory) (mem : Memory) (name : Option CString) (config : Bool)
    (host : SpawnHost)
    → IsRuntime e
    → e.heap mem.block ≡ none
    → e.groups gmem.block ≡ none
    → Spawns e gmem mem name config host (spawn e gmem mem name config host)
unfolding spawn
spawn-Spawns e gmem mem none config host v fresh group_fresh =
    (v, inl (refl, same e, inr (inl refl)))
spawn-Spawns e gmem mem (some name) false host v fresh group_fresh =
    (v, inl (refl, same e, inl refl))
spawn-Spawns e gmem mem (some name) true host v fresh group_fresh =
    spawn_group e gmem mem name host v fresh group_fresh
