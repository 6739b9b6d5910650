-- ===== src/Runtime/Settled.antt =====
-- The inner part of `embla_spawn`, in a group that was made for the new process.
use embla.Prelude.{
  ℕ, ◌<◌, ◌≡◌, ◌≢◌, refl, sym, ap, ◌∙◌, ◌⊎◌, inl, inr, true, none, some, [], ◌∷◌, ◌++◌, ◌==◌, ==_ne,
  update, update_self, if◌then◌else◌, ℤ, subst,
}
use mathlib.Core.Option.{some-injective}
use embla.Process.{Ptr, null, CString, fresh_process, root_pid, invalid_pgid, ready}
use embla.Executor.{SpawnHost, forked}
use embla.ProcessManager
use embla.ProcessManager.{ProcessManager, create_process}
use embla.ProcessManager.Invariant.{IsTable}
use embla.ProcessManager.Create.{create_process-cases, Unchanged-IsTable, Unchanged-get}
use embla.ProcessManager.Create
use embla.ProcessGroup.{fresh_group, has_max_members}
use embla.ProcessGroupManager
use embla.ProcessGroupManager.{ProcessGroupManager, create_group, destroy_group}
use embla.ProcessGroupManager.Directory.{
  IsGroups, create-IsGroups, IsRefused, Unchanged, create_group-cases, Unchanged-IsGroups,
}
use embla.ProcessGroupManager.Directory
use embla.Scheduler.Queue.{IsRing, queue}
use embla.Runtime.{Embla, Memory, spawn_internal}
use embla.Runtime.Invariant.{IsRuntime}
use embla.Runtime.Closing.{get-own, get-holding, holding-IsGroups}
use embla.Runtime.Rollback.{alone, Cleared, stage-IsTable, get-stage}
use embla.Runtime.Attempt.{Tries, IsStuck, spawn_member-Tries}

-- A READY process under the next id, with the host id of the fork, the one member of a new group under
-- the next group id, which it leads on the host; it waits behind all that waited. Every other id
-- leads where it led.
pub record Launched (e : Embla) (g p : Ptr) (garbage : ℕ) (name : CString) (host : ℤ) (e' : Embla)
    : Type 0 where
  pub heap :
      e'.heap
      ≡ update e.heap p (
          some
            (record (fresh_process e.process_manager.next_pid root_pid
              e.process_group_manager.next_id name) { host_id = host; state = ready }))
  pub groups :
      e'.groups ≡ update e.groups g (some (alone e.process_group_manager.next_id garbage host p))
  pub waits : queue e'.scheduler ≡ queue e.scheduler ++ p ∷ []
  pub state : e'.state ≡ e.state
  pub ids :
      (id : ℕ)
      → ProcessManager.get e'.process_manager e'.heap id ≡ (
          if id == e.process_manager.next_pid
          then p
          else ProcessManager.get e.process_manager e.heap id)
  pub group_ids :
      (id : ℕ)
      → id ≢ invalid_pgid
      → ProcessGroupManager.get e'.process_group_manager e'.groups id ≡ (
          if id == e.process_group_manager.next_id
          then g
          else ProcessGroupManager.get e.process_group_manager e.groups id)

-- The spawn in a group that was made for it.
module _ (e : Embla) (g : Ptr) (garbage : ℕ) (v : IsRuntime e)
    (group_room : e.process_group_manager.count < 16)
    (group_ids_left : e.process_group_manager.next_id < 4294967295) (group_live : g ≢ null)
    (group_fresh : e.groups g ≡ none) where
  abbrev pub opened : Embla
  opened = record e {
    groups = Directory.created e.process_group_manager e.groups g garbage;
    process_group_manager = Directory.created_table e.process_group_manager e.groups g garbage;
  }

  -- NULL and nothing changed but the group, or a process.
  abbrev pub Outcome : Memory → CString → SpawnHost → Ptr × Embla → Type 0
  Outcome mem name host (q, e') =
      ((q ≡ null)
        × Cleared e g garbage e'
        × (Create.IsRefused e.process_manager e.heap mem.block root_pid
              e.process_group_manager.next_id mem.copied (some name)
            ⊎ IsStuck e host))
      ⊎ ((q ≡ mem.block)
          × (q ≢ null)
          × ((n : ℤ) × (host.fork ≡ forked n)
              × IsRuntime e'
              × Launched e g mem.block garbage name n e'))

  settled :
      (mem : Memory) (name : CString) (host : SpawnHost)
      → (room : e.process_manager.count < 16) → (ids_left : e.process_manager.next_pid < 4294967295)
      → (live : mem.block ≢ null) → (fresh : e.heap mem.block ≡ none) → (r : Ptr × Embla)
      → Tries e g mem.block name garbage v.table room ids_left live fresh v.ring host r
      → Outcome mem name host r
  settled mem name host room ids_left live fresh (q, e') (inl (gone, c, why)) =
      inl (gone, c, inr why)
  settled mem name host room ids_left live fresh (q, e')
        (inr (own, (n, s, forks, is, waits, ring))) =
      inr (
        own,
        (λ z. live (sym own ∙ z)),
        (
          n,
          forks,
          record {
            table =
                subst (λ (x : Embla). IsTable x.process_manager x.heap) (sym is)
                  (stage-IsTable e g mem.block name garbage v.table room ids_left live fresh _
                    refl);
            directory =
                subst (λ (x : Embla). IsGroups x.process_group_manager x.groups) (sym is)
                  (holding-IsGroups e.process_group_manager e.groups g garbage v.directory
                    group_room group_ids_left group_live group_fresh
                    (alone e.process_group_manager.next_id garbage n mem.block) refl);
            ring = subst (λ (x : Embla). IsRing x.scheduler) (sym is) ring;
          },
          record {
            heap = ap (λ (x : Embla). x.heap) is;
            groups = ap (λ (x : Embla). x.groups) is;
            waits = ap (λ (x : Embla). queue x.scheduler) is ∙ waits;
            state = ap (λ (x : Embla). x.state) is;
            ids = λ id.
                ap (λ (x : Embla). ProcessManager.get x.process_manager x.heap id) is
                ∙ get-stage e g mem.block name garbage v.table room ids_left live fresh _ refl id;
            group_ids = λ id valid.
                ap (λ (x : Embla). ProcessGroupManager.get x.process_group_manager x.groups id) is
                ∙ get-holding e.process_group_manager e.groups g garbage v.directory group_room
                    group_ids_left group_live group_fresh
                    (alone e.process_group_manager.next_id garbage n mem.block) refl id valid;
          },
        ),
      )

  pub spawn_internal-Outcome :
      (mem : Memory) (name : CString) (host : SpawnHost)
      → e.heap mem.block ≡ none
      → Outcome mem name host
          (spawn_internal opened mem root_pid e.process_group_manager.next_id (some name) true host)
  unfolding spawn_internal has_max_members
  spawn_internal-Outcome mem name host fresh =
      rw
        (
          get-own e.process_group_manager e.groups g garbage v.directory group_room group_ids_left
              group_live group_fresh (fresh_group e.process_group_manager.next_id garbage) refl,
          ==_ne g null group_live,
          update_self e.groups g (some (fresh_group e.process_group_manager.next_id garbage)),
          has_max_members,
        )
        (elim (create_process-cases e.process_manager e.heap mem.block root_pid
          e.process_group_manager.next_id mem.copied (some name) v.table) [
            | inr (missing, same, u, why) ↦ rw missing (
                inl (
                  refl,
                  record {
                    heap = same;
                    table =
                        subst (IsTable _) (sym same)
                          (Unchanged-IsTable e.process_manager _ e.heap v.table u);
                    got = λ id.
                        ap
                          (λ h.
                            ProcessManager.get
                              (create_process e.process_manager e.heap mem.block mem.copied root_pid
                                e.process_group_manager.next_id (some name)).2
                              h id)
                          same
                        ∙ Unchanged-get e.process_manager _ e.heap id u;
                    groups =
                        (fresh_group e.process_group_manager.next_id garbage, refl, refl, refl);
                    directory = refl;
                    scheduler = refl;
                    state = refl;
                  },
                  inl why,
                ))
            | inl (bytes, a, is) ↦
                rw
                  (
                    subst
                        (λ b.
                          create_process e.process_manager e.heap mem.block mem.copied root_pid
                            e.process_group_manager.next_id (some name)
                          ≡ (
                            mem.block,
                            Create.created_heap e.process_manager e.heap mem.block root_pid
                                e.process_group_manager.next_id b,
                            Create.created_table e.process_manager e.heap mem.block root_pid
                                e.process_group_manager.next_id b,
                          ))
                        (sym (some-injective name bytes a.named)) is,
                    ==_ne mem.block null a.allocated,
                  )
                  (settled mem name host a.room a.ids_left a.allocated fresh _ (
                    spawn_member-Tries e g mem.block name garbage v.table a.room a.ids_left
                      a.allocated fresh v.ring host))
          ])
