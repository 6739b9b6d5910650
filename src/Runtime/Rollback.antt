-- ===== src/Runtime/Rollback.antt =====
-- A spawn between the creation of its process and its end, and what the rollback makes of it.
use embla.Prelude.{
  ℕ, ◌<◌, ◌≡◌, ◌≢◌, refl, sym, ap, ◌∙◌, inl, inr, none, some, arith, ◌==◌, ==_iff, ==_ne, ==_refl,
  Bool-cases, update, update_self, update-update, update_same, if◌then◌else◌, ℤ, pos, success,
}
use embla.Process.{Ptr, null, CString, Heap, Process, fresh_process, root_pid, get_id, get_group_id}
use embla.ProcessManager.{ProcessManager, get, destroy_process}
use embla.ProcessManager.Invariant.{IsTable, get-absent}
use embla.ProcessManager.Create.{created_table, created-IsTable, get-created}
use embla.ProcessManager.Destroy.{destroy_process-Removes}
use embla.ProcessManager.Frame.{IsTable-frame, get-frame, update-KeepsIds, update-get_id}
use embla.ProcessGroup
use embla.ProcessGroup.{ProcessGroup, Groups, fresh_group}
use embla.ProcessGroupManager.Directory
use embla.Table.{find_from, close_gap}
use embla.Runtime.{Embla, spawn_rollback}

-- The new group with the new process as its one member.
abbrev pub alone : (id garbage : ℕ) → (host : ℤ) → Ptr → ProcessGroup
alone id garbage host p = record (fresh_group id garbage) {
  host_id = host;
  processes = update (λ _. null) 0 p;
  count = 1;
}

pub add-alone :
    (gs : Groups) (h : Heap) (g p : Ptr) (x : Process) (id garbage : ℕ)
    → p ≢ null
    → x.group_id ≡ id
    → ProcessGroup.add (update gs g (some (fresh_group id garbage))) (update h p (some x)) g p
      ≡ (success, update gs g (some (alone id garbage (pos 0) p)))
unfolding ProcessGroup.add ProcessGroup.find_index find_from get_group_id
add-alone gs h g p x id garbage live same =
    rw
      (
        update_self gs g (some (fresh_group id garbage)),
        ProcessGroup.add,
        ==_ne p null live,
        update_self h p (some x),
        get_group_id,
        same,
        ==_refl id,
      )
      (ap (λ (k : Groups). (success, k)) (update-update gs g _ _))

-- Taking the process out leaves a group without members.
pub remove-alone :
    (gs : Groups) (g p : Ptr) (id garbage : ℕ) (host : ℤ)
    → p ≢ null
    → (left : ProcessGroup) × (left.id ≡ id)
      × (left.count ≡ 0)
      × ((ProcessGroup.remove (update gs g (some (alone id garbage host p))) g p).1
          ≡ update gs g (some left))
unfolding ProcessGroup.remove ProcessGroup.remove_at ProcessGroup.find_index find_from
remove-alone gs g p id garbage host live = (
  record (alone id garbage host p) {
    processes = close_gap (update (λ _. null) 0 p) 0 0;
    count = 0;
  },
  refl,
  refl,
  rw
      (
        update_self gs g (some (alone id garbage host p)),
        ProcessGroup.remove,
        ==_ne p null live,
        ==_refl p,
        ProcessGroup.remove_at,
      )
      (update-update gs g _ _),
)

-- The heap, the table and its lookups are again those of the start, and the new group is there, with
-- no member.
pub record Cleared (e : Embla) (g : Ptr) (garbage : ℕ) (e' : Embla) : Type 0 where
  pub heap : e'.heap ≡ e.heap
  pub table : IsTable e'.process_manager e'.heap
  pub got : (id : ℕ) → get e'.process_manager e'.heap id ≡ get e.process_manager e.heap id
  pub groups :
      (left : ProcessGroup) × (left.id ≡ e.process_group_manager.next_id)
      × (left.count ≡ 0)
      × (e'.groups ≡ update e.groups g (some left))
  pub directory :
      e'.process_group_manager ≡ Directory.created_table e.process_group_manager e.groups g garbage
  pub scheduler : e'.scheduler ≡ e.scheduler
  pub state : e'.state ≡ e.state

module _ (e : Embla) (g p : Ptr) (name : CString) (garbage : ℕ)
    (vt : IsTable e.process_manager e.heap) (room : e.process_manager.count < 16)
    (ids : e.process_manager.next_pid < 4294967295) (live : p ≢ null)
    (fresh : e.heap p ≡ none) where
  abbrev pub pid : ℕ
  pid = e.process_manager.next_pid

  abbrev pub gid : ℕ
  gid = e.process_group_manager.next_id

  abbrev pub made : Process
  made = fresh_process pid root_pid gid name

  abbrev pub manager : ProcessManager
  manager = created_table e.process_manager e.heap p root_pid gid name

  -- The runtime while the process is `x` and its group is `grp`.
  abbrev pub stage : Process → ProcessGroup → Embla
  stage x grp = record e {
    heap = update e.heap p (some x);
    process_manager = manager;
    groups = update e.groups g (some grp);
    process_group_manager = Directory.created_table e.process_group_manager e.groups g garbage;
  }

  pub stage-IsTable : (x : Process) → x.id ≡ pid → IsTable manager (update e.heap p (some x))
  stage-IsTable x same =
      IsTable-frame manager (update e.heap p (some made)) (update e.heap p (some x))
        (update-KeepsIds e.heap p made x same)
        (created-IsTable e.process_manager e.heap p root_pid gid name vt room ids live fresh)

  pub get-stage :
      (x : Process)
      → x.id ≡ pid
      → (id : ℕ)
      → get manager (update e.heap p (some x)) id
        ≡ (if id == pid then p else get e.process_manager e.heap id)
  get-stage x same id =
      get-frame manager (update e.heap p (some made)) (update e.heap p (some x)) id
        (update-get_id e.heap p made x same)
      ∙ get-created e.process_manager e.heap p root_pid gid name vt room ids live fresh id

  get-own : (x : Process) → x.id ≡ pid → get manager (update e.heap p (some x)) pid ≡ p
  get-own x same =
      get-stage x same pid
      ∙ ap (λ b. if b then p else get e.process_manager e.heap pid) (==_refl pid)

  -- No process has the next id yet.
  get-next : get e.process_manager e.heap pid ≡ null
  unfolding get_id
  get-next = get-absent e.process_manager e.heap pid (λ k lt same.
      let (pr, there, _, below) = vt.object k lt in
      let known : get_id e.heap (e.process_manager.processes k) ≡ pr.id = rw (there, get_id) refl in
      absurd (omega (arith, below, known, same)))

  destroyed :
      (x : Process)
      → x.id ≡ pid
      → (let (_, h', m') = destroy_process manager (update e.heap p (some x)) pid in
          (h' ≡ e.heap)
          × IsTable m' h'
          × ((id : ℕ) → get m' h' id ≡ get e.process_manager e.heap id))
  destroyed x same =
      elim (destroy_process-Removes manager (update e.heap p (some x)) pid (stage-IsTable x same)
        (λ z. absurd (omega (arith, z)))) [
          | inl (code, (found, heap, _, got, table)) ↦ (
            heap
                ∙ ap (λ q. update (update e.heap p (some x)) q none) (get-own x same)
                ∙ update-update e.heap p (some x) none
                ∙ update_same e.heap p none fresh,
            table,
            λ id. got id ∙ lookups id,
          )
          | inr (code, (missing, _, _)) ↦ absurd (live (sym (get-own x same) ∙ missing))
        ]
    where
      lookups :
          (id : ℕ)
          → (if id == pid then null else get manager (update e.heap p (some x)) id)
            ≡ get e.process_manager e.heap id
      lookups id = elim (Bool-cases (id == pid)) [
        | inl own ↦
            rw own (sym (ap (get e.process_manager e.heap) ((==_iff id pid).0 own) ∙ get-next))
        | inr other ↦
            rw other (
              get-stage x same id
              ∙ ap (λ b. if b then p else get e.process_manager e.heap id) other)
      ]

  pub spawn_rollback-Cleared :
      (x : Process) (host : ℤ)
      → x.id ≡ pid
      → Cleared e g garbage (spawn_rollback (stage x (alone gid garbage host p)) g p pid)
  unfolding spawn_rollback
  spawn_rollback-Cleared x host same =
      let (heap, table, got) = destroyed x same in
      record {
        heap = heap;
        table = table;
        got = got;
        groups = remove-alone e.groups g p gid garbage host live;
        directory = refl;
        scheduler = refl;
        state = refl;
      }
