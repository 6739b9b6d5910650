-- ===== src/Runtime/Grouped/Spawns.antt =====
-- The members of the groups through `embla_spawn` and `embla_spawn_child`.
use embla.Prelude.{
  ℕ, ◌<◌, ◌≡◌, ◌≢◌, refl, sym, ap, ◌∙◌, inl, inr, Bool, false, not, ◌||◌, ◌&&◌, Option, none, some,
  ◌==◌, ==_iff, ==_ne, Bool-cases, leb, if◌then◌else◌, if-both, subst,
}
use embla.Process.{Ptr, null, CString, Heap, get_id, get_group_id, root_pid, invalid_pgid}
use embla.Executor.{SpawnHost}
use embla.ProcessManager.{ProcessManager, create_process}
use embla.ProcessManager.Create
use embla.ProcessManager.Create.{create_process-cases, create_process-IsTable}
use embla.ProcessGroup
use embla.ProcessGroup.{Groups, fresh_group, has_max_members, get_max_members, member_count}
use embla.ProcessGroupManager
use embla.ProcessGroupManager.{ProcessGroupManager, create_group, destroy_group}
use embla.ProcessGroupManager.Directory
use embla.ProcessGroupManager.Directory.{
  IsGroups, Unchanged, create_group-cases, created-IsGroups, Unchanged-IsGroups,
}
use embla.Runtime.{Embla, Memory, GroupMemory, spawn_member, spawn_internal, spawn_child, spawn}
use embla.Runtime.Invariant.{IsRuntime}
use embla.Runtime.Kept.{spawn_internal-IsRuntime}
use embla.Runtime.Membership.{Holds, IsGrouped}
use embla.Runtime.Membership.Processes.{created-IsGrouped, Unchanged-IsGrouped}
use embla.Runtime.Membership.Lists.{opened-IsGrouped}
use embla.Runtime.Membership.Closed.{closed-IsGrouped}
use embla.Runtime.Grouped.{Grouped, LeavesGrouped, Spawning, spawn_member-Grouped}

pub spawn_internal-Grouped :
    (e : Embla) (mem : Memory) (parent gid : ℕ) (name : CString) (config : Bool) (host : SpawnHost)
    → IsRuntime e
    → Grouped e
    → e.heap mem.block ≡ none
    → Grouped (spawn_internal e mem parent gid (some name) config host).1
unfolding spawn_internal get_id
spawn_internal-Grouped e mem parent gid name config host v w fresh =
    elim (Bool-cases (group == null)) [
      | inl missing ↦ elim (Bool-cases config) [ inl on ↦ rw (on, missing) w | inr off ↦ rw off w ]
      | inr found ↦
          elim (create_process-cases e.process_manager e.heap mem.block parent gid mem.copied
            (some name) v.table) [
              | inr (refused, same, u, _) ↦
                  let w' : Grouped (record e { heap = made.1; process_manager = made.2 }) =
                    subst (λ h. IsGrouped made.2 h e.process_group_manager e.groups) (sym same)
                      (Unchanged-IsGrouped e.process_manager e.heap e.process_group_manager e.groups
                        v.table w made.2 u) in
                  if-both LeavesGrouped (not config || group == null) w
                    (if-both LeavesGrouped full w (rw refused w'))
              | inl (bytes, a, is) ↦ if-both LeavesGrouped (not config || group == null) w (
                  if-both LeavesGrouped full w (
                    subst After (sym is) (
                      rw (==_ne mem.block null a.allocated) (
                        spawn_member-Grouped _ group mem.block gid config host
                          (spawning found bytes a.room a.ids_left a.allocated)))))
            ]
    ]
  where
    group : Ptr
    group = ProcessGroupManager.get e.process_group_manager e.groups gid

    full : Bool
    full =
        has_max_members e.groups group
        && leb (get_max_members e.groups group) (member_count e.groups group)

    made : Ptr × Heap × ProcessManager
    made = create_process e.process_manager e.heap mem.block mem.copied parent gid (some name)

    After : Ptr × Heap × ProcessManager → Type 0
    After (p, h, m) =
        let e' = record e { heap = h; process_manager = m } in
        Grouped (if p == null then (null, e') else spawn_member e' group p config host).1

    spawning :
        (group == null) ≡ false
        → (bytes : CString) (room : e.process_manager.count < 16)
          (ids : e.process_manager.next_pid < 4294967295)
        → (live : mem.block ≢ null)
        → (let h = Create.created_heap e.process_manager e.heap mem.block parent gid bytes in
            let m = Create.created_table e.process_manager e.heap mem.block parent gid bytes in
            Spawning
              (record e { heap = h; process_manager = m })
              group
              mem.block
              (get_id h mem.block)
              gid)
    spawning found bytes room ids live =
        let (grouped, alive) =
          created-IsGrouped e.process_manager e.heap e.process_group_manager e.groups v.table w
            mem.block parent gid bytes room ids live fresh in
        record {
          well = record {
            table =
                Create.created-IsTable e.process_manager e.heap mem.block parent gid bytes v.table
                  room ids live fresh;
            directory = v.directory;
            ring = v.ring;
          };
          grouped = grouped;
          alive = alive;
          at = refl;
          live = λ z. cc (found, (==_iff group null).1 z);
          key = refl;
        }

pub spawn_child-Grouped :
    (e : Embla) (mem : Memory) (parent : Ptr) (name : Option CString) (config : Bool)
    (host : SpawnHost)
    → IsRuntime e
    → Grouped e
    → e.heap mem.block ≡ none
    → Grouped (spawn_child e mem parent name config host).1
unfolding spawn_child
spawn_child-Grouped e mem parent none config host v w fresh = w
spawn_child-Grouped e mem parent (some name) config host v w fresh =
    if-both LeavesGrouped
      (not config || parent == null || get_group_id e.heap parent == invalid_pgid) w
      (spawn_internal-Grouped e mem (get_id e.heap parent) (get_group_id e.heap parent) name config
        host v w fresh)

-- A runtime after the group of an id was destroyed, if it could be.
pub close_group-Grouped :
    (e : Embla) (id : ℕ)
    → IsRuntime e
    → Grouped e
    → (let (_, gs, d) = destroy_group e.process_group_manager e.groups id in
        Grouped (record e { groups = gs; process_group_manager = d }))
close_group-Grouped e id v w = elim (Bool-cases (id == invalid_pgid)) [
  | inl out ↦ (unfold destroy_group in rw out w)
  | inr valid ↦
      closed-IsGrouped e.process_manager e.heap e.process_group_manager e.groups v.directory w id
        (λ z. cc (valid, (==_iff id invalid_pgid).1 z))
]

same_directory :
    (e : Embla) (d : ProcessGroupManager)
    → Grouped e
    → Unchanged e.process_group_manager d
    → IsGrouped e.process_manager e.heap d e.groups
same_directory e d w u = record {
  member = λ gid q live holds.
      let is = Directory.Unchanged-get e.process_group_manager d e.groups gid u in
      w.member gid q (λ z. live (is ∙ z)) (subst (λ k. Holds e.groups k q) is holds);
  group = λ gid grp live at.
      let is = Directory.Unchanged-get e.process_group_manager d e.groups gid u in
      w.group gid grp (λ z. live (is ∙ z)) (ap e.groups (sym is) ∙ at);
}

pub spawn-Grouped :
    (e : Embla) (gmem : GroupMemory) (mem : Memory) (name : Option CString) (config : Bool)
    (host : SpawnHost)
    → IsRuntime e
    → Grouped e
    → e.heap mem.block ≡ none
    → e.groups gmem.block ≡ none
    → Grouped (spawn e gmem mem name config host).1
unfolding spawn
spawn-Grouped e gmem mem none config host v w fresh group_fresh = w
spawn-Grouped e gmem mem (some name) config host v w fresh group_fresh =
    elim (create_group-cases e.process_group_manager e.groups gmem.block gmem.members gmem.garbage
      v.directory group_fresh) [
        | inr (missing, is, u, _) ↦ if-both LeavesGrouped (not config) w (
            rw missing (
              subst
                (λ gs.
                  IsGrouped e.process_manager e.heap
                    (create_group e.process_group_manager e.groups gmem.block gmem.members
                      gmem.garbage).2
                    gs)
                (sym is) (same_directory e _ w u)))
        | inl (a, is) ↦
            if-both LeavesGrouped (not config) w
              (subst After (sym is) (opened a.room a.ids_left a.allocated))
      ]
  where
    After : Ptr × Groups × ProcessGroupManager → Type 0
    After (g, gs, d) =
        let e' = record e { groups = gs; process_group_manager = d } in
        let id = ProcessGroup.get_id gs g in
        let (process, e'') = spawn_internal e' mem root_pid id (some name) config host in
        let (_, groups', directory') = destroy_group e''.process_group_manager e''.groups id in
        LeavesGrouped (
          if g == null
          then (null, e')
          else if process == null
          then (null, record e'' { groups = groups'; process_group_manager = directory' })
          else (process, e''))

    opened :
        e.process_group_manager.count < 16
        → e.process_group_manager.next_id < 4294967295
        → gmem.block ≢ null
        → After (
          gmem.block,
          Directory.created e.process_group_manager e.groups gmem.block gmem.garbage,
          Directory.created_table e.process_group_manager e.groups gmem.block gmem.garbage,
        )
    opened room ids live =
        let gs = Directory.created e.process_group_manager e.groups gmem.block gmem.garbage in
        let e' : Embla = record e {
          groups = gs;
          process_group_manager =
              Directory.created_table e.process_group_manager e.groups gmem.block gmem.garbage;
        } in
        let id = ProcessGroup.get_id gs gmem.block in
        let v' : IsRuntime e' = record {
          table = v.table;
          directory =
              created-IsGroups e.process_group_manager e.groups gmem.block gmem.garbage v.directory
                room ids live group_fresh;
          ring = v.ring;
        } in
        let w' : Grouped e' =
          opened-IsGrouped e.process_manager e.heap e.process_group_manager e.groups v.directory w
            gmem.block gmem.garbage room ids live group_fresh in
        let v'' = spawn_internal-IsRuntime e' mem root_pid id (some name) config host v' fresh in
        let w'' = spawn_internal-Grouped e' mem root_pid id name config host v' w' fresh in
        let r = spawn_internal e' mem root_pid id (some name) config host in
        if-both LeavesGrouped (gmem.block == null) w'
          (if-both LeavesGrouped (r.0 == null) (close_group-Grouped r.1 id v'' w'') w'')
