-- ===== src/Runtime/Membership.antt =====
-- Which processes the groups list.
pub mod Processes
pub mod Lists
pub mod Closed
use embla.Prelude.{
  ℕ, suc, ◌+◌, ◌<◌, ◌≤◌, ◌≡◌, ◌≢◌, refl, sym, ap, ◌∙◌, ◌⊎◌, inl, inr, Bool, true, false, Option,
  none, some, List, [], ◌∷◌, elem, ℤ, success, failure, arith, ◌==◌, ==_iff, ==_ne, ==_refl,
  Bool-cases, Option-cases, subst, update, update_self, if◌then◌else◌,
}
use mathlib.Core.Option.{some-injective, none-ne-some}
use embla.Process.{Ptr, null, Heap, Process, get_id, get_group_id, invalid_pid, invalid_pgid}
use embla.Table.Keyed
use embla.Table.Keyed.{slot}
use embla.ProcessManager
use embla.ProcessManager.{ProcessManager}
use embla.ProcessManager.Invariant.{IsTable, id-cases, get-absent, get-at}
use embla.ProcessManager.Frame.{Alike, Alike-get_id, Alike-get_group_id, get-frame}
use embla.ProcessGroup
use embla.ProcessGroup.{ProcessGroup, Groups}
use embla.ProcessGroup.Members.{IsGroup, members, add-Joins, remove-Leaves}
use embla.ProcessGroupManager
use embla.ProcessGroupManager.{ProcessGroupManager}
use embla.ProcessGroupManager.Directory.{IsGroups}
use embla.ProcessGroupManager.Frame

-- The process is in the table, and of the group.
pub record Alive (m : ProcessManager) (h : Heap) (q : Ptr) (gid : ℕ) : Type 0 where
  pub there : q ≢ null
  pub of_group : get_group_id h q ≡ gid
  pub listed : ProcessManager.get m h (get_id h q) ≡ q

-- The group at an address lists the process.
abbrev pub Holds : Groups → Ptr → Ptr → Type 0
Holds gs g q = (grp : ProcessGroup) × (gs g ≡ some grp) × (elem q (members grp) ≡ true)

-- The members of every group of the table are live processes of that group, none of them twice.
pub record IsGrouped (m : ProcessManager) (h : Heap) (d : ProcessGroupManager) (gs : Groups)
    : Type 0 where
  pub member :
      (gid : ℕ) (q : Ptr)
      → ProcessGroupManager.get d gs gid ≢ null
      → Holds gs (ProcessGroupManager.get d gs gid) q
      → Alive m h q gid
  pub group :
      (gid : ℕ) (grp : ProcessGroup)
      → ProcessGroupManager.get d gs gid ≢ null
      → gs (ProcessGroupManager.get d gs gid) ≡ some grp
      → IsGroup grp

-- What a lookup leads to has the id that was looked up.
pub got-process :
    (m : ProcessManager) (h : Heap) (id : ℕ)
    → IsTable m h
    → ProcessManager.get m h id ≢ null
    → (get_id h (ProcessManager.get m h id) ≡ id)
      × (id < m.next_pid)
      × ((pr : Process) × (h (ProcessManager.get m h id) ≡ some pr))
unfolding get_id
got-process m h id v live = elim (id-cases m h id) [
  | inl (k, lt, at, is) ↦
      let found = get-at m h v k id lt is in
      let (pr, object, _, below) = v.object k lt in
      (
        ap (get_id h) found ∙ is,
        subst (λ n. n < m.next_pid) (sym (rw (object, get_id) refl) ∙ is) below,
        (pr, ap h found ∙ object),
      )
  | inr (_, none_has) ↦ absurd (live (get-absent m h id none_has))
]

pub got-group :
    (d : ProcessGroupManager) (gs : Groups) (gid : ℕ)
    → IsGroups d gs
    → ProcessGroupManager.get d gs gid ≢ null
    → (ProcessGroup.get_id gs (ProcessGroupManager.get d gs gid) ≡ gid)
      × (gid ≢ invalid_pgid)
      × (gid < d.next_id)
      × ((grp : ProcessGroup) × (gs (ProcessGroupManager.get d gs gid) ≡ some grp) × (grp.id ≡ gid))
unfolding ProcessGroupManager.get ProcessGroupManager.find_index ProcessGroup.get_id
got-group d gs gid v live = elim (Bool-cases (gid == invalid_pgid)) [
  | inl out ↦ absurd (live (rw out refl))
  | inr valid ↦
      elim (Keyed.search-cases ◌==◌ ==_iff d.groups (ProcessGroup.get_id gs) d.count gid) [
        | inl (k, lt, at, is) ↦
            let found : ProcessGroupManager.get d gs gid ≡ d.groups k =
              rw valid (ap (slot d.groups) at) in
            let (grp, object, _, below) = v.object k lt in
            let own : grp.id ≡ gid = sym (rw (object, ProcessGroup.get_id) refl) ∙ is in
            (
              ap (ProcessGroup.get_id gs) found ∙ is,
              (λ e. cc (valid, (==_iff gid invalid_pgid).1 e)),
              omega (arith, own, below),
              (grp, ap gs found ∙ object, own),
            )
        | inr (_, none_has) ↦ absurd (
            live (
              rw valid (
                Keyed.lookup-absent ◌==◌ ==_iff d.groups (ProcessGroup.get_id gs) d.count gid
                  none_has)))
      ]
]

-- Changes of the processes that keep their ids and groups.
pub Alike-IsGrouped :
    (m : ProcessManager) (h h' : Heap) (d : ProcessGroupManager) (gs : Groups)
    → Alike h h'
    → IsGrouped m h d gs
    → IsGrouped m h' d gs
Alike-IsGrouped m h h' d gs alike v = record {
  member = λ gid q live holds.
      let a = v.member gid q live holds in
      record {
        there = a.there;
        of_group = Alike-get_group_id h h' alike q ∙ a.of_group;
        listed =
            ap (ProcessManager.get m h') (Alike-get_id h h' alike q)
            ∙ get-frame m h h' (get_id h q) (Alike-get_id h h' alike)
            ∙ a.listed;
      };
  group = v.group;
}
