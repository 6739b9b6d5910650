-- ===== src/Runtime/Membership/Closed.antt =====
-- The members of the groups when a group is destroyed.
use embla.Prelude.{
  ℕ, ◌≡◌, ◌≢◌, refl, sym, ap, ◌∙◌, inl, inr, none, some, ◌==◌, ==_iff, Bool-cases, subst, update,
  if◌then◌else◌,
}
use mathlib.Core.Option.{none-ne-some}
use embla.Process.{null, Heap, invalid_pgid}
use embla.ProcessManager.{ProcessManager}
use embla.ProcessGroup.{ProcessGroup, Groups}
use embla.ProcessGroupManager.{ProcessGroupManager, get, destroy_group}
use embla.ProcessGroupManager.Directory.{IsGroups}
use embla.ProcessGroupManager.Destroy.{destroy_group-Closes}
use embla.Runtime.Membership.{Holds, IsGrouped}

module _ (m : ProcessManager) (h : Heap) (d : ProcessGroupManager) (gs : Groups)
    (vd : IsGroups d gs) (v : IsGrouped m h d gs) where
  -- A group of the table may be destroyed.
  pub closed-IsGrouped :
      (id : ℕ)
      → id ≢ invalid_pgid
      → IsGrouped m h (destroy_group d gs id).2 (destroy_group d gs id).1
  closed-IsGrouped id valid = elim (destroy_group-Closes d gs id vd valid) [
    | inr (_, (_, groups, table)) ↦ rw (groups, table) v
    | inl (_, (_, _, groups, _, got, _)) ↦ record {
      member = λ gid q live holds.
          let (live', apart, is) = which gid live got in
          let (grp, at, listed) = subst (λ k. Holds (destroy_group d gs id).1 k q) is holds in
          v.member gid q live' (grp, off gid apart grp groups at, listed);
      group = λ gid grp live at.
          let (live', apart, is) = which gid live got in
          v.group gid grp live'
            (off gid apart grp groups (ap (destroy_group d gs id).1 (sym is) ∙ at));
    }
  ]
    where
      d' : ProcessGroupManager
      d' = (destroy_group d gs id).2

      gs' : Groups
      gs' = (destroy_group d gs id).1

      which :
          (gid : ℕ)
          → get d' gs' gid ≢ null
          → ((j : ℕ) → j ≢ invalid_pgid → get d' gs' j ≡ (if j == id then null else get d gs j))
          → (get d gs gid ≢ null) × (gid ≢ id) × (get d' gs' gid ≡ get d gs gid)
      which gid live got = elim (Bool-cases (gid == invalid_pgid)) [
        | inl out ↦ absurd (live (unfold get in rw out refl))
        | inr fine ↦
            let is = got gid (λ z. cc (fine, (==_iff gid invalid_pgid).1 z)) in
            elim (Bool-cases (gid == id)) [
              | inl same ↦ absurd (live (is ∙ ap (λ b. if b then null else get d gs gid) same))
              | inr other ↦
                  let old = is ∙ ap (λ b. if b then null else get d gs gid) other in
                  ((λ z. live (old ∙ z)), (λ z. cc (other, (==_iff gid id).1 z)), old)
            ]
      ]

      off :
          (gid : ℕ)
          → gid ≢ id
          → (grp : ProcessGroup) → gs' ≡ update gs (get d gs id) none
          → gs' (get d gs gid) ≡ some grp
          → gs (get d gs gid) ≡ some grp
      off gid apart grp groups at =
          let at' = ap (λ (k : Groups). k (get d gs gid)) (sym groups) ∙ at in
          elim (Bool-cases (get d gs id == get d gs gid)) [
            | inl same ↦ absurd (none-ne-some grp (rw same at at'))
            | inr other ↦ rw other at at'
          ]
