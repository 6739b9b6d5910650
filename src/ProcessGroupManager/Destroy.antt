-- ===== src/ProcessGroupManager/Destroy.antt =====
-- The table of groups under destruction.
use embla.Prelude.{
  ℕ, suc, ◌-◌, ◌<◌, ◌≡◌, refl, sym, ap, ◌∙◌, ◌≢◌, ◌⊎◌, inl, inr, none, arith, ◌==◌, ==_iff, ==_ne,
  Bool-cases, update, update_ne, if◌then◌else◌, ◌∷◌, subst, Perm, ℤ, success, failure,
}
use embla.Process.{null, invalid_pgid}
use embla.ProcessGroup.{ProcessGroup, Groups, get_id, fresh_group}
use embla.ProcessGroup
use embla.Table.{contents, close_gap}
use embla.Table.Laws.{contents-close_gap}
use embla.Table.Keyed
use embla.Table.Keyed.{slot}
use embla.ProcessGroupManager.{ProcessGroupManager, find_index, get, destroy_at, destroy_group}
use embla.ProcessGroupManager.Directory.{IsGroups, get_id-ext}

module _ (m : ProcessGroupManager) (gs : Groups) (v : IsGroups m gs) (k : ℕ)
    (used : k < m.count) where
  abbrev destroyed : Groups
  destroyed = update gs (m.groups k) none

  abbrev destroyed_table : ProcessGroupManager
  destroyed_table = record m { groups = close_gap m.groups k (m.count - 1); count = m.count - 1 }

  kept-frame : (i : ℕ) → i < m.count → i ≢ k → destroyed (m.groups i) ≡ gs (m.groups i)
  kept-frame i lt ne = update_ne gs (m.groups k) (m.groups i) none (λ e. ne (
      Keyed.same_slot ◌==◌ ==_iff m.groups (get_id gs) m.count v.distinct k i used lt
        (ap (get_id gs) (sym e))))

  kept-id : (i : ℕ) → i < m.count → i ≢ k → get_id destroyed (m.groups i) ≡ get_id gs (m.groups i)
  kept-id i lt ne = get_id-ext destroyed gs _ _ (kept-frame i lt ne)

  origin : ℕ → ℕ
  origin =
      Keyed.origin ◌==◌ ==_iff m.groups (get_id gs) (get_id destroyed) m.count k v.distinct used
        kept-id

  origin-lt : (j : ℕ) → j < m.count - 1 → origin j < m.count
  unfolding origin
  origin-lt =
      Keyed.origin-lt ◌==◌ ==_iff m.groups (get_id gs) (get_id destroyed) m.count k v.distinct used
        kept-id

  closed-slot : (j : ℕ) → j < m.count - 1 → destroyed_table.groups j ≡ m.groups (origin j)
  unfolding origin
  closed-slot =
      Keyed.closed-slot ◌==◌ ==_iff m.groups (get_id gs) (get_id destroyed) m.count k v.distinct
        used kept-id

  kept-object :
      (j : ℕ) → j < m.count - 1 → destroyed (destroyed_table.groups j) ≡ gs (m.groups (origin j))
  unfolding origin
  kept-object j lt =
      ap destroyed (closed-slot j lt)
      ∙ kept-frame (origin j) (origin-lt j lt) (
          Keyed.origin-ne ◌==◌ ==_iff m.groups (get_id gs) (get_id destroyed) m.count k v.distinct
            used kept-id j lt)

  destroyed-IsGroups : IsGroups destroyed_table destroyed
  destroyed-IsGroups = record {
    fixed = v.fixed;
    fits = omega (arith, v.fits);
    next_min = v.next_min;
    next_max = v.next_max;
    object = λ i lt.
        let (grp, object, low, high) = v.object (origin i) (origin-lt i lt) in
        (grp, kept-object i lt ∙ object, low, high);
    address = λ i lt e. v.address (origin i) (origin-lt i lt) (sym (closed-slot i lt) ∙ e);
    distinct =
        Keyed.Distinct-close ◌==◌ ==_iff m.groups (get_id gs) (get_id destroyed) m.count k
          v.distinct used kept-id;
  }

  get-destroyed :
      (id : ℕ)
      → id ≢ invalid_pgid
      → get destroyed_table destroyed id
        ≡ (if id == get_id gs (m.groups k) then null else get m gs id)
  unfolding get find_index
  get-destroyed id valid = rw (==_ne id invalid_pgid valid) (
      Keyed.lookup-close ◌==◌ ==_iff m.groups (get_id gs) (get_id destroyed) m.count k v.distinct
        used kept-id id)

  contents-destroyed :
      Perm (contents m.groups m.count) (m.groups k ∷ contents destroyed_table.groups (m.count - 1))
  contents-destroyed =
      let e : m.count ≡ suc (m.count - 1) = omega arith in
      subst
        (λ n.
          Perm (contents m.groups n) (m.groups k ∷ contents destroyed_table.groups (m.count - 1)))
        (sym e) (contents-close_gap m.groups k (m.count - 1) (omega arith))

-- A result of `destroy_group` on `id`: the group with that id had no member, is gone, and no other
-- group is; or the id leads to no group or to one with members, and nothing has changed.
abbrev pub Closes : ProcessGroupManager → Groups → ℕ → ℤ × Groups × ProcessGroupManager → Type 0
Closes m gs id (code, gs', m') =
    ((code ≡ success)
      × ((get m gs id ≢ null)
          × (ProcessGroup.member_count gs (get m gs id) ≡ 0)
          × (gs' ≡ update gs (get m gs id) none)
          × Perm (contents m.groups m.count) (get m gs id ∷ contents m'.groups m'.count)
          × ((j : ℕ) → j ≢ invalid_pgid → get m' gs' j ≡ (if j == id then null else get m gs j))
          × IsGroups m' gs'))
    ⊎ ((code ≡ failure)
        × (((get m gs id ≡ null) ⊎ (ProcessGroup.member_count gs (get m gs id) ≢ 0))
            × (gs' ≡ gs)
            × (m' ≡ m)))

-- On a well-formed table `destroy_group` removes the group with the given id exactly if there is
-- one and it has no members.
pub destroy_group-Closes :
    (m : ProcessGroupManager) (gs : Groups) (id : ℕ)
    → IsGroups m gs
    → id ≢ invalid_pgid
    → Closes m gs id (destroy_group m gs id)
unfolding destroy_group destroy_at find_index ProcessGroup.destroy
destroy_group-Closes m gs id v valid =
    elim (Keyed.search-cases ◌==◌ ==_iff m.groups (get_id gs) m.count id) [
      | inl (k, lt, at, is) ↦
          let found : get m gs id ≡ m.groups k =
            (unfold get find_index in rw (==_ne id invalid_pgid valid) (ap (slot m.groups) at)) in
          elim (Bool-cases (ProcessGroup.member_count gs (m.groups k) == 0)) [
            | inl empty ↦
                rw
                  (
                    ==_ne id invalid_pgid valid,
                    at,
                    destroy_at,
                    empty,
                    ==_ne (m.groups k) null (v.address k lt),
                  )
                  (inl (
                    refl,
                    (
                      (λ e. v.address k lt (sym found ∙ e)),
                      ap (ProcessGroup.member_count gs) found ∙ (==_iff _ _).0 empty,
                      ap (λ g. update gs g none) (sym found),
                      rw found (contents-destroyed m gs v k lt),
                      (λ j ok. rw (← is) (get-destroyed m gs v k lt j ok)),
                      destroyed-IsGroups m gs v k lt,
                    ),
                  ))
            | inr busy ↦
                rw (==_ne id invalid_pgid valid, at, destroy_at, busy)
                  (inr (
                    refl,
                    (
                      inr (λ e. cc (
                        busy,
                        (==_iff _ _).1 (sym (ap (ProcessGroup.member_count gs) found) ∙ e),
                      )),
                      refl,
                      refl,
                    ),
                  ))
          ]
      | inr (at, absent) ↦
          rw (==_ne id invalid_pgid valid, at, destroy_at)
            (inr (
              refl,
              (
                inl (
                    unfold get find_index in
                    rw (==_ne id invalid_pgid valid) (ap (slot m.groups) at)),
                refl,
                refl,
              ),
            ))
    ]
