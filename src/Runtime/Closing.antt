-- ===== src/Runtime/Closing.antt =====
-- The end of a spawn that fails: the group that was made for it is destroyed.
use embla.Prelude.{
  ℕ, ◌<◌, ◌≡◌, ◌≢◌, refl, sym, ap, ◌∙◌, inl, inr, none, some, arith, ◌==◌, ==_iff, ==_refl,
  Bool-cases, update, update_self, update-update, update_same, if◌then◌else◌, ℤ,
}
use embla.Process.{Ptr, null, invalid_pgid}
use embla.ProcessGroup.{ProcessGroup, Groups, get_id, fresh_group, member_count}
use embla.ProcessGroupManager.{ProcessGroupManager, get, find_index, destroy_group}
use embla.ProcessGroupManager.Directory.{
  IsGroups, created, created_table, created-IsGroups, get-created, id-lt,
}
use embla.ProcessGroupManager.Frame.{IsGroups-frame, get-frame, update-KeepsIds, update-get_id}
use embla.ProcessGroupManager.Destroy.{destroy_group-Closes}
use embla.Table.Keyed
use embla.Table.Keyed.{slot}

-- No group has the next id yet.
pub get-next : (d : ProcessGroupManager) (gs : Groups) → IsGroups d gs → get d gs d.next_id ≡ null
unfolding get find_index
get-next d gs v = elim (Bool-cases (d.next_id == invalid_pgid)) [
  | inl out ↦ rw (out, get) refl
  | inr valid ↦
      rw (valid, get)
        (Keyed.lookup-absent ◌==◌ ==_iff d.groups (get_id gs) d.count d.next_id
          (λ k lt e. absurd (omega (arith, id-lt d gs v k lt, e))))
]

module _ (d : ProcessGroupManager) (gs : Groups) (g : Ptr) (garbage : ℕ) (v : IsGroups d gs)
    (room : d.count < 16) (ids : d.next_id < 4294967295) (live : g ≢ null)
    (fresh : gs g ≡ none) where
  abbrev pub holding : ProcessGroup → Groups
  holding grp = update gs g (some grp)

  abbrev pub opened : ProcessGroupManager
  opened = created_table d gs g garbage

  -- The new group's record may change, but for its id.
  pub holding-IsGroups : (grp : ProcessGroup) → grp.id ≡ d.next_id → IsGroups opened (holding grp)
  holding-IsGroups grp same =
      IsGroups-frame opened (created d gs g garbage) (holding grp)
        (update-KeepsIds gs g (fresh_group d.next_id garbage) grp same)
        (created-IsGroups d gs g garbage v room ids live fresh)

  pub get-holding :
      (grp : ProcessGroup)
      → grp.id ≡ d.next_id
      → (id : ℕ) → id ≢ invalid_pgid
      → get opened (holding grp) id ≡ (if id == d.next_id then g else get d gs id)
  get-holding grp same id valid =
      get-frame opened (created d gs g garbage) (holding grp) id
        (update-get_id gs g (fresh_group d.next_id garbage) grp same)
      ∙ get-created d gs g garbage v room ids live fresh id valid

  pub next_valid : d.next_id ≢ invalid_pgid
  next_valid e = omega (arith, e)

  pub get-own : (grp : ProcessGroup) → grp.id ≡ d.next_id → get opened (holding grp) d.next_id ≡ g
  get-own grp same =
      get-holding grp same d.next_id next_valid
      ∙ ap (λ b. if b then g else get d gs d.next_id) (==_refl d.next_id)

  -- The groups and the lookups are again those of the start.
  abbrev pub Closed : ℤ × Groups × ProcessGroupManager → Type 0
  Closed (code, gs', d') =
      (gs' ≡ gs) × IsGroups d' gs' × ((id : ℕ) → id ≢ invalid_pgid → get d' gs' id ≡ get d gs id)

  pub destroy_group-Closed :
      (grp : ProcessGroup)
      → grp.id ≡ d.next_id
      → grp.count ≡ 0
      → Closed (destroy_group opened (holding grp) d.next_id)
  unfolding member_count
  destroy_group-Closed grp same empty =
      elim (destroy_group-Closes opened (holding grp) d.next_id (holding-IsGroups grp same)
        next_valid) [
          | inl (code, (found, none_left, gone, _, got, w)) ↦ (
            gone
                ∙ ap (λ q. update (holding grp) q none) (get-own grp same)
                ∙ update-update gs g (some grp) none
                ∙ update_same gs g none fresh,
            w,
            λ id valid. got id valid ∙ lookups id valid,
          )
          | inr (code, (inl missing, _, _)) ↦ absurd (live (sym (get-own grp same) ∙ missing))
          | inr (code, (inr busy, _, _)) ↦
              absurd (busy (ap (member_count (holding grp)) (get-own grp same) ∙ count))
        ]
    where
      count : member_count (holding grp) g ≡ 0
      count = rw (update_self gs g (some grp), member_count) empty

      lookups :
          (id : ℕ)
          → id ≢ invalid_pgid
          → (if id == d.next_id then null else get opened (holding grp) id) ≡ get d gs id
      lookups id valid = elim (Bool-cases (id == d.next_id)) [
        | inl own ↦ rw own (sym (ap (get d gs) ((==_iff _ _).0 own) ∙ get-next d gs v))
        | inr other ↦
            rw other (get-holding grp same id valid ∙ ap (λ b. if b then g else get d gs id) other)
      ]
