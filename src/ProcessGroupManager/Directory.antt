-- ===== src/ProcessGroupManager/Directory.antt =====
-- The table of groups as a map from group ids, and under creation.
use native.Mathlib.Numerals.{add-one}
use embla.Prelude.{
  ℕ, ◌+◌, ◌%◌, ◌<◌, ◌≤◌, ◌≡◌, refl, sym, ap, ap₂, ◌∙◌, ◌≢◌, ◌⊎◌, inl, inr, Bool, true, false, none,
  some, arith, ◌==◌, ==_iff, ==_ne, Bool-cases, last_or_before, update, update_self, update_ne, leb,
  ltb, if◌then◌else◌, ◌∷◌, subst,
}
use embla.Process.{Ptr, null, invalid_pgid}
use embla.ProcessGroup.{ProcessGroup, Groups, get_id, fresh_group}
use embla.ProcessGroup
use embla.Table.{contents}
use embla.Table.Laws.{contents-push}
use embla.Table.Keyed
use embla.Table.Keyed.{slot}
use embla.ProcessGroupManager.{ProcessGroupManager, create, create_group, find_index, get}

-- The table is within its sixteen slots, each slot in use holds a live group, no two the same id,
-- and every id was given out before the next one.
pub record IsGroups (m : ProcessGroupManager) (gs : Groups) : Type 0 where
  pub fixed : m.capacity ≡ 16
  pub fits : m.count ≤ 16
  pub next_min : 1 ≤ m.next_id
  pub next_max : m.next_id ≤ 4294967295
  pub object :
      (i : ℕ)
      → i < m.count
      → (grp : ProcessGroup) × (gs (m.groups i) ≡ some grp) × (1 ≤ grp.id) × (grp.id < m.next_id)
  pub address : (i : ℕ) → i < m.count → m.groups i ≢ null
  pub distinct : Keyed.Distinct ◌==◌ ==_iff m.groups (get_id gs) m.count

pub create-IsGroups : (gs : Groups) → IsGroups create gs
unfolding create
create-IsGroups gs = record {
  fixed = refl;
  fits = omega arith;
  next_min = omega arith;
  next_max = omega arith;
  object = λ i lt. absurd (omega arith);
  address = λ i lt. absurd (omega arith);
  distinct = λ i j lt lt'. absurd (omega arith);
}

pub get_id-ext : (gs gs' : Groups) (g g' : Ptr) → gs g ≡ gs' g' → get_id gs g ≡ get_id gs' g'
unfolding get_id
get_id-ext gs gs' g g' e = rw (e, get_id)

pub id-lt :
    (m : ProcessGroupManager) (gs : Groups) (v : IsGroups m gs) (k : ℕ)
    → k < m.count
    → get_id gs (m.groups k) < m.next_id
unfolding get_id
id-lt m gs v k lt = let (grp, object, _, below) = v.object k lt in rw (object, get_id) below

module _ (m : ProcessGroupManager) (gs : Groups) (block : Ptr) (garbage : ℕ) where
  abbrev pub created : Groups
  created = update gs block (some (fresh_group m.next_id garbage))

  abbrev pub created_table : ProcessGroupManager
  created_table = record m {
    groups = update m.groups m.count block;
    count = m.count + 1;
    next_id = (m.next_id + 1) % 4294967296;
  }

  module _ (v : IsGroups m gs) (room : m.count < 16) (ids : m.next_id < 4294967295)
      (live : block ≢ null) (fresh : gs block ≡ none) where
    create_group-okay : create_group m gs block true garbage ≡ (block, created, created_table)
    unfolding create_group ProcessGroup.create
    create_group-okay =
        let a : leb m.capacity m.count ≡ false = ground arith in
        let b : (m.next_id == 4294967295) ≡ false = ==_ne _ _ (omega arith) in
        let c : (block == null) ≡ false = ==_ne _ _ live in rw (a, b, b, c, c)

    frame-object : (k : ℕ) → k < m.count → created (m.groups k) ≡ gs (m.groups k)
    frame-object k lt =
        update_ne gs block (m.groups k) _
          (λ e. let (grp, object, _, _) = v.object k lt in cc (object, fresh, ap gs e))

    frame-id : (k : ℕ) → k < m.count → get_id created (m.groups k) ≡ get_id gs (m.groups k)
    frame-id k lt = get_id-ext created gs _ _ (frame-object k lt)

    block-id : get_id created block ≡ m.next_id
    unfolding get_id
    block-id = rw (update_self gs block (some (fresh_group m.next_id garbage)), get_id)

    new_key : (k : ℕ) → k < m.count → get_id gs (m.groups k) ≢ get_id created block
    new_key k lt e = omega (arith, id-lt m gs v k lt, e, block-id)

    pub created-IsGroups : IsGroups created_table created
    created-IsGroups = record {
      fixed = v.fixed;
      fits = omega arith;
      next_min = omega (arith, v.next_min);
      next_max = omega (arith, v.next_min);
      object = λ i lt. elim (last_or_before i m.count lt) [
        | inl last ↦ (
          fresh_group m.next_id garbage,
          ap (λ k. created (created_table.groups k)) last
              ∙ ap created (update_self m.groups m.count block)
              ∙ update_self gs block _,
          v.next_min,
          omega arith,
        )
        | inr old ↦
            let (grp, object, low, high) = v.object i old in
            (
              grp,
              ap created (update_ne m.groups m.count i block (omega arith))
                  ∙ frame-object i old
                  ∙ object,
              low,
              omega arith,
            )
      ];
      address = λ i lt e. elim (last_or_before i m.count lt) [
        | inl last ↦
            live (sym (update_self m.groups m.count block) ∙ ap created_table.groups (sym last) ∙ e)
        | inr old ↦ v.address i old (sym (update_ne m.groups m.count i block (omega arith)) ∙ e)
      ];
      distinct =
          Keyed.Distinct-push ◌==◌ ==_iff m.groups (get_id gs) (get_id created) m.count block
            v.distinct frame-id new_key;
    }

    pub get-created :
        (id : ℕ)
        → id ≢ invalid_pgid
        → get created_table created id ≡ (if id == m.next_id then block else get m gs id)
    unfolding get find_index
    get-created id valid = rw (==_ne id invalid_pgid valid) (
        Keyed.lookup-push ◌==◌ ==_iff m.groups (get_id gs) (get_id created) m.count block v.distinct
          frame-id new_key id
        ∙ ap (λ j. if id == j then block else slot m.groups (find_index m gs id)) block-id)

-- The entries are as they were; an id may have been used up.
pub record Unchanged (m m' : ProcessGroupManager) : Type 0 where
  pub groups : m'.groups ≡ m.groups
  pub count : m'.count ≡ m.count
  pub capacity : m'.capacity ≡ m.capacity
  pub next_low : m.next_id ≤ m'.next_id
  pub next_high : m'.next_id ≤ 4294967295

-- The conditions under which a group is made.
pub record Admitted (m : ProcessGroupManager) (block : Ptr) (members : Bool) : Type 0 where
  pub array : members ≡ true
  pub room : m.count < 16
  pub ids_left : m.next_id < 4294967295
  pub allocated : block ≢ null

-- The conditions under which none is.
abbrev pub IsRefused : ProcessGroupManager → Ptr → (members : Bool) → Type 0
IsRefused m block members =
    (members ≡ false) ⊎ (m.count ≡ 16) ⊎ (m.next_id ≡ 4294967295) ⊎ (block ≡ null)

pub create_group-cases :
    (m : ProcessGroupManager) (gs : Groups) (block : Ptr) (members : Bool) (garbage : ℕ)
    → IsGroups m gs
    → gs block ≡ none
    → (Admitted m block members
        × (create_group m gs block members garbage
            ≡ (block, created m gs block garbage, created_table m gs block garbage)))
      ⊎ (((create_group m gs block members garbage).0 ≡ null)
          × ((create_group m gs block members garbage).1 ≡ gs)
          × Unchanged m (create_group m gs block members garbage).2
          × IsRefused m block members)
unfolding create_group ProcessGroup.create
create_group-cases m gs block false garbage v fresh =
    inr (ground arith, ground arith, ground arith, inl refl)
create_group-cases m gs block true garbage v fresh = elim (Bool-cases (ltb m.count 16)) [
  | inl room ↦ elim (Bool-cases (ltb m.next_id 4294967295)) [
    | inl ids ↦ elim (Bool-cases (block == null)) [
      | inl gone ↦ inr (ground arith, ground arith, ground arith, inr (inr (inr (ground arith))))
      | inr live ↦ inl (
        ground arith,
        create_group-okay m gs block garbage v (ground arith) (ground arith) (ground arith) fresh,
      )
    ]
    | inr out ↦
        inr (ground arith, ground arith, ground arith, inr (inr (inl (ground (arith, v.next_max)))))
  ]
  | inr full ↦ inr (ground arith, ground arith, ground arith, inr (inl (ground (arith, v.fits))))
]

pub Unchanged-IsGroups :
    (m m' : ProcessGroupManager) (gs : Groups) → IsGroups m gs → Unchanged m m' → IsGroups m' gs
Unchanged-IsGroups m m' gs v u = record {
  fixed = u.capacity ∙ v.fixed;
  fits = omega (arith, v.fits, u.count);
  next_min = omega (arith, v.next_min, u.next_low);
  next_max = u.next_high;
  object = λ i lt.
      let (grp, object, low, high) = v.object i (omega (arith, u.count)) in
      (grp, ap (λ (f : ℕ → Ptr). gs (f i)) u.groups ∙ object, low, omega (arith, u.next_low));
  address =
      λ i lt e. v.address i (omega (arith, u.count)) (ap (λ (f : ℕ → Ptr). f i) (sym u.groups) ∙ e);
  distinct = λ i j lt lt' e. v.distinct i j lt (omega (arith, u.count)) (
      ap (λ (f : ℕ → Ptr). get_id gs (f i)) (sym u.groups)
      ∙ e
      ∙ ap (λ (f : ℕ → Ptr). get_id gs (f j)) u.groups);
}

pub Unchanged-get :
    (m m' : ProcessGroupManager) (gs : Groups) (id : ℕ)
    → Unchanged m m'
    → get m' gs id ≡ get m gs id
unfolding get find_index
Unchanged-get m m' gs id u =
    ap₂
      (λ (slots : ℕ → Ptr) (n : ℕ).
        if id == invalid_pgid then null else Keyed.lookup ◌==◌ ==_iff slots (get_id gs) n id)
      u.groups u.count

-- A result of `create_group`: a new empty group under the next id, every other id leading where it
-- led; or NULL, with the heap and the entries as they were, for want of memory, a slot or an id. Both
-- keep the table well formed.
abbrev pub Opens :
    ProcessGroupManager
    → Groups
    → Ptr
    → (members : Bool) → (garbage : ℕ) → Ptr × Groups × ProcessGroupManager
    → Type 0
Opens m gs block members garbage (g, gs', m') =
    IsGroups m' gs'
    × (((g ≢ null)
          × (gs' ≡ update gs g (some (fresh_group m.next_id garbage)))
          × (contents m'.groups m'.count ≡ g ∷ contents m.groups m.count)
          × ((id : ℕ)
              → id ≢ invalid_pgid
              → get m' gs' id ≡ (if id == m.next_id then g else get m gs id)))
        ⊎ ((g ≡ null)
            × (gs' ≡ gs)
            × (contents m'.groups m'.count ≡ contents m.groups m.count)
            × IsRefused m block members))

-- On a well-formed table, with a block from `malloc` that is not in use, `create_group` opens an
-- empty group under the next id, or returns NULL for want of memory, a slot or an id; it disturbs no
-- group that is there and keeps the table well formed.
pub create_group-Opens :
    (m : ProcessGroupManager) (gs : Groups) (block : Ptr) (members : Bool) (garbage : ℕ)
    → IsGroups m gs
    → gs block ≡ none
    → Opens m gs block members garbage (create_group m gs block members garbage)
create_group-Opens m gs block members garbage v fresh =
    elim (create_group-cases m gs block members garbage v fresh) [
      | inl (a, e) ↦ subst (Opens m gs block members garbage) (sym e) (
        created-IsGroups m gs block garbage v a.room a.ids_left a.allocated fresh,
        inl (
          a.allocated,
          refl,
          ap (contents (update m.groups m.count block)) (add-one m.count)
              ∙ contents-push m.groups m.count block,
          get-created m gs block garbage v a.room a.ids_left a.allocated fresh,
        ),
      )
      | inr (gone, same, u, why) ↦ (
        subst (IsGroups (create_group m gs block members garbage).2) (sym same)
            (Unchanged-IsGroups m _ gs v u),
        inr (gone, same, ap₂ contents u.groups u.count, why),
      )
    ]
