-- ===== src/Runtime/Membership/Lists.antt =====
-- The members of the groups while groups are written, made and destroyed.
use embla.Prelude.{
  ℕ, ◌<◌, ◌≡◌, ◌≢◌, refl, sym, ap, ◌∙◌, ◌⊎◌, inl, inr, true, false, none, some, List, ◌∷◌, elem,
  elem-Perm, ℤ, arith, ◌==◌, ◌||◌, ==_iff, Bool-cases, subst, update, update_self, if◌then◌else◌,
}
use mathlib.Core.Option.{some-injective, none-ne-some}
use embla.Process.{Ptr, null, Heap, invalid_pgid}
use embla.ProcessManager.{ProcessManager}
use embla.ProcessGroup
use embla.ProcessGroup.{ProcessGroup, Groups, fresh_group, add, remove, set_host_id}
use embla.ProcessGroup.Members.{IsGroup, members, add-Joins, remove-Leaves}
use embla.ProcessGroupManager.{ProcessGroupManager, get}
use embla.ProcessGroupManager.Directory.{IsGroups, created, created_table, get-created}
use embla.ProcessGroupManager.Frame.{get-frame}
use embla.Runtime.Membership.{Alive, Holds, IsGrouped, got-group}

-- Writing a group of the same id over another keeps all ids.
write-get_id :
    (gs : Groups) (g : Ptr) (x y : ProcessGroup)
    → gs g ≡ some x
    → y.id ≡ x.id
    → (q : Ptr) → ProcessGroup.get_id (update gs g (some y)) q ≡ ProcessGroup.get_id gs q
unfolding ProcessGroup.get_id
write-get_id gs g x y there same q = elim (Bool-cases (g == q)) [
  | inl here ↦
      rw (here, ProcessGroup.get_id)
        (same ∙ sym (rw (sym (ap gs ((==_iff g q).0 here)) ∙ there, ProcessGroup.get_id) refl))
  | inr off ↦ rw (off, ProcessGroup.get_id) refl
]

written-get :
    (d : ProcessGroupManager) (gs : Groups) (g : Ptr) (x y : ProcessGroup)
    → gs g ≡ some x
    → y.id ≡ x.id
    → (gid : ℕ) → get d (update gs g (some y)) gid ≡ get d gs gid
written-get d gs g x y there same gid =
    get-frame d gs (update gs g (some y)) gid (write-get_id gs g x y there same)

module _ (m : ProcessManager) (h : Heap) (d : ProcessGroupManager) (gs : Groups)
    (vd : IsGroups d gs) (v : IsGrouped m h d gs) where
  -- A group may be written over, if its new members are live processes of its own.
  pub written-IsGrouped :
      (g : Ptr) (x y : ProcessGroup)
      → gs g ≡ some x
      → y.id ≡ x.id
      → ((gid : ℕ)
          → get d gs gid ≢ null
          → get d gs gid ≡ g
          → IsGroup y × ((q : Ptr) → elem q (members y) ≡ true → Alive m h q gid))
      → IsGrouped m h d (update gs g (some y))
  written-IsGrouped g x y there same fine = record {
    member = λ gid q live holds.
        let is = written-get d gs g x y there same gid in
        member_at gid q (λ z. live (is ∙ z))
          (subst (λ p. Holds (update gs g (some y)) p q) is holds);
    group = λ gid grp live at.
        let is = written-get d gs g x y there same gid in
        group_at gid grp (λ z. live (is ∙ z)) (ap (update gs g (some y)) (sym is) ∙ at);
  }
    where
      member_at :
          (gid : ℕ) (q : Ptr)
          → get d gs gid ≢ null
          → Holds (update gs g (some y)) (get d gs gid) q
          → Alive m h q gid
      member_at gid q live (grp, at, listed) = elim (Bool-cases (g == get d gs gid)) [
        | inl here ↦
            let own : y ≡ grp = some-injective y grp (rw here at at) in
            (fine gid live (sym ((==_iff _ _).0 here))).1 q
              (subst (λ k. elem q (members k) ≡ true) (sym own) listed)
        | inr off ↦ v.member gid q live (grp, rw off at at, listed)
      ]

      group_at :
          (gid : ℕ) (grp : ProcessGroup)
          → get d gs gid ≢ null
          → update gs g (some y) (get d gs gid) ≡ some grp
          → IsGroup grp
      group_at gid grp live at = elim (Bool-cases (g == get d gs gid)) [
        | inl here ↦
            subst IsGroup (some-injective y grp (rw here at at))
              (fine gid live (sym ((==_iff _ _).0 here))).0
        | inr off ↦ v.group gid grp live (rw off at at)
      ]

  -- Two ids do not lead to the same group.
  pub same_id :
      (gid j : ℕ) → get d gs gid ≢ null → get d gs j ≢ null → get d gs gid ≡ get d gs j → gid ≡ j
  same_id gid j live live' e =
      sym (got-group d gs gid vd live).0
      ∙ ap (ProcessGroup.get_id gs) e
      ∙ (got-group d gs j vd live').0

  pub opened-IsGrouped :
      (g : Ptr) (garbage : ℕ)
      → d.count < 16
      → d.next_id < 4294967295
      → g ≢ null
      → gs g ≡ none
      → IsGrouped m h (created_table d gs g garbage) (created d gs g garbage)
  opened-IsGrouped g garbage room ids live fresh = record {
    member = λ gid q there holds. member_at gid q there holds;
    group = λ gid grp there at. group_at gid grp there at;
  }
    where
      d' : ProcessGroupManager
      d' = created_table d gs g garbage

      gs' : Groups
      gs' = created d gs g garbage

      -- The group is the new one, or one that was there.
      which :
          (gid : ℕ)
          → get d' gs' gid ≢ null
          → (get d' gs' gid ≡ g) ⊎ ((get d gs gid ≢ null) × (get d' gs' gid ≡ get d gs gid))
      which gid there = elim (Bool-cases (gid == invalid_pgid)) [
        | inl out ↦ absurd (there (unfold get in rw out refl))
        | inr valid ↦
            let is =
              get-created d gs g garbage vd room ids live fresh gid
                (λ z. cc (valid, (==_iff gid invalid_pgid).1 z)) in
            elim (Bool-cases (gid == d.next_id)) [
              | inl own ↦ inl (is ∙ ap (λ b. if b then g else get d gs gid) own)
              | inr other ↦
                  let old = is ∙ ap (λ b. if b then g else get d gs gid) other in
                  inr ((λ z. there (old ∙ z)), old)
            ]
      ]

      old_group :
          (gid : ℕ) (grp : ProcessGroup)
          → get d gs gid ≢ null
          → gs' (get d gs gid) ≡ some grp
          → gs (get d gs gid) ≡ some grp
      old_group gid grp there at = elim (Bool-cases (g == get d gs gid)) [
        | inl here ↦
            let (_, _, _, (x, object, _)) = got-group d gs gid vd there in
            absurd (none-ne-some x (sym fresh ∙ ap gs ((==_iff _ _).0 here) ∙ object))
        | inr off ↦ rw off at at
      ]

      new_group :
          (gid : ℕ) (grp : ProcessGroup)
          → get d' gs' gid ≡ g
          → gs' (get d' gs' gid) ≡ some grp
          → fresh_group d.next_id garbage ≡ grp
      new_group gid grp is at =
          some-injective _ grp
            (sym (update_self gs g (some (fresh_group d.next_id garbage))) ∙ ap gs' (sym is) ∙ at)

      member_at :
          (gid : ℕ) (q : Ptr)
          → get d' gs' gid ≢ null
          → Holds gs' (get d' gs' gid) q
          → Alive m h q gid
      member_at gid q there (grp, at, listed) = elim (which gid there) [
        | inl is ↦
            let bad : false ≡ true =
              subst (λ k. elem q (members k) ≡ true) (sym (new_group gid grp is at)) listed in
            absurd cc
        | inr (live', is) ↦
            v.member gid q live' (grp, old_group gid grp live' (ap gs' (sym is) ∙ at), listed)
      ]

      group_at :
          (gid : ℕ) (grp : ProcessGroup)
          → get d' gs' gid ≢ null
          → gs' (get d' gs' gid) ≡ some grp
          → IsGroup grp
      group_at gid grp there at = elim (which gid there) [
        | inl is ↦ subst IsGroup (new_group gid grp is at) (record {
          fixed = refl;
          fits = omega arith;
          distinct = λ i j before within. absurd (omega arith);
        })
        | inr (live', is) ↦ v.group gid grp live' (old_group gid grp live' (ap gs' (sym is) ∙ at))
      ]

  -- A group and a live process of it.
  module _ (own : ℕ) (g p : Ptr) (at : get d gs own ≡ g) (live : g ≢ null)
      (alive : Alive m h p own) where
    there : get d gs own ≢ null
    there z = live (sym at ∙ z)

    object : (grp : ProcessGroup) × (gs g ≡ some grp) × (grp.id ≡ own) × IsGroup grp
    object =
        let (_, _, _, (grp, is, same)) = got-group d gs own vd there in
        (grp, ap gs (sym at) ∙ is, same, v.group own grp there is)

    same_own : (gid : ℕ) → get d gs gid ≢ null → get d gs gid ≡ g → gid ≡ own
    same_own gid live' is = same_id gid own live' there (is ∙ sym at)

    -- The group's id leads to it still, and its members are as they should be.
    abbrev pub StillGrouped : Groups → Type 0
    StillGrouped gs' = IsGrouped m h d gs' × (get d gs' own ≡ g)

    pub added-StillGrouped : StillGrouped (add gs h g p).1
    added-StillGrouped =
        let (grp, is, same, well) = object in
        elim (add-Joins gs h g p grp is well) [
          | inr (_, (unchanged, _)) ↦ subst StillGrouped (sym unchanged) (v, at)
          | inl (_, (_, mine, _, (new, now, list, same_new, fine, _))) ↦
              subst StillGrouped (sym now) (
                written-IsGrouped g grp new is same_new (λ gid live' here. (
                  fine,
                  λ q listed. elim (Bool-cases (p == q)) [
                    | inl it ↦
                        subst (λ z. Alive m h z gid) ((==_iff p q).0 it)
                          (subst (Alive m h p) (sym (same_own gid live' here)) alive)
                    | inr other ↦
                        v.member gid q live'
                          (grp, ap gs here ∙ is, rw other at (ap (elem q) (sym list) ∙ listed))
                  ],
                )),
                written-get d gs g grp new is same_new own ∙ at,
              )
        ]

    pub hosted-StillGrouped : (host : ℤ) → StillGrouped (set_host_id gs g host).1
    unfolding set_host_id
    hosted-StillGrouped host =
        let (grp, is, same, well) = object in
        rw (is, set_host_id)
          (
            written-IsGrouped g grp (record grp { host_id = host }) is refl
                (λ gid live' here. (
                  record { fixed = well.fixed; fits = well.fits; distinct = well.distinct },
                  λ q listed. v.member gid q live' (grp, ap gs here ∙ is, listed),
                )),
            written-get d gs g grp (record grp { host_id = host }) is refl own ∙ at,
          )

    -- After it has left, no group lists the process.
    pub left-StillGrouped :
        StillGrouped (remove gs g p).1
        × ((gid : ℕ)
            → get d (remove gs g p).1 gid ≢ null
            → ¬ Holds (remove gs g p).1 (get d (remove gs g p).1 gid) p)
    left-StillGrouped =
        let (grp, is, same, well) = object in
        elim (remove-Leaves gs g p grp is well alive.there) [
          | inr (_, (stranger, unchanged)) ↦ subst Gone (sym unchanged) (
            (v, at),
            unlisted gs v at (λ (grp', is', listed).
                let e : grp ≡ grp' = some-injective grp grp' (sym is ∙ is') in
                absurd (cc (stranger, ap (λ k. elem p (members k)) e, listed))),
          )
          | inl (_, (_, (new, now, perm, _, same_new, fine, gone, _))) ↦
              let v' = written-IsGrouped g grp new is same_new (λ gid live' here. (
                fine,
                λ q listed. v.member gid q live' (
                  grp,
                  ap gs here ∙ is,
                  elem-Perm q (members grp) (p ∷ members new) perm
                      ∙ or_right (members new) q listed,
                ),
              )) in
              let at' = written-get d gs g grp new is same_new own ∙ at in
              subst Gone (sym now) (
                (v', at'),
                unlisted (update gs g (some new)) v' at' (λ (grp', is', listed).
                    let e : new ≡ grp' =
                      some-injective new grp' (sym (update_self gs g (some new)) ∙ is') in
                    absurd (cc (gone, ap (λ k. elem p (members k)) e, listed))),
              )
        ]
      where
        Gone : Groups → Type 0
        Gone gs' =
            StillGrouped gs' × ((gid : ℕ) → get d gs' gid ≢ null → ¬ Holds gs' (get d gs' gid) p)

        unlisted :
            (gs' : Groups)
            → IsGrouped m h d gs'
            → get d gs' own ≡ g
            → ¬ Holds gs' g p
            → (gid : ℕ) → get d gs' gid ≢ null
            → ¬ Holds gs' (get d gs' gid) p
        unlisted gs' v' at' out gid live' holds =
            let same = sym (v'.member gid p live' holds).of_group ∙ alive.of_group in
            out (subst (λ k. Holds gs' k p) (ap (get d gs') same ∙ at') holds)

        or_right : (rest : List Ptr) (q : Ptr) → elem q rest ≡ true → (p == q || elem q rest) ≡ true
        or_right rest q listed = elim (Bool-cases (p == q)) [
          | inl it ↦ rw it refl
          | inr other ↦ rw other listed
        ]
