-- ===== src/Runtime/Membership/Processes.antt =====
-- The members of the groups while processes are made and destroyed.
use embla.Prelude.{
  ℕ, ◌<◌, ◌≡◌, ◌≢◌, refl, sym, ap, ◌∙◌, inl, inr, false, Option, none, some, success, arith, ◌==◌,
  ==_iff, ==_refl, Bool-cases, subst, update, if◌then◌else◌,
}
use mathlib.Core.Option.{none-ne-some}
use embla.Process.{Ptr, null, CString, Heap, Process, get_id, get_group_id, invalid_pid}
use embla.ProcessManager.{ProcessManager, get, destroy_process}
use embla.ProcessManager.Invariant.{IsTable}
use embla.ProcessManager.Create.{created_heap, created_table, get-created, Unchanged, Unchanged-get}
use embla.ProcessManager.Destroy.{destroy_process-Removes}
use embla.ProcessGroup.{Groups}
use embla.ProcessGroupManager
use embla.ProcessGroupManager.{ProcessGroupManager}
use embla.Runtime.Membership.{Alive, Holds, IsGrouped, got-process}

-- A live process has an object, and an id that was given out.
alive-object :
    (m : ProcessManager) (h : Heap) (q : Ptr) (gid : ℕ)
    → IsTable m h
    → Alive m h q gid
    → (get_id h q < m.next_pid) × ((pr : Process) × (h q ≡ some pr))
alive-object m h q gid v a =
    let (_, below, (pr, object)) =
      got-process m h (get_id h q) v (λ z. a.there (sym a.listed ∙ z)) in
    (below, (pr, ap h (sym a.listed) ∙ object))

off-get_id :
    (h : Heap) (p q : Ptr) (o : Option Process)
    → (p == q) ≡ false
    → get_id (update h p o) q ≡ get_id h q
unfolding get_id
off-get_id h p q o off = rw (off, get_id) refl

off-get_group_id :
    (h : Heap) (p q : Ptr) (o : Option Process)
    → (p == q) ≡ false
    → get_group_id (update h p o) q ≡ get_group_id h q
unfolding get_group_id
off-get_group_id h p q o off = rw (off, get_group_id) refl

module _ (m : ProcessManager) (h : Heap) (d : ProcessGroupManager) (gs : Groups) (vt : IsTable m h)
    (v : IsGrouped m h d gs) where
  module _ (p : Ptr) (parent gid : ℕ) (name : CString) (room : m.count < 16)
      (ids : m.next_pid < 4294967295) (live : p ≢ null) (fresh : h p ≡ none) where
    pub created-IsGrouped :
        IsGrouped (created_table m h p parent gid name) (created_heap m h p parent gid name) d gs
        × Alive (created_table m h p parent gid name) (created_heap m h p parent gid name) p gid
    unfolding get_id get_group_id
    created-IsGrouped = (
      record {
        member = λ id q there holds.
            let a = v.member id q there holds in
            let (below, (pr, object)) = alive-object m h q id vt a in
            elim (Bool-cases (p == q)) [
              | inl same ↦
                  absurd (none-ne-some pr (sym fresh ∙ ap h ((==_iff p q).0 same) ∙ object))
              | inr off ↦ record {
                there = a.there;
                of_group = off-get_group_id h p q _ off ∙ a.of_group;
                listed =
                    ap
                      (get (created_table m h p parent gid name)
                        (created_heap m h p parent gid name))
                      (off-get_id h p q _ off)
                    ∙ get-created m h p parent gid name vt room ids live fresh (get_id h q)
                    ∙ older q below
                    ∙ a.listed;
              }
            ];
        group = v.group;
      },
      record {
        there = live;
        of_group = rw (==_refl p, get_group_id) refl;
        listed =
            ap (get (created_table m h p parent gid name) (created_heap m h p parent gid name))
              (rw (==_refl p, get_id) refl)
            ∙ get-created m h p parent gid name vt room ids live fresh m.next_pid
            ∙ ap (λ b. if b then p else get m h m.next_pid) (==_refl m.next_pid);
      },
    )
      where
        older :
            (q : Ptr)
            → get_id h q < m.next_pid
            → (if get_id h q == m.next_pid then p else get m h (get_id h q)) ≡ get m h (get_id h q)
        older q below = elim (Bool-cases (get_id h q == m.next_pid)) [
          | inl same ↦ absurd (omega (arith, below, (==_iff _ _).0 same))
          | inr other ↦ rw other refl
        ]

  pub Unchanged-IsGrouped : (m' : ProcessManager) → Unchanged m m' → IsGrouped m' h d gs
  Unchanged-IsGrouped m' u = record {
    member = λ gid q live holds.
        let a = v.member gid q live holds in
        record {
          there = a.there;
          of_group = a.of_group;
          listed = Unchanged-get m m' h (get_id h q) u ∙ a.listed;
        };
    group = v.group;
  }

  -- A process that no group lists can go.
  pub destroyed-IsGrouped :
      (p : Ptr) (own : ℕ)
      → Alive m h p own
      → ((gid : ℕ)
          → ProcessGroupManager.get d gs gid ≢ null
          → ¬ Holds gs (ProcessGroupManager.get d gs gid) p)
      → (destroy_process m h (get_id h p)).0 ≡ success
        × IsGrouped (destroy_process m h (get_id h p)).2 (destroy_process m h (get_id h p)).1 d gs
  destroyed-IsGrouped p own alive unlisted =
      elim (destroy_process-Removes m h (get_id h p) vt valid) [
        | inr (_, (missing, _, _)) ↦ absurd (alive.there (sym alive.listed ∙ missing))
        | inl (code, (_, heap, _, got, _)) ↦ (
          code,
          record {
            member = λ gid q live holds.
                let a = v.member gid q live holds in
                elim (Bool-cases (p == q)) [
                  | inl same ↦ absurd (
                      unlisted gid live (
                        subst (Holds gs (ProcessGroupManager.get d gs gid))
                          (sym ((==_iff p q).0 same)) holds))
                  | inr off ↦
                      let is = heap ∙ ap (λ z. update h z none) alive.listed in
                      record {
                        there = a.there;
                        of_group =
                            ap (λ k. get_group_id k q) is
                            ∙ off-get_group_id h p q none off
                            ∙ a.of_group;
                        listed =
                            ap
                              (get (destroy_process m h (get_id h p)).2
                                (destroy_process m h (get_id h p)).1)
                              (ap (λ k. get_id k q) is ∙ off-get_id h p q none off)
                            ∙ got (get_id h q)
                            ∙ kept q off a.listed
                            ∙ a.listed;
                      }
                ];
            group = v.group;
          },
        )
      ]
    where
      valid : get_id h p ≢ invalid_pid
      valid z =
          let (below, _) = alive-object m h p own vt alive in omega (arith, vt.next_max, below, z)

      kept :
          (q : Ptr)
          → (p == q) ≡ false
          → get m h (get_id h q) ≡ q
          → (if get_id h q == get_id h p then null else get m h (get_id h q)) ≡ get m h (get_id h q)
      kept q off listed = elim (Bool-cases (get_id h q == get_id h p)) [
        | inl same ↦
            let equal : p ≡ q =
              sym alive.listed ∙ ap (get m h) (sym ((==_iff _ _).0 same)) ∙ listed in
            absurd (cc (off, (==_iff p q).1 equal))
        | inr other ↦ rw other refl
      ]
