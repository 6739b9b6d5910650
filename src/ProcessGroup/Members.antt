-- ===== src/ProcessGroup/Members.antt =====
-- A group as the collection of its members.
use native.Mathlib.Numerals.{add-one}
use embla.Prelude.{
  ℕ, zero, suc, ◌+◌, ◌-◌, ◌<◌, ◌≤◌, ◌≡◌, refl, sym, ap, ◌∙◌, ◌≢◌, ◌⊎◌, inl, inr, Bool, true, false,
  Option, none, some, arith, ◌==◌, ==_iff, ==_ne, ==_refl, Bool-cases, leb→le, subst, ℤ, success,
  failure, elem, List, ◌∷◌, Perm, update, leb,
}
use embla.Process.{Ptr, null, Heap, get_group_id}
use embla.Table.{find_from, contents, close_gap}
use embla.Table.Laws.{Search, find_from-Search, contents-push, contents-close_gap}
use embla.ProcessGroup.{ProcessGroup, Groups, add, remove, remove_at, find_index}

abbrev pub members : ProcessGroup → List Ptr
members grp = contents grp.processes grp.count

-- The array is never overrun, and no process is a member twice.
pub record IsGroup (grp : ProcessGroup) : Type 0 where
  pub fixed : grp.capacity ≡ 16
  pub fits : grp.count ≤ 16
  pub distinct : (i j : ℕ) → i < j → j < grp.count → grp.processes i ≢ grp.processes j

elem-contents : (slots : ℕ → Ptr) (n i : ℕ) → i < n → elem (slots i) (contents slots n) ≡ true
elem-contents slots zero i lt = elim lt [ ]
elem-contents slots (suc n) i lt = elim (Bool-cases (i == n)) [
  | inl same ↦ rw (ap (λ k. slots n == slots k) ((==_iff i n).0 same)) (rw (==_refl (slots n)))
  | inr other ↦ ground (arith, elem-contents slots n i (ground arith))
]

not_elem-contents :
    (slots : ℕ → Ptr) (n : ℕ) (p : Ptr)
    → ((i : ℕ) → i < n → (slots i == p) ≡ false)
    → elem p (contents slots n) ≡ false
not_elem-contents slots zero p h = refl
not_elem-contents slots (suc n) p h =
    rw (h n (omega arith)) (not_elem-contents slots n p (λ i lt. h i (omega arith)))

-- The search for a member finds it exactly if it is one.
pub find_index-cases :
    (grp : ProcessGroup) (p : Ptr)
    → ((k : ℕ) × (k < grp.count)
        × (find_index grp p ≡ some k)
        × (grp.processes k ≡ p)
        × (elem p (members grp) ≡ true))
      ⊎ ((find_index grp p ≡ none)
          × (elem p (members grp) ≡ false)
          × ((i : ℕ) → i < grp.count → (grp.processes i == p) ≡ false))
unfolding find_index
find_index-cases grp p = go (find_from slots test n 0) refl (find_from-Search slots test n 0)
  where
    slots : ℕ → Ptr
    slots = grp.processes

    n : ℕ
    n = grp.count

    test : Ptr → Bool
    test q = q == p

    go :
        (r : Option ℕ)
        → find_from slots test n 0 ≡ r
        → Search slots test n 0 r
        → ((k : ℕ) × (k < n)
            × (find_from slots test n 0 ≡ some k)
            × (slots k ≡ p)
            × (elem p (contents slots n) ≡ true))
          ⊎ ((find_from slots test n 0 ≡ none)
              × (elem p (contents slots n) ≡ false)
              × ((i : ℕ) → i < n → (slots i == p) ≡ false))
    go none e absent =
        let away : (i : ℕ) → i < n → (slots i == p) ≡ false =
          λ i lt. absent i (omega arith) (omega arith) in
        inr (e, not_elem-contents slots n p away, away)
    go (some k) e (_, within, pass, _) =
        let is : slots k ≡ p = (==_iff (slots k) p).0 pass in
        inl (
          k,
          omega arith,
          e,
          is,
          subst (λ q. elem q (contents slots n) ≡ true) is (elem-contents slots n k (omega arith)),
        )

abbrev joined : ProcessGroup → Ptr → ProcessGroup
joined grp p = record grp { processes = update grp.processes grp.count p; count = grp.count + 1 }

joined-members : (grp : ProcessGroup) (p : Ptr) → members (joined grp p) ≡ p ∷ members grp
joined-members grp p =
    ap (contents (update grp.processes grp.count p)) (add-one grp.count)
    ∙ contents-push grp.processes grp.count p

joined-IsGroup :
    (grp : ProcessGroup) (p : Ptr)
    → IsGroup grp
    → grp.count < 16
    → ((i : ℕ) → i < grp.count → (grp.processes i == p) ≡ false)
    → IsGroup (joined grp p)
joined-IsGroup grp p v room away = record {
  fixed = v.fixed;
  fits = omega arith;
  distinct = λ i j lt lt'. ground (arith, v.distinct i j lt, away i, away j);
}

-- A result of `add` on a live group. If it succeeds, the process is live for the group's id, was
-- not a member, and is the one new member of a group that is otherwise the same; if it fails, no
-- group has changed, and one of the four reasons holds.
abbrev pub Joins : Groups → Heap → Ptr → Ptr → ProcessGroup → ℤ × Groups → Type 0
Joins gs h g p grp (code, gs') =
    ((code ≡ success)
      × ((p ≢ null)
          × (get_group_id h p ≡ grp.id)
          × (elem p (members grp) ≡ false)
          × ((new : ProcessGroup) × (gs' ≡ update gs g (some new))
              × (members new ≡ p ∷ members grp)
              × (new.id ≡ grp.id)
              × IsGroup new
              × (new ≡ record grp { processes = new.processes; count = new.count }))))
    ⊎ ((code ≡ failure)
        × ((gs' ≡ gs)
            × ((p ≡ null)
                ⊎ (grp.count ≡ 16)
                ⊎ (get_group_id h p ≢ grp.id)
                ⊎ (elem p (members grp) ≡ true))))

-- `add` on a well-formed group keeps it well formed, admits a process of its own id that is not a
-- member while there is room, and refuses every other.
pub add-Joins :
    (gs : Groups) (h : Heap) (g p : Ptr) (grp : ProcessGroup)
    → gs g ≡ some grp
    → IsGroup grp
    → Joins gs h g p grp (add gs h g p)
unfolding add
add-Joins gs h g p grp e v = elim (Bool-cases (p == null)) [
  | inl gone ↦ rw (e, add, gone) (inr (refl, (refl, inl ((==_iff p null).0 gone))))
  | inr live ↦ elim (Bool-cases (leb grp.capacity grp.count)) [
    | inl full ↦
        rw (e, add, live, full)
          (inr (refl, (refl, inr (inl (omega (arith, v.fixed, v.fits, leb→le _ _ full))))))
    | inr room ↦ elim (Bool-cases (get_group_id h p == grp.id)) [
      | inr alien ↦
          rw (e, add, live, room, alien)
            (inr (refl, (refl, inr (inr (inl (λ same. cc (alien, (==_iff _ _).1 same)))))))
      | inl same ↦ elim (find_index-cases grp p) [
        | inl (k, lt, found, is, member) ↦
            rw (e, add, live, room, same, found) (inr (refl, (refl, inr (inr (inr member)))))
        | inr (absent, stranger, away) ↦
            rw (e, add, live, room, same, absent)
              (inl (
                refl,
                (
                  (λ z. cc (live, (==_iff p null).1 z)),
                  (==_iff _ _).0 same,
                  stranger,
                  (
                    joined grp p,
                    refl,
                    joined-members grp p,
                    refl,
                    joined-IsGroup grp p v (ground arith) away,
                    refl,
                  ),
                ),
              ))
      ]
    ]
  ]
]

abbrev left : ProcessGroup → ℕ → ProcessGroup
left grp k = record grp {
  processes = close_gap grp.processes k (grp.count - 1);
  count = grp.count - 1;
}

left-members :
    (grp : ProcessGroup) (k : ℕ)
    → k < grp.count
    → Perm (members grp) (grp.processes k ∷ members (left grp k))
left-members grp k lt =
    let e : grp.count ≡ suc (grp.count - 1) = omega arith in
    subst (λ n. Perm (contents grp.processes n) (grp.processes k ∷ members (left grp k))) (sym e)
      (contents-close_gap grp.processes k (grp.count - 1) (omega arith))

left-IsGroup : (grp : ProcessGroup) (k : ℕ) → IsGroup grp → k < grp.count → IsGroup (left grp k)
unfolding close_gap
left-IsGroup grp k v lt = record {
  fixed = v.fixed;
  fits = omega (arith, v.fits);
  distinct = λ i j before within.
      ground
        (arith, v.distinct i j before, v.distinct i (grp.count - 1), v.distinct j (grp.count - 1));
}

left-forgets :
    (grp : ProcessGroup) (k : ℕ) (p : Ptr)
    → IsGroup grp
    → k < grp.count
    → grp.processes k ≡ p
    → elem p (members (left grp k)) ≡ false
unfolding close_gap
left-forgets grp k p v lt is =
    not_elem-contents _ (grp.count - 1) p
      (λ i within. ground (arith, v.distinct i k, v.distinct k i, v.distinct k (grp.count - 1), is))

-- A result of `remove` on a live group: a member leaves for good and every other stays, or the process was
-- no member and no group has changed.
abbrev pub Leaves : Groups → Ptr → Ptr → ProcessGroup → ℤ × Groups → Type 0
Leaves gs g p grp (code, gs') =
    ((code ≡ success)
      × ((elem p (members grp) ≡ true)
          × ((new : ProcessGroup) × (gs' ≡ update gs g (some new))
              × Perm (members grp) (p ∷ members new)
              × (suc new.count ≡ grp.count)
              × (new.id ≡ grp.id)
              × IsGroup new
              × (elem p (members new) ≡ false)
              × (new ≡ record grp { processes = new.processes; count = new.count }))))
    ⊎ ((code ≡ failure) × ((elem p (members grp) ≡ false) × (gs' ≡ gs)))

-- `remove` takes exactly one member out of a well-formed group and keeps it well formed.
pub remove-Leaves :
    (gs : Groups) (g p : Ptr) (grp : ProcessGroup)
    → gs g ≡ some grp
    → IsGroup grp
    → p ≢ null
    → Leaves gs g p grp (remove gs g p)
unfolding remove remove_at
remove-Leaves gs g p grp e v live = elim (find_index-cases grp p) [
  | inl (k, lt, found, is, member) ↦
      rw (e, remove, ==_ne p null live, found, remove_at)
        (inl (
          refl,
          (
            member,
            (
              left grp k,
              refl,
              subst (λ q. Perm (members grp) (q ∷ members (left grp k))) is (left-members grp k lt),
              omega arith,
              refl,
              left-IsGroup grp k v lt,
              left-forgets grp k p v lt is,
              refl,
            ),
          ),
        ))
  | inr (absent, stranger, _) ↦
      rw (e, remove, ==_ne p null live, absent, remove_at) (inr (refl, (stranger, refl)))
]
