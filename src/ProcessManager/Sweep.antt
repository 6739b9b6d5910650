-- ===== src/ProcessManager/Sweep.antt =====
-- The loop of `reparent_children` as one pass over the slots of the table.
use embla.Prelude.{
  ℕ, zero, suc, ◌+◌, ◌-◌, ◌<◌, ◌≤◌, ◌≡◌, refl, sym, ap, ◌∙◌, ◌≢◌, inl, inr, Bool, true, false,
  Option, none, some, arith, ◌==◌, ==_iff, ==_ne, ==_refl, Bool-cases, update, if◌then◌else◌, ◌||◌,
  ◌&&◌, success,
}
use embla.Process.{Ptr, null, Heap, Process, get_parent_id, set_parent_id, modify}
use embla.ProcessManager.{
  ProcessManager, ChildIterator, child_from, child_iterator_next, reparent_loop,
}

-- A process as its new parent sees it.
abbrev pub adopt : (parent parent' : ℕ) → Option Process → Option Process
adopt parent parent' none = none
adopt parent parent' (some pr) =
    if pr.parent_id == parent then some (record pr { parent_id = parent' }) else some pr

module _ (m : ProcessManager) (parent parent' : ℕ) where
  abbrev pub child : Heap → ℕ → Bool
  child h i = get_parent_id h (m.processes i) == parent

  -- One slot, and a run of slots.
  abbrev pub adopt_at : Heap → ℕ → Heap
  adopt_at h i = if child h i then (set_parent_id h (m.processes i) parent').1 else h

  abbrev pub sweep : (left i : ℕ) → Heap → Heap
  sweep zero i h = h
  sweep (suc left) i h = sweep left (i + 1) (adopt_at h i)

  abbrev pub IsLive : Heap → ℕ → Type 0
  IsLive h i = (m.processes i ≢ null) × ((pr : Process) × (h (m.processes i) ≡ some pr))

  abbrev pub touched : Ptr → (left i : ℕ) → Bool
  touched q zero i = false
  touched q (suc left) i = m.processes i == q || touched q left (i + 1)

  adopt_at-live :
      (h : Heap) (i : ℕ) (pr : Process)
      → h (m.processes i) ≡ some pr
      → adopt_at h i ≡ (
          if pr.parent_id == parent
          then update h (m.processes i) (some (record pr { parent_id = parent' }))
          else h)
  unfolding get_parent_id set_parent_id modify
  adopt_at-live h i pr e = rw (e, modify, get_parent_id)

  pub adopt_at-lookup :
      (h : Heap) (i : ℕ) (q : Ptr)
      → IsLive h i
      → adopt_at h i q ≡ (if m.processes i == q then adopt parent parent' (h q) else h q)
  adopt_at-lookup h i q (live, (pr, e)) =
      rw (adopt_at-live h i pr e) (elim (Bool-cases (m.processes i == q)) [
        | inl same ↦
            let here : h q ≡ some pr = ap h (sym ((==_iff (m.processes i) q).0 same)) ∙ e in
            rw (same, here)
              (elim (Bool-cases (pr.parent_id == parent)) [
                | inl mine ↦ rw (mine, same) refl
                | inr other ↦ rw (other, here) refl
              ])
        | inr apart ↦ rw apart (elim (Bool-cases (pr.parent_id == parent)) [
          | inl mine ↦ rw (mine, apart) refl
          | inr other ↦ rw other refl
        ])
      ])

  next_at : (i : ℕ) → i < m.count → m.count - i ≡ suc (m.count - (i + 1))
  next_at i lt = omega arith

  child_from-skip :
      (h : Heap) (i : ℕ)
      → i < m.count
      → child h i ≡ false
      → child_from m h parent (m.count - i) i ≡ child_from m h parent (m.count - (i + 1)) (i + 1)
  unfolding child_from
  child_from-skip h i lt alien = rw (next_at i lt) (rw alien refl)

  child_from-take :
      (h : Heap) (i : ℕ)
      → i < m.count
      → child h i ≡ true
      → child_from m h parent (m.count - i) i ≡ (m.processes i, i + 1)
  unfolding child_from
  child_from-take h i lt mine = rw (next_at i lt) (rw mine refl)

  child_from-end :
      (h : Heap) (i : ℕ) → m.count ≤ i → child_from m h parent (m.count - i) i ≡ (null, i)
  unfolding child_from
  child_from-end h i le = let none_left : m.count - i ≡ 0 = omega arith in rw none_left refl

  abbrev pub at : ℕ → ChildIterator
  at i = record { parent_id = parent; index = i }

  loop-skip :
      (f : ℕ) (h : Heap) (i : ℕ)
      → i < m.count
      → child h i ≡ false
      → reparent_loop m parent' (suc f) h (at i) ≡ reparent_loop m parent' (suc f) h (at (i + 1))
  unfolding reparent_loop child_iterator_next
  loop-skip f h i lt alien = rw (child_from-skip h i lt alien) refl

  loop-take :
      (f : ℕ) (h : Heap) (i : ℕ)
      → i < m.count
      → IsLive h i
      → child h i ≡ true
      → reparent_loop m parent' (suc f) h (at i)
        ≡ reparent_loop m parent' f (adopt_at h i) (at (i + 1))
  unfolding reparent_loop child_iterator_next set_parent_id modify
  loop-take f h i lt (live, (pr, e)) mine =
      rw (child_from-take h i lt mine)
        (rw (==_ne (m.processes i) null live) (rw mine (rw (e, modify, if◌then◌else◌) refl)))

  loop-end :
      (f : ℕ) (h : Heap) (i : ℕ)
      → m.count ≤ i
      → reparent_loop m parent' (suc f) h (at i) ≡ (success, h)
  unfolding reparent_loop child_iterator_next
  loop-end f h i le = rw (child_from-end h i le) refl

  adopt_at-IsLive : (h : Heap) (i j : ℕ) → IsLive h i → IsLive h j → IsLive (adopt_at h i) j
  adopt_at-IsLive h i j there (live, (pr, e)) = (
    live,
    (
      if m.processes i == m.processes j && pr.parent_id == parent
          then record pr { parent_id = parent' }
          else pr,
      adopt_at-lookup h i (m.processes j) there ∙ (rw e (ground arith)),
    ),
  )

  -- The loop is the sweep over the slots that are left.
  pub loop-sweep :
      (left i f : ℕ) (h : Heap)
      → i + left ≡ m.count
      → left < f
      → ((j : ℕ) → j < m.count → IsLive h j)
      → reparent_loop m parent' f h (at i) ≡ (success, sweep left i h)
  loop-sweep left i zero h e lt live = absurd (omega arith)
  loop-sweep zero i (suc f) h e lt live = loop-end f h i (omega arith)
  loop-sweep (suc left) i (suc f) h e lt live = elim (Bool-cases (child h i)) [
    | inl mine ↦
        loop-take f h i (omega arith) (live i (omega arith)) mine
        ∙ loop-sweep left (i + 1) f (adopt_at h i) (omega arith) (omega arith)
            (λ j below. adopt_at-IsLive h i j (live i (omega arith)) (live j below))
    | inr alien ↦
        loop-skip f h i (omega arith) alien
        ∙ loop-sweep left (i + 1) (suc f) h (omega arith) (omega arith) live
        ∙ (rw alien refl)
  ]

  adopt_twice :
      parent ≢ parent'
      → (o : Option Process)
      → adopt parent parent' (adopt parent parent' o) ≡ adopt parent parent' o
  adopt_twice apart none = refl
  adopt_twice apart (some pr) = elim (Bool-cases (pr.parent_id == parent)) [
    | inl mine ↦ rw mine (rw (==_ne parent' parent (λ e. apart (sym e))) refl)
    | inr other ↦ rw other (rw other refl)
  ]

  pub sweep-lookup :
      (left i : ℕ) (h : Heap) (q : Ptr)
      → parent ≢ parent'
      → i + left ≡ m.count
      → ((j : ℕ) → j < m.count → IsLive h j)
      → sweep left i h q ≡ (if touched q left i then adopt parent parent' (h q) else h q)
  sweep-lookup zero i h q apart e live = refl
  sweep-lookup (suc left) i h q apart e live =
      sweep-lookup left (i + 1) (adopt_at h i) q apart (omega arith)
        (λ j below. adopt_at-IsLive h i j (live i (omega arith)) (live j below))
      ∙ rw (adopt_at-lookup h i q (live i (omega arith))) (elim (Bool-cases (m.processes i == q)) [
        | inl same ↦ elim (Bool-cases (touched q left (i + 1))) [
          | inl again ↦ rw same (rw again (adopt_twice apart (h q)))
          | inr once ↦ rw same (rw once refl)
        ]
        | inr other ↦ rw other refl
      ])

  pub touched-in : (left i j : ℕ) → i ≤ j → j < i + left → touched (m.processes j) left i ≡ true
  touched-in zero i j low high = absurd (omega arith)
  touched-in (suc left) i j low high = elim (Bool-cases (i == j)) [
    | inl same ↦ rw ((==_iff i j).0 same) (rw (==_refl (m.processes j)) refl)
    | inr later ↦
        rw (touched-in left (i + 1) j (ground (arith, later)) (omega arith)) (ground arith)
  ]

  pub touched-out :
      (left i : ℕ) (q : Ptr)
      → ((j : ℕ) → j < i + left → m.processes j ≢ q)
      → touched q left i ≡ false
  touched-out zero i q away = refl
  touched-out (suc left) i q away =
      rw (==_ne (m.processes i) q (away i (omega arith)))
        (touched-out left (i + 1) q (λ j lt. away j (omega arith)))
