-- ===== src/ProcessManager/Destroy.antt =====
-- `destroy_process`: the process that leaves, and the ones that stay.
use embla.Prelude.{
  ℕ, suc, ◌-◌, ◌<◌, ◌≡◌, refl, sym, ap, ◌∙◌, ◌≢◌, ◌⊎◌, inl, inr, none, some, arith, ◌==◌, ==_iff,
  ==_ne, update, update_ne, if◌then◌else◌, ◌∷◌, subst, Perm, ℤ, success, failure,
}
use embla.Process.{Ptr, null, Heap, Process, get_id, invalid_pid}
use embla.Process
use embla.Table.{contents, close_gap}
use embla.Table.Keyed
use embla.Table.Laws.{contents-close_gap}
use embla.ProcessManager.{ProcessManager, destroy_process, destroy_at, get, find_index}
use embla.ProcessManager.Invariant.{IsTable, same_slot, get-at, get-absent, id-cases, get_id-ext}

module _ (m : ProcessManager) (h : Heap) (v : IsTable m h) (k : ℕ) (used : k < m.count) where
  abbrev last : ℕ
  last = m.count - 1

  abbrev destroyed_heap : Heap
  destroyed_heap = update h (m.processes k) none

  abbrev destroyed_table : ProcessManager
  destroyed_table = record m {
    processes = close_gap m.processes k last;
    count = last;
    iterator_index = 0;
  }

  apart : (i : ℕ) → i < m.count → i ≢ k → m.processes k ≢ m.processes i
  apart i lt ne e = ne (same_slot m h v k i used lt (ap (get_id h) (sym e)))

  kept-frame : (i : ℕ) → i < m.count → i ≢ k → destroyed_heap (m.processes i) ≡ h (m.processes i)
  kept-frame i lt ne = update_ne h (m.processes k) (m.processes i) none (apart i lt ne)

  id-frame :
      (i : ℕ)
      → i < m.count
      → i ≢ k
      → get_id destroyed_heap (m.processes i) ≡ get_id h (m.processes i)
  id-frame i lt ne = get_id-ext destroyed_heap h _ _ (kept-frame i lt ne)

  origin : ℕ → ℕ
  origin =
      Keyed.origin ◌==◌ ==_iff m.processes (get_id h) (get_id destroyed_heap) m.count k v.distinct
        used id-frame

  origin-lt : (j : ℕ) → j < last → origin j < m.count
  unfolding origin
  origin-lt =
      Keyed.origin-lt ◌==◌ ==_iff m.processes (get_id h) (get_id destroyed_heap) m.count k
        v.distinct used id-frame

  closed-slot : (j : ℕ) → j < last → destroyed_table.processes j ≡ m.processes (origin j)
  unfolding origin
  closed-slot =
      Keyed.closed-slot ◌==◌ ==_iff m.processes (get_id h) (get_id destroyed_heap) m.count k
        v.distinct used id-frame

  kept-object :
      (j : ℕ) → j < last → destroyed_heap (destroyed_table.processes j) ≡ h (m.processes (origin j))
  unfolding origin
  kept-object j lt =
      ap destroyed_heap (closed-slot j lt)
      ∙ kept-frame (origin j) (origin-lt j lt) (
          Keyed.origin-ne ◌==◌ ==_iff m.processes (get_id h) (get_id destroyed_heap) m.count k
            v.distinct used id-frame j lt)

  pub destroyed-IsTable : IsTable destroyed_table destroyed_heap
  destroyed-IsTable = record {
    fixed = v.fixed;
    fits = omega (arith, v.fits);
    next_min = v.next_min;
    next_max = v.next_max;
    object = λ i lt.
        let (pr, object, low, high) = v.object (origin i) (origin-lt i lt) in
        (pr, kept-object i lt ∙ object, low, high);
    address = λ i lt e. v.address (origin i) (origin-lt i lt) (sym (closed-slot i lt) ∙ e);
    distinct =
        Keyed.Distinct-close ◌==◌ ==_iff m.processes (get_id h) (get_id destroyed_heap) m.count k
          v.distinct used id-frame;
  }

  pub get-destroyed :
      (id : ℕ)
      → get destroyed_table destroyed_heap id
        ≡ (if id == get_id h (m.processes k) then null else get m h id)
  unfolding get find_index
  get-destroyed =
      Keyed.lookup-close ◌==◌ ==_iff m.processes (get_id h) (get_id destroyed_heap) m.count k
        v.distinct used id-frame

  contents-destroyed :
      Perm (contents m.processes m.count) (m.processes k ∷ contents destroyed_table.processes last)
  contents-destroyed =
      let e : m.count ≡ suc last = omega arith in
      subst
        (λ n.
          Perm (contents m.processes n) (m.processes k ∷ contents destroyed_table.processes last))
        (sym e) (contents-close_gap m.processes k last (omega arith))

-- A result of `destroy_process` on `id`. If it succeeds, that id led to a process, whose object is
-- gone from the heap; the entries lose it and nothing else; the id leads nowhere, and every other
-- id leads where it led. If it fails, nothing has changed and the id led nowhere.
abbrev pub Removes : ProcessManager → Heap → ℕ → ℤ × Heap × ProcessManager → Type 0
Removes m h id (code, h', m') =
    ((code ≡ success)
      × ((get m h id ≢ null)
          × (h' ≡ update h (get m h id) none)
          × Perm (contents m.processes m.count) (get m h id ∷ contents m'.processes m'.count)
          × ((j : ℕ) → get m' h' j ≡ (if j == id then null else get m h j))
          × IsTable m' h'))
    ⊎ ((code ≡ failure) × ((get m h id ≡ null) × (h' ≡ h) × (m' ≡ m)))

destroy_process-hit :
    (m : ProcessManager) (h : Heap) (v : IsTable m h) (k id : ℕ) (used : k < m.count)
    → id ≢ invalid_pid
    → find_index m h id ≡ some k
    → destroy_process m h id ≡ (success, destroyed_heap m h v k used, destroyed_table m h v k used)
unfolding destroy_process destroy_at Process.destroy
destroy_process-hit m h v k id used valid at =
    rw (==_ne id invalid_pid valid, at, destroy_at, ==_ne (m.processes k) null (v.address k used))

destroy_process-miss :
    (m : ProcessManager) (h : Heap) (id : ℕ)
    → find_index m h id ≡ none
    → destroy_process m h id ≡ (failure, h, m)
unfolding destroy_process destroy_at
destroy_process-miss m h id at = rw (at, destroy_at) (ground arith)

-- On a well-formed table `destroy_process` removes exactly the process with the given id, or fails
-- if there is none.
pub destroy_process-Removes :
    (m : ProcessManager) (h : Heap) (id : ℕ)
    → IsTable m h
    → id ≢ invalid_pid
    → Removes m h id (destroy_process m h id)
destroy_process-Removes m h id v valid = elim (id-cases m h id) [
  | inl (k, lt, at, is) ↦
      let found : get m h id ≡ m.processes k = get-at m h v k id lt is in
      subst (Removes m h id) (sym (destroy_process-hit m h v k id lt valid at)) (
        inl (
          refl,
          (
            λ e. v.address k lt (sym found ∙ e),
            ap (λ p. update h p none) (sym found),
            rw found (contents-destroyed m h v k lt),
            λ j. rw (← is) (get-destroyed m h v k lt j),
            destroyed-IsTable m h v k lt,
          ),
        ))
  | inr (at, absent) ↦
      subst (Removes m h id) (sym (destroy_process-miss m h id at))
        (inr (refl, (get-absent m h id absent, refl, refl)))
]
