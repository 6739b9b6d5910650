-- ===== src/ProcessManager/Reparent.antt =====
-- `reparent_children`: what becomes of the children of a process.
use embla.Prelude.{
  zero, suc, ◌≤◌, ◌⊎◌, inl, inr, Bool-cases, ◌==◌, ==_iff, ℕ, ◌+◌, ◌<◌, ◌≡◌, refl, sym, ap, ◌∙◌,
  ◌≢◌, true, Option, none, some, arith, ==_ne, ℤ, success, failure, subst,
}
use embla.Process.{Ptr, Heap, Process, invalid_pid}
use embla.ProcessManager.{
  ProcessManager, ChildIterator, child_iterator_create, reparent_loop, reparent_children,
}
use embla.ProcessManager.Invariant.{IsTable}
use embla.ProcessManager.Sweep.{
  adopt, adopt_at, adopt_at-lookup, IsLive, sweep, at, loop-sweep, sweep-lookup, touched-in,
  touched-out,
}

-- A result of `reparent_children`: each process of the table that had the parent has the new one,
-- each other of them and each object outside the table is as it was.
abbrev pub Adopts : ProcessManager → Heap → (parent parent' : ℕ) → ℤ × Heap → Type 0
Adopts m h parent parent' (code, h') =
    (code ≡ success)
    × ((j : ℕ) → j < m.count → h' (m.processes j) ≡ adopt parent parent' (h (m.processes j)))
    × ((q : Ptr) → ((j : ℕ) → j < m.count → m.processes j ≢ q) → h' q ≡ h q)

swept-Adopts :
    (m : ProcessManager) (h : Heap) (parent parent' : ℕ)
    → ((j : ℕ) → j < m.count → IsLive m parent parent' h j)
    → parent ≢ parent'
    → Adopts m h parent parent' (success, sweep m parent parent' m.count 0 h)
swept-Adopts m h parent parent' live apart = (
  refl,
  (λ j lt.
      sweep-lookup m parent parent' m.count 0 h (m.processes j) apart (omega arith) live
      ∙ rw (touched-in m parent parent' m.count 0 j (omega arith) (omega arith)) refl),
  λ q away.
      sweep-lookup m parent parent' m.count 0 h q apart (omega arith) live
      ∙ rw (touched-out m parent parent' m.count 0 q (λ j lt. away j (omega arith))) refl,
)

iterator_start :
    (m : ProcessManager) (parent parent' : ℕ)
    → parent ≢ invalid_pid
    → child_iterator_create true parent ≡ some (at m parent parent' 0)
unfolding child_iterator_create
iterator_start m parent parent' valid = rw (==_ne parent invalid_pid valid) refl

reparent_children-loop :
    (m : ProcessManager) (h : Heap) (parent parent' : ℕ)
    → parent ≢ invalid_pid
    → reparent_children m h true parent parent'
      ≡ reparent_loop m parent' (m.count + 1) h (at m parent parent' 0)
unfolding reparent_children
reparent_children-loop m h parent parent' valid =
    ap
      (λ (o : Option ChildIterator). elim o [
        | none ↦ (failure, h)
        | some it ↦ reparent_loop m parent' (m.count + 1) h it
      ])
      (iterator_start m parent parent' valid)

-- With the old parent as the new one, no slot changes.
adopt_same : (parent : ℕ) (o : Option Process) → adopt parent parent o ≡ o
adopt_same parent none = refl
adopt_same parent (some pr) = elim (Bool-cases (pr.parent_id == parent)) [
  | inl mine ↦
      rw mine
        (ap (λ n. some (record pr { parent_id = n })) (sym ((==_iff pr.parent_id parent).0 mine)))
  | inr other ↦ rw other refl
]

sweep_same :
    (m : ProcessManager) (parent : ℕ) (left i : ℕ) (h : Heap)
    → i + left ≤ m.count
    → ((j : ℕ) → j < m.count → IsLive m parent parent h j)
    → (q : Ptr) → sweep m parent parent left i h q ≡ h q
sweep_same m parent zero i h fits live q = refl
sweep_same m parent (suc left) i h fits live q =
    sweep_same m parent left (i + 1) (adopt_at m parent parent h i) (omega arith)
      (λ j lt.
        let (there, (pr, object)) = live j lt in (there, (pr, once (m.processes j) ∙ object)))
      q
    ∙ once q
  where
    once : (k : Ptr) → adopt_at m parent parent h i k ≡ h k
    once k =
        adopt_at-lookup m parent parent h i k (live i (omega arith))
        ∙ elim (Bool-cases (m.processes i == k)) [
          | inl here ↦ rw here (adopt_same parent (h k))
          | inr off ↦ rw off refl
        ]

same-Adopts :
    (m : ProcessManager) (h : Heap) (parent : ℕ)
    → ((j : ℕ) → j < m.count → IsLive m parent parent h j)
    → Adopts m h parent parent (success, sweep m parent parent m.count 0 h)
same-Adopts m h parent live = (
  refl,
  (λ j lt.
      sweep_same m parent m.count 0 h (omega arith) live (m.processes j)
      ∙ sym (adopt_same parent (h (m.processes j)))),
  λ q away. sweep_same m parent m.count 0 h (omega arith) live q,
)

any-Adopts :
    (m : ProcessManager) (h : Heap) (parent parent' : ℕ)
    → ((j : ℕ) → j < m.count → IsLive m parent parent' h j)
    → Adopts m h parent parent' (success, sweep m parent parent' m.count 0 h)
any-Adopts m h parent parent' live = elim (Bool-cases (parent == parent')) [
  | inl same ↦
      subst (λ k. Adopts m h parent k (success, sweep m parent k m.count 0 h))
        ((==_iff parent parent').0 same) (same-Adopts m h parent live)
  | inr apart ↦ swept-Adopts m h parent parent' live (ground arith)
]

-- On a well-formed table, and when the iterator can be allocated, `reparent_children` succeeds
-- within its fuel: every child of the old parent, and no other process, gets the new parent, and
-- nothing else of it changes. If the old parent is EMBLA_INVALID_PID it fails and changes nothing.
pub reparent_children-Adopts :
    (m : ProcessManager) (h : Heap) (parent parent' : ℕ)
    → IsTable m h
    → ((parent ≢ invalid_pid)
        × Adopts m h parent parent' (reparent_children m h true parent parent'))
      ⊎ ((parent ≡ invalid_pid) × (reparent_children m h true parent parent' ≡ (failure, h)))
unfolding reparent_children child_iterator_create
reparent_children-Adopts m h parent parent' v = elim (Bool-cases (parent == invalid_pid)) [
  | inl out ↦ inr ((==_iff parent invalid_pid).0 out, rw (out, reparent_children) refl)
  | inr valid ↦
      let live : (j : ℕ) → j < m.count → IsLive m parent parent' h j =
        (λ j lt. let (pr, object, _, _) = v.object j lt in (v.address j lt, (pr, object))) in
      let valid' : parent ≢ invalid_pid = ground arith in
      inl (
        valid',
        subst (Adopts m h parent parent')
            (sym (
              reparent_children-loop m h parent parent' valid'
              ∙ loop-sweep m parent parent' m.count 0 (m.count + 1) h (omega arith) (omega arith)
                  live))
            (any-Adopts m h parent parent' live),
      )
]
