-- ===== src/Scheduler/Dispatch.antt =====
-- `dispatch` and `yield`: the scheduler together with the state of the processes that it holds.
use embla.Prelude.{
  ◌<◌, ◌≡◌, ap, ◌∙◌, ◌≢◌, ◌⊎◌, inl, inr, true, false, some, List, [], ◌∷◌, ◌++◌, arith, update,
  Bool-cases, ℤ, success, failure, ==_ne,
}
use embla.Process.{
  Ptr, null, Heap, Process, ProcessState, ready, running, can_transition, transition,
}
use embla.Scheduler.{Scheduler, add, next, dispatch, yield}
use embla.Scheduler.Queue.{IsRing, queue, add-IsRing, add-queue, next-IsRing, next-queue}

next-count : (s : Scheduler) → IsRing s → (next s).1.count < 16
unfolding next
next-count s v = ground arith

transition-okay :
    (h : Heap) (p : Ptr) (pr : Process) (t : ProcessState)
    → h p ≡ some pr
    → can_transition pr.state t ≡ true
    → transition h p t ≡ (success, update h p (some (record pr { state = t })))
unfolding transition
transition-okay h p pr t e okay = rw (e, transition, okay)

transition-refused :
    (h : Heap) (p : Ptr) (pr : Process) (t : ProcessState)
    → h p ≡ some pr
    → can_transition pr.state t ≡ false
    → transition h p t ≡ (failure, h)
unfolding transition
transition-refused h p pr t e refused = rw (e, transition, refused)

-- The front of the queue, as `next` takes it.
next-front :
    (s : Scheduler) (p : Ptr) (rest : List Ptr)
    → IsRing s
    → queue s ≡ p ∷ rest
    → ((next s).0 ≡ p) × (queue (next s).1 ≡ rest) × ((next s).1.current ≡ s.current)
next-front s p rest v e = elim (next-queue s v) [
  | inl (none_left, same) ↦ absurd (cc)
  | inr (front, same, _) ↦ (cc, cc, same)
]

module _ (h : Heap) (s : Scheduler) (p : Ptr) (rest : List Ptr) (pr : Process) (v : IsRing s)
    (idle : s.current ≡ null) (front : queue s ≡ p ∷ rest) (live : p ≢ null)
    (object : h p ≡ some pr) where
  dispatch-okay :
      can_transition pr.state running ≡ true
      → dispatch h s ≡ (
        success,
        update h p (some (record pr { state = running })),
        record (next s).1 { current = p },
      )
  unfolding dispatch
  dispatch-okay okay = simp (
    idle,
    (next-front s p rest v front).0,
    ==_ne p null live,
    transition-okay h p pr running object okay,
  )

  dispatch-refused :
      can_transition pr.state running ≡ false → dispatch h s ≡ (failure, h, (add (next s).1 p).1)
  unfolding dispatch
  dispatch-refused refused = simp (
    idle,
    (next-front s p rest v front).0,
    ==_ne p null live,
    transition-refused h p pr running object refused,
  )

  requeued :
      ((add (next s).1 p).0 ≡ success)
      × (queue (add (next s).1 p).1 ≡ rest ++ p ∷ [])
      × ((add (next s).1 p).1.current ≡ null)
  requeued = elim (add-queue (next s).1 p (next-IsRing s v)) [
    | inl (_, inl gone) ↦ absurd (live gone)
    | inl (_, inr full) ↦ absurd (omega (arith, next-count s v))
    | inr (code, back, current, _, _, _) ↦
        let (_, others, same) = next-front s p rest v front in
        (code, back ∙ ap (λ xs. xs ++ p ∷ []) others, current ∙ same ∙ idle)
  ]

  -- With nothing dispatched, `dispatch` takes the process that has waited longest. If its state
  -- may become RUNNING it is the current one and only its state changes on the heap; otherwise
  -- the call fails, the heap is as before, and the process waits behind all others.
  pub dispatch-front :
      ((can_transition pr.state running ≡ true)
        × ((dispatch h s).0 ≡ success)
        × ((dispatch h s).1 ≡ update h p (some (record pr { state = running })))
        × ((dispatch h s).2.current ≡ p)
        × (queue (dispatch h s).2 ≡ rest))
      ⊎ ((can_transition pr.state running ≡ false)
          × ((dispatch h s).0 ≡ failure)
          × ((dispatch h s).1 ≡ h)
          × ((dispatch h s).2.current ≡ null)
          × (queue (dispatch h s).2 ≡ rest ++ p ∷ []))
  dispatch-front = elim (Bool-cases (can_transition pr.state running)) [
    | inl okay ↦
        let e = dispatch-okay okay in
        inl (
          okay,
          ap (λ (r : ℤ × Heap × Scheduler). r.0) e,
          ap (λ (r : ℤ × Heap × Scheduler). r.1) e,
          ap (λ (r : ℤ × Heap × Scheduler). r.2.current) e,
          ap (λ (r : ℤ × Heap × Scheduler). queue r.2) e ∙ (next-front s p rest v front).1,
        )
    | inr refused ↦
        let e = dispatch-refused refused in
        inr (
          refused,
          ap (λ (r : ℤ × Heap × Scheduler). r.0) e,
          ap (λ (r : ℤ × Heap × Scheduler). r.1) e,
          ap (λ (r : ℤ × Heap × Scheduler). r.2.current) e ∙ requeued.2,
          ap (λ (r : ℤ × Heap × Scheduler). queue r.2) e ∙ requeued.1,
        )
  ]

pub dispatch-IsRing : (h : Heap) (s : Scheduler) → IsRing s → IsRing (dispatch h s).2
unfolding dispatch
dispatch-IsRing h s v =
    ground (arith, next-IsRing s v, add-IsRing (next s).1 (next s).0 (next-IsRing s v))

-- Yielding a RUNNING process with room in the queue makes it READY and puts it behind all others;
-- the queue gains exactly that entry, and nothing is dispatched.
pub yield-round_robin :
    (h : Heap) (s : Scheduler) (pr : Process)
    → IsRing s
    → s.current ≢ null
    → s.count < 16
    → h s.current ≡ some pr
    → pr.state ≡ running
    → ((yield h s).0 ≡ success)
      × ((yield h s).1 ≡ update h s.current (some (record pr { state = ready })))
      × ((yield h s).2.current ≡ null)
      × (queue (yield h s).2 ≡ queue s ++ s.current ∷ [])
unfolding yield can_transition
yield-round_robin h s pr v busy room object state =
    let idle : Scheduler = record s { current = null } in
    ground (
      arith,
      transition-okay h s.current pr ready object (rw (state, can_transition)),
      add-queue idle s.current
          (record { fixed = v.fixed; head_in = v.head_in; fits = v.fits; tail_at = v.tail_at }),
    )
