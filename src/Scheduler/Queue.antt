-- ===== src/Scheduler/Queue.antt =====
-- The scheduler as a first-in first-out queue: `add` and `next` against a plain list.
use embla.Prelude.{
  ℕ, zero, suc, ◌+◌, ◌-◌, ◌%◌, ◌≤◌, ◌<◌, ◌≡◌, refl, sym, ap, ap₂, ◌∙◌, ◌≢◌, List, [], ◌∷◌, ◌++◌,
  arith, update, ◌==◌, update_self, success, failure, Bool-cases, inl, inr, ◌⊎◌, leb, false, ==_ne,
  ==_iff, leb→le,
}
use embla.Process.{Ptr, null}
use embla.Scheduler.{Scheduler, create, add, next, advance}
use embla.Scheduler.Ring.{ring, ring-append, ring-update, ring-mod, slots_differ}

-- What every operation keeps: the sizes, and the tail behind the last entry.
pub record IsRing (s : Scheduler) : Type 0 where
  pub fixed : s.capacity ≡ 16
  pub head_in : s.head < 16
  pub fits : s.count ≤ 16
  pub tail_at : s.tail ≡ (s.head + s.count) % 16

-- The waiting processes, the next one first.
abbrev pub queue : Scheduler → List Ptr
queue s = ring s.ready_queue s.head s.count

pub create-IsRing : IsRing create × (queue create ≡ [])
unfolding create
create-IsRing = (omega arith, refl)

ring-snoc : (q : ℕ → ℕ) (a n : ℕ) → ring q a (n + 1) ≡ ring q a n ++ q ((a + n) % 16) ∷ []
ring-snoc q a n = ring-append q a n 1

pub ring-write :
    (q : ℕ → ℕ) (a n v : ℕ)
    → n < 16
    → ring (update q ((a + n) % 16) v) a (n + 1) ≡ ring q a n ++ v ∷ []
ring-write q a n v h =
    ring-snoc (update q ((a + n) % 16) v) a n
    ∙ ap₂ (λ xs x. xs ++ x ∷ [])
        (ring-update q a n ((a + n) % 16) v
          (λ k lt. slots_differ a n k h (omega arith) (omega arith)))
        (update_self q ((a + n) % 16) v)

pub add-IsRing : (s : Scheduler) (p : Ptr) → IsRing s → IsRing (add s p).1
unfolding add
add-IsRing s p v = ground arith

lt→leb_flip : (a b : ℕ) → a < b → leb b a ≡ false
lt→leb_flip a b h = ground arith

abbrev added : Scheduler → Ptr → Scheduler
added s p = record s {
  ready_queue = update s.ready_queue s.tail p;
  tail = advance s s.tail;
  count = s.count + 1;
}

add-added :
    (s : Scheduler) (p : Ptr) → IsRing s → p ≢ null → s.count < 16 → add s p ≡ (success, added s p)
unfolding add
add-added s p v live room = rw (v.fixed, ==_ne p null live, lt→leb_flip s.count 16 room)

queue-added :
    (s : Scheduler) (p : Ptr) → IsRing s → s.count < 16 → queue (added s p) ≡ queue s ++ p ∷ []
queue-added s p v room = rw v.tail_at (ring-write s.ready_queue s.head s.count p room)

-- `add` refuses NULL and a full queue, and changes nothing then; otherwise it puts the process
-- behind all that wait and keeps the ring well formed.
pub add-queue :
    (s : Scheduler) (p : Ptr)
    → IsRing s
    → ((add s p ≡ (failure, s)) × ((p ≡ null) ⊎ (s.count ≡ 16)))
      ⊎ (((add s p).0 ≡ success)
          × (queue (add s p).1 ≡ queue s ++ p ∷ [])
          × ((add s p).1.current ≡ s.current)
          × (p ≢ null)
          × (s.count < 16)
          × IsRing (add s p).1)
unfolding add
add-queue s p v = elim (Bool-cases (p == null)) [
  | inl missing ↦ inl (rw (missing, add), inl ((==_iff p null).0 missing))
  | inr live ↦ elim (Bool-cases (leb s.capacity s.count)) [
    | inl full ↦ inl (rw (live, full, add), inr (omega (arith, v.fixed, leb→le _ _ full)))
    | inr room ↦
        let live' : p ≢ null = ground arith in
        let room' : s.count < 16 = ground arith in
        let e = add-added s p v live' room' in
        inr (
          ap (λ r. r.0) e,
          ap (λ r. queue r.1) e ∙ queue-added s p v room',
          ap (λ r. r.1.current) e,
          live',
          room',
          add-IsRing s p v,
        )
  ]
]

pub next-IsRing : (s : Scheduler) → IsRing s → IsRing (next s).1
unfolding next
next-IsRing s v = ground arith

ring-drop :
    (q : ℕ → ℕ) (a n v : ℕ) → n < 16 → ring (update q (a % 16) v) (suc a) n ≡ ring q (suc a) n
ring-drop q a n v h = ring-update q (suc a) n (a % 16) v (λ k lt. omega arith)

abbrev taken : Scheduler → Scheduler
taken s = record s {
  ready_queue = update s.ready_queue s.head null;
  head = advance s s.head;
  count = s.count - 1;
}

next-taken : (s : Scheduler) (n : ℕ) → s.count ≡ suc n → next s ≡ (s.ready_queue s.head, taken s)
unfolding next
next-taken s n e = ground arith

queue-taken :
    (s : Scheduler) (n : ℕ)
    → s.count ≡ suc n
    → IsRing s
    → queue s ≡ s.ready_queue s.head ∷ queue (taken s)
unfolding advance
queue-taken s n e v =
    let small : s.head % 16 ≡ s.head = omega (arith, v.head_in) in
    let next_at : suc s.head % 16 ≡ (s.head + 1) % s.capacity % 16 = rw v.fixed (omega arith) in
    let left : s.count - 1 ≡ n = omega arith in
    ap (ring s.ready_queue s.head) e
    ∙ ap₂ ◌∷◌ (ap s.ready_queue small) (
        sym (ring-drop s.ready_queue s.head n null (omega (arith, v.fits)))
        ∙ ap (λ j. ring (update s.ready_queue j null) (suc s.head) n) small
        ∙ ring-mod (update s.ready_queue s.head null) (suc s.head) ((s.head + 1) % s.capacity) n
            next_at
        ∙ ap (ring (update s.ready_queue s.head null) ((s.head + 1) % s.capacity)) (sym left))

next-queue_at :
    (s : Scheduler) (n : ℕ)
    → s.count ≡ n
    → IsRing s
    → ((queue s ≡ []) × (next s ≡ (null, s)))
      ⊎ ((queue s ≡ (next s).0 ∷ queue (next s).1)
          × ((next s).1.current ≡ s.current)
          × IsRing (next s).1)
unfolding next
next-queue_at s zero e v = inl (rw e, ground arith)
next-queue_at s (suc n) e v =
    let here = next-taken s n e in
    inr (
      queue-taken s n e v ∙ ap (λ (r : Ptr × Scheduler). r.0 ∷ queue r.1) (sym here),
      ap (λ (r : Ptr × Scheduler). r.1.current) here,
      next-IsRing s v,
    )

-- `next` gives the process that has waited longest, leaves the others in their order and keeps the
-- ring well formed; with nothing waiting it gives NULL and changes nothing.
pub next-queue :
    (s : Scheduler)
    → IsRing s
    → ((queue s ≡ []) × (next s ≡ (null, s)))
      ⊎ ((queue s ≡ (next s).0 ∷ queue (next s).1)
          × ((next s).1.current ≡ s.current)
          × IsRing (next s).1)
next-queue s v = next-queue_at s s.count refl v
