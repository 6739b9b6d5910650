-- ===== src/Scheduler/Remove.antt =====
-- `remove` takes the first entry of a process out of the queue, and keeps the others in order.
use embla.Prelude.{
  if-both, ℕ, zero, suc, ◌+◌, ◌-◌, ◌%◌, ◌<◌, ◌≡◌, refl, ap, ap₂, ◌∙◌, ◌≢◌, List, [], ◌∷◌, ◌++◌,
  arith, update, ◌==◌, ==_ne, append_assoc, append-nil, ℤ, subst, elem, erase, add-zero, success,
  failure, Bool-cases, inl, inr, ◌⊎◌, true, false,
}
use embla.Process.{Ptr, null}
use embla.Scheduler.{Scheduler, index_at, shift, retreat, take_out, remove_from, remove}
use embla.Scheduler.Ring.{ring, ring-append, ring-update}
use embla.Scheduler.Queue.{IsRing, queue, ring-write}

index_at-mod : (s : Scheduler) (i : ℕ) → IsRing s → index_at s i ≡ (s.head + i) % 16
unfolding index_at
index_at-mod s i v = rw v.fixed

-- After the inner loop the entries behind `j` stand one place nearer to the head.
ring-shift :
    (s : Scheduler) (rounds j : ℕ) (q : ℕ → ℕ)
    → IsRing s
    → j + rounds < 16
    → ring (shift s rounds j q) s.head (j + rounds)
      ≡ ring q s.head j ++ ring q (suc (s.head + j)) rounds
unfolding shift
ring-shift s zero j q v h = rw (add-zero, append-nil)
ring-shift s (suc rounds) j q v h =
    ap (ring (shift s (suc rounds) j q) s.head) (omega arith)
    ∙ ring-shift s rounds (j + 1) q' v (omega arith)
    ∙ ap₂ ◌++◌ written behind
    ∙ append_assoc (ring q s.head j) (q (index_at s (j + 1)) ∷ [])
        (ring q (suc (suc (s.head + j))) rounds)
    ∙ ap (λ k. ring q s.head j ++ q k ∷ ring q (suc (suc (s.head + j))) rounds) place
  where
    q' : ℕ → ℕ
    q' = update q (index_at s j) (q (index_at s (j + 1)))

    place : index_at s (j + 1) ≡ suc (s.head + j) % 16
    place = index_at-mod s (j + 1) v ∙ ap (λ k. k % 16) (omega arith)

    written : ring q' s.head (j + 1) ≡ ring q s.head j ++ q (index_at s (j + 1)) ∷ []
    written =
        ap (λ k. ring (update q k (q (index_at s (j + 1)))) s.head (j + 1)) (index_at-mod s j v)
        ∙ ring-write q s.head j (q (index_at s (j + 1))) (omega arith)

    behind : ring q' (suc (s.head + (j + 1))) rounds ≡ ring q (suc (suc (s.head + j))) rounds
    behind =
        ring-update q (suc (s.head + (j + 1))) rounds (index_at s j) (q (index_at s (j + 1)))
          (λ k lt. omega (arith, index_at-mod s j v))
        ∙ ap (λ a. ring q a rounds) (omega arith)

queue-take_out :
    (s : Scheduler) (i left : ℕ)
    → IsRing s
    → i + suc left ≡ s.count
    → queue (take_out s i)
      ≡ ring s.ready_queue s.head i ++ ring s.ready_queue (suc (s.head + i)) left
unfolding take_out
queue-take_out s i left v e =
    ring-update moved s.head (s.count - 1) (index_at s (s.count - 1)) null
      (λ k lt. omega (arith, index_at-mod s (s.count - 1) v, v.fits))
    ∙ ap₂ (λ m n. ring (shift s m i s.ready_queue) s.head n) rounds total
    ∙ ring-shift s left i s.ready_queue v (omega (arith, v.fits))
  where
    moved : ℕ → ℕ
    moved = shift s (s.count - 1 - i) i s.ready_queue

    rounds : s.count - 1 - i ≡ left
    rounds = omega arith

    total : s.count - 1 ≡ i + left
    total = omega arith

take_out-IsRing :
    (s : Scheduler) (i left : ℕ) → IsRing s → i + suc left ≡ s.count → IsRing (take_out s i)
unfolding take_out retreat
take_out-IsRing s i left v e = record {
  fixed = v.fixed;
  head_in = v.head_in;
  fits = omega (arith, v.fits);
  tail_at = rw v.fixed (omega (arith, v.tail_at));
}

-- What a removal comes to where `front` has no entry of the process and `back` is still to visit.
abbrev Outcome : Scheduler → Ptr → (front back : List Ptr) → ℤ × Scheduler → Type 0
Outcome s p front back r =
    ((elem p back ≡ false) × (r ≡ (failure, s)))
    ⊎ ((elem p back ≡ true)
        × (r.0 ≡ success)
        × (queue r.1 ≡ front ++ erase p back)
        × (r.1.current ≡ s.current)
        × IsRing r.1)

Outcome-skip :
    (s : Scheduler) (p x : Ptr) (front back : List Ptr) (r : ℤ × Scheduler)
    → (x == p) ≡ false
    → Outcome s p (front ++ x ∷ []) back r
    → Outcome s p front (x ∷ back) r
Outcome-skip s p x front back r miss (inl (absent, same)) = inl (rw (miss, absent), same)
Outcome-skip s p x front back r miss (inr (present, code, left, current, ring)) = inr (
  rw (miss, present),
  code,
  left ∙ append_assoc front (x ∷ []) (erase p back) ∙ rw miss,
  current,
  ring,
)

Outcome-hit :
    (s : Scheduler) (p : Ptr) (left i : ℕ)
    → IsRing s
    → i + suc left ≡ s.count
    → (s.ready_queue ((s.head + i) % 16) == p) ≡ true
    → Outcome s p
        (ring s.ready_queue s.head i)
        (ring s.ready_queue (s.head + i) (suc left))
        (success, take_out s i)
Outcome-hit s p left i v e hit =
    inr (rw hit, refl, queue-take_out s i left v e ∙ rw hit, same, take_out-IsRing s i left v e)
  where
    same : (take_out s i).current ≡ s.current
    same = unfold take_out in refl

remove_from-hit :
    (s : Scheduler) (p : Ptr) (left i : ℕ)
    → (s.ready_queue (index_at s i) == p) ≡ true
    → (success, take_out s i) ≡ remove_from s p (suc left) i
unfolding remove_from
remove_from-hit s p left i hit = rw hit

remove_from-miss :
    (s : Scheduler) (p : Ptr) (left i : ℕ)
    → (s.ready_queue (index_at s i) == p) ≡ false
    → remove_from s p left (i + 1) ≡ remove_from s p (suc left) i
unfolding remove_from
remove_from-miss s p left i miss = rw miss

remove_from-Outcome :
    (s : Scheduler) (p : Ptr) (left i : ℕ)
    → IsRing s
    → i + left ≡ s.count
    → Outcome s p
        (ring s.ready_queue s.head i)
        (ring s.ready_queue (s.head + i) left)
        (remove_from s p left i)
remove_from-Outcome s p zero i v e = inl (refl, unfold remove_from in refl)
remove_from-Outcome s p (suc left) i v e = elim (Bool-cases (s.ready_queue (index_at s i) == p)) [
  | inl hit ↦
      subst (Outcome s p front back) (remove_from-hit s p left i hit)
        (Outcome-hit s p left i v e (rw (index_at-mod s i v) at hit))
  | inr miss ↦ subst (Outcome s p front back) (remove_from-miss s p left i miss) (
      Outcome-skip s p (s.ready_queue ((s.head + i) % 16)) front
        (ring s.ready_queue (suc (s.head + i)) left) (remove_from s p left (i + 1))
        (rw (index_at-mod s i v) at miss)
        (subst
          (λ xs.
            Outcome s p xs (ring s.ready_queue (suc (s.head + i)) left)
              (remove_from s p left (i + 1)))
          (ring-append s.ready_queue s.head i 1)
          (subst
            (λ a.
              Outcome s p (ring s.ready_queue s.head (i + 1)) (ring s.ready_queue a left)
                (remove_from s p left (i + 1)))
            (omega arith) (remove_from-Outcome s p left (i + 1) v (omega arith)))))
]
  where
    front : List Ptr
    front = ring s.ready_queue s.head i

    back : List Ptr
    back = ring s.ready_queue (s.head + i) (suc left)

reached :
    (s : Scheduler) (p : Ptr) → p ≢ null → s.current ≢ p → remove_from s p s.count 0 ≡ remove s p
unfolding remove
reached s p live other = rw (==_ne p null live, ==_ne s.current p other)

-- On a process that is not the dispatched one, `remove` fails with nothing changed exactly when
-- the process does not wait; otherwise it takes out its first entry, and every other entry keeps
-- its place in the order.
pub remove-queue :
    (s : Scheduler) (p : Ptr)
    → IsRing s
    → p ≢ null
    → s.current ≢ p
    → ((elem p (queue s) ≡ false) × (remove s p ≡ (failure, s)))
      ⊎ ((elem p (queue s) ≡ true)
          × ((remove s p).0 ≡ success)
          × (queue (remove s p).1 ≡ erase p (queue s))
          × ((remove s p).1.current ≡ s.current)
          × IsRing (remove s p).1)
remove-queue s p v live other =
    subst (Outcome s p [] (queue s)) (reached s p live other)
      (rw add-zero at (remove_from-Outcome s p s.count 0 v (omega arith)))

pub remove-IsRing : (s : Scheduler) (p : Ptr) → IsRing s → IsRing (remove s p).1
unfolding remove
remove-IsRing s p v =
    if-both (λ (r : ℤ × Scheduler). IsRing r.1) (p == null) v
      (if-both (λ (r : ℤ × Scheduler). IsRing r.1) (s.current == p)
        (record { fixed = v.fixed; head_in = v.head_in; fits = v.fits; tail_at = v.tail_at })
        (elim (remove_from-Outcome s p s.count 0 v (omega arith)) [
          | inl (_, same) ↦ rw same v
          | inr (_, _, _, _, well) ↦ well
        ]))
