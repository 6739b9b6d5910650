-- ===== src/Scheduler/Tests.antt =====
-- Inputs on which the scheduler's theorems are applied, and small runs.
use embla.Prelude.{
  ℕ, ◌≡◌, ◌≢◌, ◌<◌, ◌⊎◌, refl, true, false, none, some, [], ◌∷◌, ◌++◌, arith, success, failure,
  update, elem, erase,
}
use embla.Process.{null, Heap, Process, ready, running, can_transition, fresh_process}
use embla.Scheduler.{Scheduler, create, add, next, remove, dispatch, yield}
use embla.Scheduler.Queue.{IsRing, queue, add-queue, next-queue}
use embla.Scheduler.Remove.{remove-queue}
use embla.Scheduler.Dispatch.{dispatch-front, yield-round_robin}

-- Three waiting processes across the end of the ring.
abbrev wrapped : Scheduler
wrapped = record {
  ready_queue = update (update (update (λ _. null) 15 64) 0 65) 1 66;
  capacity = 16;
  head = 15;
  tail = 2;
  count = 3;
  current = null;
}

wrapped-IsRing : IsRing wrapped
wrapped-IsRing = record { fixed = refl; head_in = omega arith; fits = omega arith; tail_at = refl }

fill_and_take : queue (next (add (add create 64).1 65).1).1 ≡ 65 ∷ []
unfolding create add next
fill_and_take = refl

remove_middle : queue (remove wrapped 65).1 ≡ 64 ∷ 66 ∷ []
unfolding remove
remove_middle = refl

add-queue_example :
    ((add wrapped 67 ≡ (failure, wrapped)) × ((◌≡◌ {A = ℕ} 67 null) ⊎ (◌≡◌ {A = ℕ} 3 16)))
    ⊎ (((add wrapped 67).0 ≡ success)
        × (queue (add wrapped 67).1 ≡ queue wrapped ++ 67 ∷ [])
        × ((add wrapped 67).1.current ≡ null)
        × (◌≢◌ {A = ℕ} 67 null)
        × (3 < 16)
        × IsRing (add wrapped 67).1)
add-queue_example = add-queue wrapped 67 wrapped-IsRing

next-queue_example :
    ((queue wrapped ≡ []) × (next wrapped ≡ (null, wrapped)))
    ⊎ ((queue wrapped ≡ (next wrapped).0 ∷ queue (next wrapped).1)
        × ((next wrapped).1.current ≡ null)
        × IsRing (next wrapped).1)
next-queue_example = next-queue wrapped wrapped-IsRing

remove-queue_example :
    ((elem 65 (queue wrapped) ≡ false) × (remove wrapped 65 ≡ (failure, wrapped)))
    ⊎ ((elem 65 (queue wrapped) ≡ true)
        × ((remove wrapped 65).0 ≡ success)
        × (queue (remove wrapped 65).1 ≡ erase 65 (queue wrapped))
        × ((remove wrapped 65).1.current ≡ null)
        × IsRing (remove wrapped 65).1)
remove-queue_example = remove-queue wrapped 65 wrapped-IsRing (omega arith) (omega arith)

abbrev waiting : Process
waiting = record (fresh_process 1 0 1 []) { state = ready }

abbrev heap : Heap
heap = update (λ _. none) 64 (some waiting)

dispatch-front_example :
    ((can_transition ready running ≡ true)
      × ((dispatch heap wrapped).0 ≡ success)
      × ((dispatch heap wrapped).1 ≡ update heap 64 (some (record waiting { state = running })))
      × ((dispatch heap wrapped).2.current ≡ 64)
      × (queue (dispatch heap wrapped).2 ≡ 65 ∷ 66 ∷ []))
    ⊎ ((can_transition ready running ≡ false)
        × ((dispatch heap wrapped).0 ≡ failure)
        × ((dispatch heap wrapped).1 ≡ heap)
        × ((dispatch heap wrapped).2.current ≡ null)
        × (queue (dispatch heap wrapped).2 ≡ 65 ∷ 66 ∷ 64 ∷ []))
dispatch-front_example =
    dispatch-front heap wrapped 64 (65 ∷ 66 ∷ []) waiting wrapped-IsRing refl refl (omega arith)
      refl

abbrev busy_process : Process
busy_process = record waiting { state = running }

abbrev busy_heap : Heap
busy_heap = update (λ _. none) 70 (some busy_process)

abbrev busy : Scheduler
busy = record wrapped { current = 70 }

yield-round_robin_example :
    ((yield busy_heap busy).0 ≡ success)
    × ((yield busy_heap busy).1
        ≡ update busy_heap 70 (some (record busy_process { state = ready })))
    × ((yield busy_heap busy).2.current ≡ null)
    × (queue (yield busy_heap busy).2 ≡ 64 ∷ 65 ∷ 66 ∷ 70 ∷ [])
yield-round_robin_example =
    yield-round_robin busy_heap busy busy_process
      (record { fixed = refl; head_in = omega arith; fits = omega arith; tail_at = refl })
      (omega arith) (omega arith) refl refl
