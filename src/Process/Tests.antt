-- ===== src/Process/Tests.antt =====
-- Inputs on which the theorems about processes are applied, and small runs.
use embla.Prelude.{◌≡◌, refl, ◌⊎◌, true, none, some, List, [], ◌∷◌, success, failure, update, arith}
use embla.Process.{
  Ptr, Heap, Process, set_parent_id, created, ready, running, blocked, terminated, create,
  transition, get_state, fresh_process,
}
use embla.Process.Machine.{◌⟶◌, transition_refines}
use embla.Process.Calls.{
  Call, moves, sets_parent, run, step, Follows, Event, calls, creates, destroys, happen_all,
  IsSpared, happen_all-Follows,
}

abbrev empty : Heap
empty = λ _. none

abbrev worker : Process
worker = fresh_process 1 0 1 (119 ∷ [])

abbrev one : Heap
one = update empty 64 (some worker)

create-one : create empty 64 true 1 0 1 (some (119 ∷ [])) ≡ (64, one)
unfolding create
create-one = refl

create_refused : (create empty 64 true 4294967295 0 1 (some [])).0 ≡ 0
unfolding create
create_refused = refl

abbrev life : List (Ptr × Call)
life =
    (64, moves ready)
    ∷ (64, moves running)
    ∷ (64, moves blocked)
    ∷ (64, moves running)
    ∷ (64, sets_parent 0)
    ∷ []

transition_refines_example :
    ((created ⟶ ready)
      × (transition one 64 ready
          ≡ (success, update one 64 (some (record worker { state = ready })))))
    ⊎ (¬ (created ⟶ ready) × (transition one 64 ready ≡ (failure, one)))
transition_refines_example = transition_refines one 64 worker ready refl

-- Another process is made and destroyed while this one runs.
abbrev events : List Event
events =
    calls 64 (moves ready)
    ∷ creates 128 true 2 1 1 (some (120 ∷ []))
    ∷ calls 128 (moves ready)
    ∷ calls 64 (moves running)
    ∷ destroys 128
    ∷ calls 64 (moves terminated)
    ∷ []

events_spare : IsSpared 64 one events
unfolding step transition create
events_spare = (refl, ((λ e. absurd (omega (arith, e))), tt))

happen_all-Follows_example :
    (new : Process) × (happen_all one events 64 ≡ some new) × Follows worker new
happen_all-Follows_example = happen_all-Follows one events 64 worker refl events_spare

-- BLOCKED to RUNNING is refused.
life_state : get_state (run one life) 64 ≡ blocked
unfolding run get_state step transition set_parent_id
life_state = refl

abbrev ended : Heap
ended = update empty 64 (some (record worker { state = terminated }))
