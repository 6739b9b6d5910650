-- ===== src/Process/Machine.antt =====
-- The state machine of `process_transition` against its diagram.
use embla.Prelude.{
  ◌≡◌, refl, ◌≢◌, ◌⊎◌, inl, inr, true, Bool-cases, some, success, failure, update, arith,
}
use embla.Process.{
  Ptr, Heap, Process, ProcessState, created, ready, running, stopped, blocked, terminated,
  can_transition, transition,
}

-- The diagram: a process starts once, is dispatched, preempted, blocked, stopped and continued,
-- and ends from every state but the first.
infix 40 ◌⟶◌
pub data ◌⟶◌ : ProcessState → ProcessState → Type 0 where
  admit : created ⟶ ready
  run : ready ⟶ running
  preempt : running ⟶ ready
  block : running ⟶ blocked
  wake : blocked ⟶ ready
  pause_ready : ready ⟶ stopped
  pause_running : running ⟶ stopped
  resume : stopped ⟶ running
  end : {s : ProcessState} → s ≢ created → s ≢ terminated → s ⟶ terminated

ruleset edges = (admit, run, preempt, block, wake, pause_ready, pause_running, resume)

pub can_transition-⟶ : (s t : ProcessState) → can_transition s t ≡ true → s ⟶ t
unfolding can_transition
can_transition-⟶ s t h = grind (arith, edges, end)

pub ⟶-can_transition : {s t : ProcessState} → s ⟶ t → can_transition s t ≡ true
unfolding can_transition
⟶-can_transition admit = refl
⟶-can_transition run = refl
⟶-can_transition preempt = refl
⟶-can_transition block = refl
⟶-can_transition wake = refl
⟶-can_transition pause_ready = refl
⟶-can_transition pause_running = refl
⟶-can_transition resume = refl
⟶-can_transition (end {s = s} a b) = ground arith

-- On a live process the call either follows an edge of the diagram, succeeds, sets the state of that
-- process and changes nothing else; or the diagram has no such edge, and the call fails and leaves
-- the heap as it was.
pub transition_refines :
    (h : Heap) (p : Ptr) (pr : Process) (next : ProcessState)
    → h p ≡ some pr
    → ((pr.state ⟶ next)
        × (transition h p next ≡ (success, update h p (some (record pr { state = next })))))
      ⊎ (¬ (pr.state ⟶ next) × (transition h p next ≡ (failure, h)))
unfolding transition
transition_refines h p pr next e = elim (Bool-cases (can_transition pr.state next)) [
  | inl okay ↦ rw (e, transition, okay) (inl (can_transition-⟶ pr.state next okay, refl))
  | inr refused ↦
      rw (e, transition, refused) (inr ((λ edge. cc (refused, ⟶-can_transition edge)), refl))
]

-- What the diagram allows in several steps.
infix 40 ◌⟶*◌
pub data ◌⟶*◌ : ProcessState → ProcessState → Type 0 where
  here : {s : ProcessState} → s ⟶* s
  then_by : {s t u : ProcessState} → s ⟶* t → t ⟶ u → s ⟶* u
