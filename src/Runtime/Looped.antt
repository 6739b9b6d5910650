-- ===== src/Runtime/Looped.antt =====
-- `embla_run` with its loop and its shutdown, for a property that its parts keep.
use embla.Prelude.{
  ℕ, zero, suc, ◌+◌, ◌≡◌, refl, Bool, Option, some, ◌==◌, inl, inr, List, [], ◌∷◌, ℤ, if-both, not,
  ◌&&◌, eqb_ℤ, success, failure, ltb, ◌⊎◌, subst,
}
use mathlib.Core.Option.{some-injective, none-ne-some}
use embla.Process.{null, Heap, running, transition, root_pid}
use embla.Executor.{Poll, poll_error, nothing, event, WaitStatus, Usage}
use embla.ProcessManager.{wait_child, live_count}
use embla.ProcessManager.Frame.{Alike}
use embla.Scheduler.{Scheduler, dispatch, next, ready_count}
use embla.Scheduler.Dispatch.{dispatch-IsRing}
use embla.Runtime.{
  Embla, EmblaState, halted, active, stopping, reap_child, handle_child_event, stop,
}
use embla.Runtime.Loop.{
  Round, returned, broke, again, reap_root_children, shutdown, round_end, round, finish, loop, run,
}
use embla.Runtime.Invariant.{IsRuntime, transition-Alike, same-Alike, heap-IsRuntime}

pub dispatch-Alike : (h : Heap) (s : Scheduler) → Alike h (dispatch h s).1
unfolding dispatch
dispatch-Alike h s =
    let keeps = λ (r : ℤ × Heap × Scheduler). Alike h r.1 in
    let moved = transition-Alike h (next s).0 running in
    if-both keeps (not (s.current == null)) (same-Alike h) (
      if-both keeps ((next s).0 == null) (same-Alike h)
        (if-both keeps (eqb_ℤ (transition h (next s).0 running).0 success) moved moved))

-- The runtime whose scheduler has dispatched.
abbrev pub dispatched : Embla → Embla
dispatched e =
    let (_, heap, scheduler) = dispatch e.heap e.scheduler in
    record e { heap = heap; scheduler = scheduler }

pub dispatched-IsRuntime : (e : Embla) → IsRuntime e → IsRuntime (dispatched e)
dispatched-IsRuntime e v = record {
  table = (heap-IsRuntime e _ (dispatch-Alike e.heap e.scheduler) v).table;
  directory = v.directory;
  ring = dispatch-IsRing e.heap e.scheduler v.ring;
}

pub state-IsRuntime :
    (e : Embla) (s : EmblaState) → IsRuntime e → IsRuntime (record e { state = s })
state-IsRuntime e s v = record { table = v.table; directory = v.directory; ring = v.ring }

state-cases : (s : EmblaState) → (s ≡ halted) ⊎ (s ≡ active) ⊎ (s ≡ stopping)
state-cases halted = inl refl
state-cases active = inr (inl refl)
state-cases stopping = inr (inr refl)

-- A property that the parts of the loop keep, the loop keeps.
module _ (P : Embla → Type 0)
    (stating : (e : Embla) (s : EmblaState) → P e → P (record e { state = s }))
    (dispatching : (e : Embla) → P e → P (dispatched e))
    (reaping : (e : Embla) (parent : ℕ) → P e → P (reap_child e parent).2)
    (handling : (e : Embla) (host_id : ℤ) (status : WaitStatus) (usage : Usage) (iterator : Bool)
      → P e
      → P (handle_child_event e host_id status usage iterator).1) where
  pub stop_keeps : (e : Embla) → P e → P (stop e).1
  unfolding stop
  stop_keeps e v = elim (state-cases e.state) [
    | inl off ↦ rw (off, stop) v
    | inr (inl on) ↦ rw (on, stop) (stating e stopping v)
    | inr (inr ending) ↦ rw (ending, stop) v
  ]

  reap_root_children_keeps : (fuel : ℕ) (e : Embla) → P e → P (reap_root_children fuel e).1
  unfolding reap_root_children
  reap_root_children_keeps zero e v = v
  reap_root_children_keeps (suc fuel) e v =
      let v' = reaping e root_pid v in
      if-both (λ (r : ℤ × Embla). P r.1) (wait_child e.process_manager e.heap root_pid == null) v
        (if-both (λ (r : ℤ × Embla). P r.1) (eqb_ℤ (reap_child e root_pid).0 success)
          (reap_root_children_keeps fuel (reap_child e root_pid).2 v') v')

  shutdown_keeps : (e : Embla) → P e → P (shutdown e).1
  unfolding shutdown
  shutdown_keeps e v = elim (state-cases e.state) [
    | inl off ↦ rw (off, shutdown) v
    | inr (inl on) ↦ rw (on, shutdown) v
    | inr (inr ending) ↦
        let v' = reap_root_children_keeps (e.process_manager.count + 1) e v in
        rw (ending, shutdown)
          (if-both (λ (r : ℤ × Embla). P r.1)
            (eqb_ℤ (reap_root_children (e.process_manager.count + 1) e).0 success)
            (stating _ halted v') v')
  ]

  finish_keeps : (e : Embla) → P e → P (finish e).1
  unfolding finish
  finish_keeps e v = elim (state-cases e.state) [
    | inl off ↦ rw (off, finish) v
    | inr (inl on) ↦ rw (on, finish) v
    | inr (inr ending) ↦
        rw (ending, finish)
          (if-both (λ (r : ℤ × Embla). P r.1) (eqb_ℤ (shutdown e).0 success) (shutdown_keeps e v)
            (shutdown_keeps e v))
  ]

  abbrev RoundLeaves : Round → Type 0
  RoundLeaves (returned code e) = P e
  RoundLeaves (broke e) = P e
  RoundLeaves (again e) = P e

  round_end_keeps : (e : Embla) → P e → RoundLeaves (round_end e)
  unfolding round_end
  round_end_keeps e v =
      if-both RoundLeaves (live_count e.process_manager e.heap == 0) (stop_keeps e v) v

  round_keeps :
      (e : Embla) (poll : Poll) (iterator : Bool) → P e → RoundLeaves (round e poll iterator)
  unfolding round
  round_keeps e poll_error iterator v = stating e halted v
  round_keeps e nothing iterator v = round_end_keeps e v
  round_keeps e (event host_id status usage) iterator v =
      let e' = (handle_child_event e host_id status usage iterator).1 in
      let v' = handling e host_id status usage iterator v in
      let sent = dispatching e' v' in
      if-both RoundLeaves
        (not (eqb_ℤ (handle_child_event e host_id status usage iterator).0 success))
        (stating e' halted v')
        (if-both RoundLeaves (e'.scheduler.current == null && ltb 0 (ready_count e'.scheduler))
          (if-both RoundLeaves (eqb_ℤ (dispatch e'.heap e'.scheduler).0 success)
            (round_end_keeps (dispatched e') sent) (stating (dispatched e') halted sent))
          (round_end_keeps e' v'))

  -- The runtime that is left, if the loop has ended.
  abbrev pub RunLeaves : Option (ℤ × Embla) → Type 0
  RunLeaves o = (r : ℤ × Embla) → o ≡ some r → P r.1

  ended : (r : ℤ × Embla) → P r.1 → RunLeaves (some r)
  ended r v r' is = subst (λ (r : ℤ × Embla). P r.1) (some-injective r r' is) v

  after_round_keeps :
      (polls : List (Poll × Bool)) (r : Round)
      → RoundLeaves r
      → ((e : Embla) → P e → RunLeaves (loop polls e))
      → RunLeaves (elim r [
        | returned code e ↦ some (code, e)
        | broke e ↦ some (finish e)
        | again e ↦ loop polls e
      ])
  after_round_keeps polls (returned code e) v rest = ended (code, e) v
  after_round_keeps polls (broke e) v rest = ended (finish e) (finish_keeps e v)
  after_round_keeps polls (again e) v rest = rest e v

  loop_keeps : (polls : List (Poll × Bool)) (e : Embla) → P e → RunLeaves (loop polls e)
  unfolding loop
  loop_keeps [] e v = λ r is. absurd (none-ne-some r is)
  loop_keeps ((poll, iterator) ∷ polls) e v = elim (state-cases e.state) [
    | inl off ↦ rw (off, loop) (ended (finish e) (finish_keeps e v))
    | inr (inl on) ↦
        rw (on, loop)
          (after_round_keeps polls (round e poll iterator) (round_keeps e poll iterator v)
            (loop_keeps polls))
    | inr (inr ending) ↦ rw (ending, loop) (ended (finish e) (finish_keeps e v))
  ]

  pub run_keeps : (polls : List (Poll × Bool)) (e : Embla) → P e → RunLeaves (run polls e)
  unfolding run
  run_keeps polls e v = elim (state-cases e.state) [
    | inl off ↦
        rw (off, run)
          (if-both RunLeaves (ltb 0 (ready_count e.scheduler))
            (if-both RunLeaves (eqb_ℤ (dispatch e.heap e.scheduler).0 success)
              (loop_keeps polls _ started) (ended _ (stating _ halted started)))
            (loop_keeps polls _ (stating e active v)))
    | inr (inl on) ↦ rw (on, run) (ended (failure, e) v)
    | inr (inr ending) ↦ rw (ending, run) (ended (failure, e) v)
  ]
    where
      started : P (record (dispatched e) { state = active })
      started = stating (dispatched e) active (dispatching e v)
