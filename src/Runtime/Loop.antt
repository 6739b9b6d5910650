-- ===== src/Runtime/Loop.antt =====
-- src/embla.c: the loop of `embla_run`, and the shutdown that follows it.
use embla.Prelude.{
  ℕ, zero, suc, ◌+◌, Bool, not, ◌&&◌, Option, none, some, List, [], ◌∷◌, ℤ, success, failure, ◌==◌,
  ltb, eqb_ℤ, if◌then◌else◌,
}
use embla.Process.{null, root_pid}
use embla.Executor.{Poll, poll_error, nothing, event}
use embla.ProcessManager.{wait_child, live_count}
use embla.Scheduler.{dispatch, ready_count}
use embla.Runtime.{Embla, reap_child, handle_child_event, stop, halted, active, stopping}

-- The endless loop, on fuel: each round destroys a process of the table.
unfoldable pub reap_root_children : (fuel : ℕ) → Embla → ℤ × Embla
reap_root_children zero e = (failure, e)
reap_root_children (suc fuel) e =
    let (code, _, e') = reap_child e root_pid in
    let rest = reap_root_children fuel e' in
    if wait_child e.process_manager e.heap root_pid == null
    then (success, e)
    else if eqb_ℤ code success
    then rest
    else (failure, e')

unfoldable pub shutdown : Embla → ℤ × Embla
shutdown e = elim e.state [
  | stopping ↦
      let (code, e') = reap_root_children (e.process_manager.count + 1) e in
      if eqb_ℤ code success then (success, record e' { state = halted }) else (failure, e')
  | _ ↦ (failure, e)
]

-- How one round of the loop of `embla_run` ends: by `return`, by `break`, or in the next round.
pub data Round : Type 0 where
  returned : ℤ → Embla → Round
  broke again : Embla → Round

unfoldable pub round_end : Embla → Round
unfolding stop
round_end e = if live_count e.process_manager e.heap == 0 then broke (stop e).1 else again e

unfoldable pub round : Embla → Poll → (iterator : Bool) → Round
unfolding round_end
round e poll_error iterator = returned failure (record e { state = halted })
round e nothing iterator = round_end e
round e (event host_id status usage) iterator =
    let (handled, e') = handle_child_event e host_id status usage iterator in
    let (sent, heap, scheduler) = dispatch e'.heap e'.scheduler in
    let e'' = record e' { heap = heap; scheduler = scheduler } in
    if not (eqb_ℤ handled success)
    then returned failure (record e' { state = halted })
    else if e'.scheduler.current == null && ltb 0 (ready_count e'.scheduler)
    then (if eqb_ℤ sent success
        then round_end e''
        else returned failure (record e'' { state = halted }))
    else round_end e'

-- What follows the loop.
unfoldable pub finish : Embla → ℤ × Embla
finish e = elim e.state [
  | stopping ↦
      let (code, e') = shutdown e in if eqb_ℤ code success then (success, e') else (failure, e')
  | _ ↦ (success, e)
]

-- The loop over what its polls give; `none` while it still runs when they are used up.
unfoldable pub loop : List (Poll × Bool) → Embla → Option (ℤ × Embla)
loop [] e = none
loop ((poll, iterator) ∷ polls) e = elim e.state [
  | active ↦ elim (round e poll iterator) [
    | returned code e' ↦ some (code, e')
    | broke e' ↦ some (finish e')
    | again e' ↦ loop polls e'
  ]
  | _ ↦ some (finish e)
]

unfoldable pub run : List (Poll × Bool) → Embla → Option (ℤ × Embla)
run polls e = elim e.state [
  | halted ↦
      let (sent, heap, scheduler) = dispatch e.heap e.scheduler in
      let e' = record e { heap = heap; scheduler = scheduler; state = active } in
      if ltb 0 (ready_count e.scheduler)
      then (if eqb_ℤ sent success
          then loop polls e'
          else some (failure, record e' { state = halted }))
      else loop polls (record e { state = active })
  | _ ↦ some (failure, e)
]
