-- ===== src/Runtime/Shutdown.antt =====
-- How the loop of `embla_run` ends, and what the shutdown leaves.
use embla.Prelude.{
  ℕ, zero, suc, ◌+◌, ◌<◌, ◌≡◌, ◌≢◌, ◌⊎◌, inl, inr, Bool, true, false, Option, none, some, List, [],
  ◌∷◌, refl, ◌∙◌, arith, ℤ, success, failure, not, ltb, ◌&&◌, Bool-cases, ◌==◌, eqb_ℤ, ==_iff,
  if◌then◌else◌,
}
use embla.Scheduler.{dispatch, ready_count}
use embla.Process.{set_exit_code, set_term_signal, Ptr, null, Heap, get_id, root_pid, invalid_pid}
use embla.Executor.{
  Poll, poll_error, nothing, event, WaitStatus, exited, signaled, stopped_by, continued,
  other_status, Usage,
}
use embla.ProcessManager.{
  ProcessManager, destroy_process, destroy_at, find_index, wait_child, get_by_host_id, live_count,
}
use embla.Table.Laws.{Search, find_from-Search}
use embla.Runtime.{
  Embla, halted, active, stopping, reap_found_process, reap_child, stop, handle_child_event,
  child_status, child_terminated,
}
use embla.Runtime.Loop.{
  reap_root_children, shutdown, finish, loop, run, Round, round, round_end, returned, broke, again,
}

destroy_process-shrinks :
    (m : ProcessManager) (h : Heap) (id : ℕ)
    → (destroy_process m h id).0 ≡ success
    → (destroy_process m h id).2.count + 1 ≡ m.count
unfolding destroy_process destroy_at find_index
destroy_process-shrinks m h id done =
    shrinks (find_index m h id) (find_from-Search m.processes (λ p. get_id h p == id) m.count 0)
      done
  where
    shrinks :
        (i : Option ℕ)
        → Search m.processes (λ p. get_id h p == id) m.count 0 i
        → (if id == invalid_pid then (failure, h, m) else destroy_at m h i).0 ≡ success
        → (if id == invalid_pid then (failure, h, m) else destroy_at m h i).2.count + 1 ≡ m.count
    shrinks none found ok = ground arith
    shrinks (some index) (from, below, hit, first) ok = ground arith

reap_found_process-shrinks :
    (e : Embla) (p : Ptr)
    → (reap_found_process e p).0 ≡ success
    → (reap_found_process e p).1.process_manager.count + 1 ≡ e.process_manager.count
unfolding reap_found_process
reap_found_process-shrinks e p done =
    let gone = destroy_process-shrinks e.process_manager e.heap (get_id e.heap p) in ground arith

reap_child-shrinks :
    (e : Embla) (parent : ℕ)
    → (reap_child e parent).0 ≡ success
    → (reap_child e parent).2.process_manager.count + 1 ≡ e.process_manager.count
unfolding reap_child
reap_child-shrinks e parent done =
    let found = reap_found_process-shrinks e (wait_child e.process_manager e.heap parent) in
    ground arith

-- No terminated child of the root is left; or one was left that could not be reaped.
abbrev pub Empties : ℤ × Embla → Type 0
Empties (code, e') =
    ((code ≡ success) × (wait_child e'.process_manager e'.heap root_pid ≡ null))
    ⊎ ((code ≡ failure)
        × ((e : Embla) × (wait_child e.process_manager e.heap root_pid ≢ null)
            × ((reap_child e root_pid).0 ≢ success)
            × (e' ≡ (reap_child e root_pid).2)))

-- The shutdown's loop ends for the reasons of the code, never for want of fuel.
reap_root_children-Empties :
    (fuel : ℕ) (e : Embla) → e.process_manager.count < fuel → Empties (reap_root_children fuel e)
unfolding reap_root_children
reap_root_children-Empties zero e lt = absurd (omega arith)
reap_root_children-Empties (suc fuel) e lt =
    elim (Bool-cases (wait_child e.process_manager e.heap root_pid == null)) [
      | inl empty ↦ rw (empty, reap_root_children) (inl (refl, (==_iff _ _).0 empty))
      | inr child ↦ elim (Bool-cases (eqb_ℤ (reap_child e root_pid).0 success)) [
        | inl reaped ↦
            rw (child, reaped, reap_root_children)
              (reap_root_children-Empties fuel (reap_child e root_pid).2
                (ground (arith, reap_child-shrinks e root_pid)))
        | inr failed ↦
            rw (child, failed, reap_root_children)
              (inr (refl, (e, (ground arith), (ground arith), refl)))
      ]
    ]

stop-state : (e : Embla) → e.state ≡ active → (stop e).1.state ≡ stopping
unfolding stop
stop-state e on = rw (on, stop) refl

child_terminated-state :
    (e : Embla) (p : Ptr) (usage : Usage) (iterator : Bool)
    → (child_terminated e p usage iterator).1.state ≡ e.state
unfolding child_terminated
child_terminated-state e p usage iterator = ground arith

child_status-state :
    (e : Embla) (p : Ptr) (status : WaitStatus) (usage : Usage) (iterator : Bool)
    → (child_status e p status usage iterator).1.state ≡ e.state
unfolding child_status
child_status-state e p (exited code) usage iterator =
    let ended =
      child_terminated-state (record e { heap = (set_exit_code e.heap p code).1 }) p usage
        iterator in
    ground arith
child_status-state e p (signaled number) usage iterator =
    let ended =
      child_terminated-state (record e { heap = (set_term_signal e.heap p number).1 }) p usage
        iterator in
    ground arith
child_status-state e p (stopped_by number) usage iterator = refl
child_status-state e p continued usage iterator = refl
child_status-state e p other_status usage iterator = refl

handle_child_event-state :
    (e : Embla) (host_id : ℤ) (status : WaitStatus) (usage : Usage) (iterator : Bool)
    → (handle_child_event e host_id status usage iterator).1.state ≡ e.state
unfolding handle_child_event
handle_child_event-state e host_id status usage iterator =
    let p = get_by_host_id e.process_manager e.heap host_id in
    let kept = child_status-state e p status usage iterator in ground arith

-- How a round of the running loop may end: a return reports an error, a break has asked for the
-- shutdown and found no live process, and otherwise the runtime runs on.
abbrev pub RoundEnds : Round → Type 0
RoundEnds (returned code e) = (code ≡ failure) × (e.state ≡ halted)
RoundEnds (broke e) = (e.state ≡ stopping) × (live_count e.process_manager e.heap ≡ 0)
RoundEnds (again e) = e.state ≡ active

round_end-RoundEnds : (e : Embla) → e.state ≡ active → RoundEnds (round_end e)
unfolding round_end stop
round_end-RoundEnds e on = elim (Bool-cases (live_count e.process_manager e.heap == 0)) [
  | inl none_live ↦ rw (none_live, round_end) (rw (on, stop) (refl, (==_iff _ _).0 none_live))
  | inr some_live ↦ rw (some_live, round_end) on
]

if-RoundEnds : (b : Bool) (x y : Round) → RoundEnds x → RoundEnds y → RoundEnds (if b then x else y)
if-RoundEnds true x y = λ yes no. yes
if-RoundEnds false x y = λ yes no. no

round-RoundEnds :
    (e : Embla) (poll : Poll) (iterator : Bool)
    → e.state ≡ active
    → RoundEnds (round e poll iterator)
unfolding round
round-RoundEnds e poll_error iterator on = (refl, refl)
round-RoundEnds e nothing iterator on = round_end-RoundEnds e on
round-RoundEnds e (event host_id status usage) iterator on =
    let (handled, e') = handle_child_event e host_id status usage iterator in
    let (sent, heap, scheduler) = dispatch e'.heap e'.scheduler in
    let e'' = record e' { heap = heap; scheduler = scheduler } in
    let on' = handle_child_event-state e host_id status usage iterator ∙ on in
    let plain = round_end-RoundEnds e' on' in
    let dispatched = round_end-RoundEnds e'' on' in
    if-RoundEnds (not (eqb_ℤ handled success)) _ _ (refl, refl)
      (if-RoundEnds (e'.scheduler.current == null && ltb 0 (ready_count e'.scheduler)) _ _
        (if-RoundEnds (eqb_ℤ sent success) _ _ dispatched (refl, refl)) plain)

-- What `embla_run` comes to: success, and then it is stopped again and no terminated child of the
-- root is left; or an error.
abbrev pub Halts : ℤ × Embla → Type 0
Halts (code, e) =
    ((code ≡ success) × (e.state ≡ halted) × (wait_child e.process_manager e.heap root_pid ≡ null))
    ⊎ (code ≡ failure)

shutdown-Halts : (e : Embla) → e.state ≡ stopping → Halts (shutdown e)
unfolding shutdown
shutdown-Halts e down =
    elim (reap_root_children-Empties (e.process_manager.count + 1) e (omega arith)) [
      | inl (fine, empty) ↦ rw (down, shutdown) (rw fine (inl (refl, refl, empty)))
      | inr (failed, _) ↦ rw (down, shutdown) (rw failed (inr refl))
    ]

finish-Halts : (e : Embla) → e.state ≡ stopping → Halts (finish e)
unfolding finish
finish-Halts e down = elim (shutdown-Halts e down) [
  | inl (fine, stopped, empty) ↦ rw (down, finish) (rw fine (inl (refl, stopped, empty)))
  | inr failed ↦ rw (down, finish) (rw failed (inr refl))
]

abbrev pub Ended : Option (ℤ × Embla) → Type 0
Ended result = (r : ℤ × Embla) × (result ≡ some r) × Halts r

-- Some poll of the list fails.
abbrev pub Fails : List (Poll × Bool) → Type 0
Fails [] = ⊥
Fails ((poll, iterator) ∷ polls) = (poll ≡ poll_error) ⊎ Fails polls

failing_round :
    (e : Embla) (poll : Poll) (iterator : Bool) (e' : Embla)
    → poll ≡ poll_error
    → round e poll iterator ≢ again e'
unfolding round
failing_round e poll_error iterator e' fails same = cc same
failing_round e nothing iterator e' fails same = cc fails
failing_round e (event host_id status usage) iterator e' fails same = cc fails

still-Fails :
    (poll : Poll) (iterator : Bool) (polls : List (Poll × Bool)) (e e' : Embla)
    → Fails ((poll, iterator) ∷ polls)
    → round e poll iterator ≡ again e'
    → Fails polls
still-Fails poll iterator polls e e' (inl now) same =
    absurd (failing_round e poll iterator e' now same)
still-Fails poll iterator polls e e' (inr later) same = later

after_round :
    (polls : List (Poll × Bool)) (r : Round)
    → RoundEnds r
    → ((e : Embla) → r ≡ again e → e.state ≡ active → Ended (loop polls e))
    → Ended (elim r [
      | returned code e ↦ some (code, e)
      | broke e ↦ some (finish e)
      | again e ↦ loop polls e
    ])
after_round polls (returned code e) (failed, off) rest = ((code, e), refl, inr failed)
after_round polls (broke e) (down, none_live) rest = (finish e, refl, finish-Halts e down)
after_round polls (again e) on rest = rest e refl on

loop-Halts :
    (polls : List (Poll × Bool)) (e : Embla) → e.state ≡ active → Fails polls → Ended (loop polls e)
unfolding loop
loop-Halts [] e on fails = absurd fails
loop-Halts ((poll, iterator) ∷ polls) e on fails =
    rw (on, loop)
      (after_round polls (round e poll iterator) (round-RoundEnds e poll iterator on)
        (λ e' same on'. loop-Halts polls e' on' (still-Fails poll iterator polls e e' fails same)))

-- `embla_run` on a runtime that is stopped ends, at the latest with the first poll that fails. It
-- reports an error; or success, and then the runtime is stopped again and no terminated child of
-- the root is left.
pub run-Halts :
    (polls : List (Poll × Bool)) (e : Embla) → e.state ≡ halted → Fails polls → Ended (run polls e)
unfolding run
run-Halts polls e off fails =
    let (sent, heap, scheduler) = dispatch e.heap e.scheduler in
    let e' = record e { heap = heap; scheduler = scheduler; state = active } in
    elim (Bool-cases (ltb 0 (ready_count e.scheduler))) [
      | inr idle ↦ rw (off, idle, run) (loop-Halts polls (record e { state = active }) refl fails)
      | inl waiting ↦ elim (Bool-cases (eqb_ℤ sent success)) [
        | inl okay ↦ rw (off, waiting, okay, run) (loop-Halts polls e' refl fails)
        | inr failed ↦
            rw (off, waiting, failed, run) ((failure, record e' { state = halted }), refl, inr refl)
      ]
    ]
