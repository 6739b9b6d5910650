-- ===== src/Supervisor.antt =====
-- src/service_orchestrator.c, the part that acts: starting all services in their order, polling the
-- host for one event, waiting for one service to end, and stopping all; the supervision stands in
-- `Loop`.
-- What the allocations, the clock and the host answer are arguments: one record for each start or
-- stop, and one for each round of a loop that polls. The registry itself does not change.
pub mod Loop
pub mod Kept
pub mod Growth
pub mod Ready
pub mod Ending
mod Tests
use embla.Prelude.{
  ℕ, zero, suc, ◌+◌, ◌-◌, Bool, true, false, not, ◌&&◌, ◌||◌, Option, none, some, List, [], ◌∷◌, ℤ,
  pos, success, failure, update, ◌==◌, ltb_ℤ, eqb_ℤ, ◌+ℤ◌, if◌then◌else◌,
}
use embla.Process.{Ptr, null, CString, transition, set_exit_code, set_term_signal, terminated}
use embla.Executor.{
  WaitStatus, exited, signaled, Poll, poll_error, nothing, event, apply_rusage, Usage,
}
use embla.ProcessManager.{get_by_host_id}
use embla.Runtime.{Embla, Signals}
use embla.Service.{Service, Start, is_running, start, stop, kill, reap, tick, TickResult}
use embla.Registry.{Services, ServiceRegistry, get, get_at}
use embla.Orchestrator.{
  Visit, done, refused, out_of_fuel, compute_start_order, Search, get_dependencies,
}

-- The runtime and the heap of services, which every operation here works on.
pub record System : Type 0 where
  pub embla : Embla
  pub services : Services

-- `service_get_state(service) == SERVICE_RUNNING`, false for NULL.
abbrev pub runs : Services → Ptr → Bool
runs ss p = elim (ss p) [ none ↦ false | some s ↦ is_running s.state ]

-- The inner loop of `start_all`, which stops at the first dependency that does not run.
unfoldable pub all_running : ServiceRegistry → Services → List CString → Bool
all_running r ss [] = true
all_running r ss (name ∷ names) =
    let rest = all_running r ss names in
    if get r ss (some name) == null || not (runs ss (get r ss (some name))) then false else rest

-- `service_start` on the service at an address.
unfoldable pub start_at : System → Ptr → Start → ℤ × System
start_at sys p env = elim (sys.services p) [
  | none ↦ (failure, sys)
  | some s ↦
      let (code, s', e) = start s sys.embla env in
      (code, record { embla = e; services = update sys.services p (some s') })
]

-- One round of the loop of `start_all`; the flag is whether the service was started.
unfoldable pub start_next : ServiceRegistry → System → Ptr → Start → Bool × System
unfolding all_running start_at
start_next r sys p env =
    let (code, sys') = start_at sys p env in
    if all_running r sys.services (get_dependencies sys.services p)
    then (eqb_ℤ code success, sys')
    else (false, sys)

-- The loop of `start_all` over the order from slot `i` on, with the slots left.
unfoldable pub start_loop :
    ServiceRegistry → (order : ℕ → Ptr) → (ℕ → Start) → (left i started : ℕ) → System → ℕ × System
start_loop r order envs zero i started sys = (started, sys)
start_loop r order envs (suc left) i started sys =
    let (fresh, sys') = start_next r sys (order i) (envs i) in
    start_loop r order envs left (i + 1) (if fresh then started + 1 else started) sys'

-- The length and the slots of the order that `compute_start_order` gives, if it gives one.
abbrev pub order_of : Visit → Option (ℕ × (ℕ → Ptr))
order_of (done s) = some (s.out_index, s.out_order)
order_of refused = none
order_of out_of_fuel = none

abbrev pub start_order :
    ServiceRegistry → Services → (sorting : Bool) → (ℕ → Ptr) → Option (ℕ × (ℕ → Ptr))
start_order r ss sorting garbage = order_of (compute_start_order r ss sorting garbage)

-- `buffer` and `sorting` are whether the order's buffer and the sort's two arrays can be allocated,
-- `garbage` is what the buffer holds at first. The result is the number started, or -1.
unfoldable pub start_all :
    ServiceRegistry → System → (buffer sorting : Bool) → (ℕ → Ptr) → (ℕ → Start) → ℤ × System
start_all r sys buffer sorting garbage envs =
    if r.count == 0
    then (pos 0, sys)
    else if not buffer
    then (failure, sys)
    else elim (start_order r sys.services sorting garbage) [
      | none ↦ (failure, sys)
      | some (count, order) ↦
          let (started, sys') = start_loop r order envs count 0 0 sys in (pos started, sys')
    ]

-- What `drain_one_event` does with a status of a process that it knows.
unfoldable pub drain_status : Embla → Ptr → WaitStatus → Usage → Embla
drain_status e p (exited code) usage =
    let (_, h₁) = set_exit_code e.heap p code in
    let (_, h₂) = transition h₁ p terminated in record e { heap = (apply_rusage h₂ p usage).1 }
drain_status e p (signaled number) usage =
    let (_, h₁) = set_term_signal e.heap p number in
    let (_, h₂) = transition h₁ p terminated in record e { heap = (apply_rusage h₂ p usage).1 }
drain_status e p _ usage = e

-- 1 for an event, 0 for none, -1 for an error of the poll.
unfoldable pub drain_one_event : Embla → Poll → ℤ × Embla
unfolding drain_status
drain_one_event e poll_error = (failure, e)
drain_one_event e nothing = (pos 0, e)
drain_one_event e (event host_id status usage) =
    let p = get_by_host_id e.process_manager e.heap host_id in
    if p == null then (pos 1, e) else (pos 1, drain_status e p status usage)

-- A round of a waiting loop: what the clock reads before it, and what the poll in it answers.
pub record Round : Type 0 where
  pub clock : ℤ
  pub poll : Poll

-- The loop of `wait_for_termination`; `none` while it still waits when its rounds are used up.
unfoldable pub wait_for_termination :
    (deadline : ℤ) → List Round → Service → Embla → Option (ℤ × Service × Embla)
wait_for_termination deadline [] s e = none
wait_for_termination deadline (round ∷ rounds) s e =
    let (reaped, s', e') = reap s e in
    let (drained, e'') = drain_one_event e' round.poll in
    let rest = wait_for_termination deadline rounds s' e'' in
    if not (ltb_ℤ round.clock deadline)
    then some (pos 0, s, e)
    else if eqb_ℤ reaped (pos 1)
    then some (pos 1, s', e')
    else if ltb_ℤ reaped (pos 0)
    then some (failure, s', e')
    else if ltb_ℤ drained (pos 0)
    then some (failure, s', e'')
    else rest

-- What the host answers while one service is stopped.
pub record Stop : Type 0 where
  pub delivered : Bool
  pub clock : ℤ
  pub rounds : List Round
  pub kill_delivered : Bool
  pub kill_clock : ℤ
  pub kill_rounds : List Round

-- SERVICE_ORCHESTRATOR_KILL_WAIT_SECONDS
abbrev pub kill_wait : ℤ
kill_wait = pos 2000000000

module _ (signals : Signals) where
  -- The escalation to SIGKILL. The code is 1 if the service has ended, as that of the wait.
  unfoldable pub escalate : Service → Embla → Stop → Option (ℤ × Service × Embla)
  escalate s e env =
      let (killed, _) = kill signals s e env.kill_delivered in
      if eqb_ℤ killed success
      then wait_for_termination (env.kill_clock +ℤ kill_wait) env.kill_rounds s e
      else some (pos 0, s, e)

  -- One round of the loop of `stop_all` on a service that runs.
  unfoldable pub stop_service :
      (timeout : ℤ) → Service → Embla → Stop → Option (ℤ × Service × Embla)
  unfolding escalate
  stop_service timeout s e env =
      let (code, s', _) = stop signals s e env.delivered in
      if not (eqb_ℤ code success)
      then some (pos 0, s', e)
      else elim (wait_for_termination (env.clock +ℤ timeout) env.rounds s' e) [
        | none ↦ none
        | some (ended, s'', e') ↦
            if eqb_ℤ ended (pos 1) then some (ended, s'', e') else escalate s'' e' env
      ]

  -- The flag is whether the service was stopped; a service that does not run is passed over.
  unfoldable pub stop_next : (timeout : ℤ) → System → Ptr → Stop → Option (Bool × System)
  unfolding stop_service
  stop_next timeout sys p env = elim (sys.services p) [
    | none ↦ some (false, sys)
    | some s ↦
        if not (is_running s.state)
        then some (false, sys)
        else elim (stop_service timeout s sys.embla env) [
          | none ↦ none
          | some (ended, s', e) ↦ some (
            eqb_ℤ ended (pos 1),
            record { embla = e; services = update sys.services p (some s') },
          )
        ]
  ]

  -- The loop of `stop_all` down from slot `i`.
  unfoldable pub stop_loop :
      (timeout : ℤ)
      → (order : ℕ → Ptr) → (ℕ → Stop)
      → (i stopped : ℕ) → System
      → Option (ℕ × System)
  stop_loop timeout order envs zero stopped sys = some (stopped, sys)
  stop_loop timeout order envs (suc i) stopped sys =
      elim (stop_next timeout sys (order i) (envs i)) [
        | none ↦ none
        | some (fresh, sys') ↦
            stop_loop timeout order envs i (if fresh then stopped + 1 else stopped) sys'
      ]

  unfoldable pub stop_all :
      ServiceRegistry
      → System
      → (buffer sorting : Bool) → (ℕ → Ptr)
      → (timeout : ℤ) → (ℕ → Stop)
      → Option (ℤ × System)
  stop_all r sys buffer sorting garbage timeout envs =
      if r.count == 0
      then some (pos 0, sys)
      else if not buffer
      then some (failure, sys)
      else elim (start_order r sys.services sorting garbage) [
        | none ↦ some (failure, sys)
        | some (count, order) ↦ elim (stop_loop timeout order envs count 0 sys) [
          | none ↦ none
          | some (stopped, sys') ↦ some (pos stopped, sys')
        ]
      ]
