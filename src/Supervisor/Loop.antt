-- ===== src/Supervisor/Loop.antt =====
-- src/service_orchestrator.c: the supervision loop, between the start of all services and their stop.
use embla.Prelude.{
  ℕ, zero, suc, ◌+◌, Bool, Option, none, some, List, [], ◌∷◌, ℤ, pos, failure, update, ltb_ℤ, eqb_ℤ,
  if◌then◌else◌,
}
use embla.Process.{Ptr}
use embla.Executor.{Poll}
use embla.Runtime.{Embla, Signals}
use embla.Service.{Start, tick, TickResult}
use embla.Registry.{ServiceRegistry, get_at}
use embla.Supervisor.{System, start_all, drain_one_event, Stop, stop_all}

-- The drain loop of `supervise`. Behind the last poll of the list the host has no event.
unfoldable pub drain_all : List Poll → Embla → Embla
drain_all [] e = e
drain_all (poll ∷ polls) e =
    let (code, e') = drain_one_event e poll in
    let rest = drain_all polls e' in if eqb_ℤ code (pos 1) then rest else e'

-- What one call of `service_tick` draws on.
pub record TickInput : Type 0 where
  pub now : ℤ
  pub start : Start

unfoldable pub tick_at : System → Ptr → TickInput → TickResult × System
tick_at sys p input = elim (sys.services p) [
  | none ↦ (TickResult.tick_error, sys)
  | some s ↦
      let (result, s', e) = tick s sys.embla input.now input.start in
      (result, record { embla = e; services = update sys.services p (some s') })
]

-- The loop over the registry's services from slot `i` on; the results of the ticks, in order.
unfoldable pub tick_loop :
    ServiceRegistry → (ℕ → TickInput) → (left i : ℕ) → System → List TickResult × System
tick_loop r inputs zero i sys = ([], sys)
tick_loop r inputs (suc left) i sys =
    let (result, sys') = tick_at sys (get_at r i) (inputs i) in
    let (results, sys'') = tick_loop r inputs left (i + 1) sys' in (result ∷ results, sys'')

-- What the host answers during one turn of the supervision loop.
pub record Turn : Type 0 where
  pub polls : List Poll
  pub inputs : ℕ → TickInput

unfoldable pub turn : ServiceRegistry → Turn → System → List TickResult × System
unfolding drain_all
turn r t sys = tick_loop r t.inputs r.count 0 (record sys { embla = drain_all t.polls sys.embla })

-- The loop: a turn for each time that no shutdown was requested; the results of all its ticks.
unfoldable pub turns : ServiceRegistry → List Turn → System → List (List TickResult) × System
turns r [] sys = ([], sys)
turns r (t ∷ ts) sys =
    let (results, sys') = turn r t sys in
    let (rest, sys'') = turns r ts sys' in (results ∷ rest, sys'')

-- What the memory and the host give to the first and the last step of `supervise`.
pub record Frame : Type 0 where
  pub start_buffer : Bool
  pub start_sorting : Bool
  pub start_garbage : ℕ → Ptr
  pub starts : ℕ → Start
  pub stop_buffer : Bool
  pub stop_sorting : Bool
  pub stop_garbage : ℕ → Ptr
  pub stops : ℕ → Stop

unfoldable pub supervise :
    Signals → ServiceRegistry → System → Frame → (timeout : ℤ) → List Turn → Option (ℤ × System)
supervise signals r sys f timeout ts =
    let (started, sys') = start_all r sys f.start_buffer f.start_sorting f.start_garbage f.starts in
    let (_, sys'') = turns r ts sys' in
    if ltb_ℤ started (pos 0)
    then some (failure, sys')
    else stop_all signals r sys'' f.stop_buffer f.stop_sorting f.stop_garbage timeout f.stops
