-- ===== src/Supervisor/Tests.antt =====
-- A registry under supervision, and what the host answers it.
use embla.Prelude.{
  ℕ, ◌≡◌, ◌⊎◌, refl, true, false, none, some, [], ◌∷◌, List, ℤ, pos, failure, update, inl, inr,
  ◌+ℤ◌,
}
use embla.Process.{Ptr, Process, fresh_process, running, Heap}
use embla.Executor.{forked, Poll, nothing, event, exited, Usage}
use embla.Runtime.{Embla, Memory, GroupMemory, Signals}
use embla.Runtime
use embla.Service.{Service, Start, tick_restarted}
use embla.Service
use embla.Registry.{Services, ServiceRegistry}
use embla.Supervisor.{System, runs, Stop, Round, stop_all}
use embla.Supervisor.Loop.{Turn, turns}
use embla.Supervisor.Growth.{GrowsBy, all_restarts, turns-GrowsBy}
use embla.Supervisor.Ending.{stop_all-Ends}

-- The service `a` (97) depends on `b` (98), which may run.
abbrev web : Service
web = record (Service.fresh_service (97 ∷ [])) { dependencies = (98 ∷ []) ∷ [] }

abbrev store : Service
store = record (Service.fresh_service (98 ∷ [])) {
  state = Service.running;
  process = 80;
  restart_pending = true;
}

abbrev services : Services
services = update (update (λ _. none) 64 (some web)) 65 (some store)

abbrev pair : ServiceRegistry
pair = record { services = update (update (λ _. 0) 0 64) 1 65; count = 2; capacity = 16 }

abbrev job : Process
job = record (fresh_process 2 0 1 []) { state = running; host_id = pos 400 }

abbrev heap : Heap
heap = update (λ _. none) 80 (some job)

abbrev idle : Embla
idle = record {
  process_manager = record {
    processes = update (λ _. 0) 0 80;
    count = 1;
    capacity = 16;
    next_pid = 3;
    iterator_index = 0;
  };
  process_group_manager = record { groups = λ _. 0; count = 0; capacity = 16; next_id = 2 };
  scheduler = record {
    ready_queue = λ _. 80;
    capacity = 16;
    head = 3;
    tail = 3;
    count = 16;
    current = 0;
  };
  state = Runtime.active;
  heap = heap;
  groups = λ _. none;
}

abbrev system : System
system = record { embla = idle; services = services }

abbrev start : Start
start = record {
  group_memory = record { block = 96; members = true; garbage = 0 };
  memory = record { block = 97; copied = true };
  host = record { fork = forked (pos 401); setpgid = true; eacces = false };
  clock = pos 1000;
}

abbrev usage : Usage
usage = record { user = pos 20; system = pos 10; max_rss = pos 4096 }

abbrev ended : Poll
ended = event (pos 400) (exited (pos 1)) usage

abbrev days : List Turn
days =
    record { polls = ended ∷ []; inputs = λ _. record { now = pos 2000; start = start } }
    ∷ record { polls = []; inputs = λ _. record { now = pos 3000; start = start } }
    ∷ []

-- The same with `b` stopped and due for a restart, and three places left in the queue.
abbrev resting : Service
resting = record store { state = Service.stopped; process = 0 }

abbrev roomy : System
roomy = record {
  embla = record idle { scheduler = record idle.scheduler { count = 13; tail = 0 } };
  services = update services 65 (some resting);
}

turns-GrowsBy_example :
    GrowsBy roomy.embla.scheduler
      (all_restarts (turns pair days roomy).0)
      (turns pair days roomy).1.embla.scheduler
turns-GrowsBy_example = turns-GrowsBy pair days roomy

abbrev signals : Signals
signals = record { sigterm = 15; sigstop = 19; sigcont = 18; sigkill = 9 }

abbrev rounds : List Round
rounds =
    record { clock = pos 10; poll = ended } ∷ record { clock = pos 5000000000; poll = nothing } ∷ []

abbrev answers : Stop
answers = record {
  delivered = true;
  clock = pos 0;
  rounds = rounds;
  kill_delivered = true;
  kill_clock = pos 0;
  kill_rounds = rounds;
}

stop_all-Ends_example :
    (code : ℤ) × (sys' : System) × (stop_all signals pair system true true
        (λ _. 0)
        (pos 1000)
        (λ _. answers)
      ≡ some (code, sys'))
    × (((code ≡ failure) × (sys' ≡ system)) ⊎ ((n : ℕ) × (code ≡ pos n)))
    × ((p : Ptr) → runs sys'.services p ≡ true → runs services p ≡ true)
unfolding ◌+ℤ◌
stop_all-Ends_example =
    stop_all-Ends signals pair system true true (λ _. 0) (pos 1000) (λ _. answers)
      (λ _. (inr (inl refl), inr (inl refl)))
