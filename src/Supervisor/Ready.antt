-- ===== src/Supervisor/Ready.antt =====
-- Starting all services: what runs afterwards, and what runs with it.
use embla.Prelude.{◌≡◌, ◌⊎◌, true}
use embla.Process.{Ptr}
use embla.Service.{Service}
use embla.Registry.{Services, ServiceRegistry, get_name}
use embla.Orchestrator.{get_dependencies}
use embla.Supervisor.{runs, all_running}

-- No service changes its name or its dependencies, and none stops.
pub record Onward (ss ss' : Services) : Type 0 where
  pub name : (p : Ptr) → get_name ss' p ≡ get_name ss p
  pub dependencies : (p : Ptr) → get_dependencies ss' p ≡ get_dependencies ss p
  pub running : (p : Ptr) → runs ss p ≡ true → runs ss' p ≡ true

-- What runs in `ss'` ran in `ss` already, or all that it depends on runs in `ss'` too.
abbrev pub AreReady : ServiceRegistry → Services → Services → Type 0
AreReady r ss ss' =
    (p : Ptr)
    → runs ss' p ≡ true
    → (runs ss p ≡ true) ⊎ (all_running r ss' (get_dependencies ss' p) ≡ true)
