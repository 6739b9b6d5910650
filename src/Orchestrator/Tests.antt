-- ===== src/Orchestrator/Tests.antt =====
-- A registry on which the start order is computed.
use embla.Prelude.{
  ℕ, suc, zero, ◌==◌, if◌then◌else◌, arith, ◌≡◌, refl, true, none, some, [], ◌∷◌, update,
}
use embla.Registry.{Services, ServiceRegistry, get, find_index, get_name}
use embla.Service.{Service, bytes_eq}
use embla.Service
use embla.Orchestrator.{
  compute_start_order, visit_all, visit_white, visit, visit_dependencies, visit_dependency,
  visit_index, visit_color, emit, Search, service_index, get_dependencies, Visit, done, refused,
  out_of_fuel,
}
use embla.Orchestrator.Emitted.{emitted}
use embla.Orchestrator.Order.{Sweeps, compute_start_order-Sweeps}
use embla.Orchestrator.Acyclic.{IsRanked, compute_start_order-accepts}
use embla.Table.{find_from}
use embla.Prelude.{List}
use embla.Process.{Ptr}

-- The service `a` (97) depends on `b` (98).
abbrev web : Service
web = record (Service.fresh_service (97 ∷ [])) { dependencies = (98 ∷ []) ∷ [] }

abbrev store : Service
store = Service.fresh_service (98 ∷ [])

abbrev services : Services
services = update (update (λ _. none) 64 (some web)) 65 (some store)

abbrev pair : ServiceRegistry
pair = record { services = update (update (λ _. 0) 0 64) 1 65; count = 2; capacity = 16 }

compute_start_order-Sweeps_example :
    Sweeps pair services (compute_start_order pair services true (λ _. 0))
compute_start_order-Sweeps_example = compute_start_order-Sweeps pair services true (λ _. 0)

abbrev order : Visit → List Ptr
order (done s) = emitted s
order refused = []
order out_of_fuel = []

-- `b` starts first.
pair_first : order (compute_start_order pair services true (λ _. 0)) ≡ 64 ∷ 65 ∷ []
unfolding compute_start_order visit_all visit_white visit visit_dependencies visit_dependency
    visit_index visit_color emit service_index get_dependencies get find_index get_name find_from
    bytes_eq
pair_first = refl

abbrev rank : Ptr → ℕ
rank p = if p == 64 then 1 else 0

ranked : IsRanked pair services rank
unfolding get find_index get_name find_from bytes_eq get_dependencies
ranked zero lt = (((λ e. absurd (cc e)), omega arith), tt)
ranked (suc zero) lt = tt
ranked (suc (suc i)) lt = absurd (omega arith)

compute_start_order-accepts_example :
    (s : Search) × (compute_start_order pair services true (λ _. 0) ≡ done s)
compute_start_order-accepts_example = compute_start_order-accepts pair services (λ _. 0) rank ranked
