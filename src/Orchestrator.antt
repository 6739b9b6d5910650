-- ===== src/Orchestrator.antt =====
-- src/service_orchestrator.c: the start order of the services, by a depth-first search over their
-- dependencies with three colours. `all_services` is the registry's array, `out_order` an array
-- and its length. The recursion goes on fuel, `count + 1` at the start.
pub mod Emitted
pub mod Order
pub mod Acyclic
mod Tests
use embla.Prelude.{
  ℕ, zero, suc, ◌+◌, Bool, true, false, Option, none, some, List, [], ◌∷◌, ℤ, success, failure,
  update, ◌==◌, if◌then◌else◌,
}
use embla.Process.{Ptr, null, CString}
use embla.Registry.{Services, ServiceRegistry, get}
use embla.Service.{Service}
use embla.Table.{find_from}

pub data Color : Type 0 where
  white gray black : Color

pub record Search : Type 0 where
  pub colors : ℕ → Color
  pub out_order : ℕ → Ptr
  pub out_index : ℕ

-- `cycle` stands for each of the three errors that end a visit.
pub data Visit : Type 0 where
  done : Search → Visit
  refused out_of_fuel : Visit

unfoldable pub get_dependencies : Services → Ptr → List CString
get_dependencies ss p = elim (ss p) [ none ↦ [] | some s ↦ s.dependencies ]

module _ (r : ServiceRegistry) (ss : Services) where
  unfoldable pub service_index : Ptr → Option ℕ
  service_index target = find_from r.services (λ p. p == target) r.count 0

  -- One dependency, found in the list of services.
  unfoldable pub visit_color : (ℕ → Search → Visit) → ℕ → Search → Color → Visit
  visit_color visit index s gray = refused
  visit_color visit index s white = visit index s
  visit_color visit index s black = done s

  unfoldable pub visit_index : (ℕ → Search → Visit) → Search → Option ℕ → Visit
  unfolding visit_color
  visit_index visit s none = refused
  visit_index visit s (some index) = visit_color visit index s (s.colors index)

  unfoldable pub visit_dependency : (ℕ → Search → Visit) → CString → Search → Visit
  unfolding visit_index
  visit_dependency visit name s =
      if get r ss (some name) == null
      then refused
      else visit_index visit s (service_index (get r ss (some name)))

  -- The loop over the dependencies; an error ends it.
  unfoldable pub visit_dependencies : (ℕ → Search → Visit) → List CString → Search → Visit
  visit_dependencies visit [] s = done s
  visit_dependencies visit (name ∷ names) s = elim (visit_dependency visit name s) [
    | done s' ↦ visit_dependencies visit names s'
    | refused ↦ refused
    | out_of_fuel ↦ out_of_fuel
  ]

  -- The service goes black and behind all that is in the order.
  unfoldable pub emit : ℕ → Search → Search
  emit index s = record {
    colors = update s.colors index black;
    out_order = update s.out_order s.out_index (r.services index);
    out_index = s.out_index + 1;
  }

  unfoldable pub visit : (fuel : ℕ) → ℕ → Search → Visit
  visit zero index s = out_of_fuel
  visit (suc fuel) index s =
      elim (visit_dependencies (visit fuel) (get_dependencies ss (r.services index))
        (record s { colors = update s.colors index gray })) [
          | done s' ↦ done (emit index s')
          | refused ↦ refused
          | out_of_fuel ↦ out_of_fuel
        ]

  -- A service that is not white is passed over.
  unfoldable pub visit_white : (fuel : ℕ) → ℕ → Search → Color → Visit
  visit_white fuel i s white = visit fuel i s
  visit_white fuel i s gray = done s
  visit_white fuel i s black = done s

  -- The loop over all services from `i` on, with the services left.
  unfoldable pub visit_all : (fuel left i : ℕ) → Search → Visit
  visit_all fuel zero i s = done s
  visit_all fuel (suc left) i s = elim (visit_white fuel i s (s.colors i)) [
    | done s' ↦ visit_all fuel left (i + 1) s'
    | refused ↦ refused
    | out_of_fuel ↦ out_of_fuel
  ]

  -- `allocated` is whether the two arrays can be allocated.
  unfoldable pub compute_start_order : (allocated : Bool) → (out_order : ℕ → Ptr) → Visit
  compute_start_order allocated out_order =
      let start : Search = record { colors = λ _. white; out_order = out_order; out_index = 0 } in
      if r.count == 0
      then done start
      else if allocated
      then visit_all (r.count + 1) r.count 0 start
      else refused
