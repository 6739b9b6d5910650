-- ===== src/Registry.antt =====
-- src/service_registry.c: the table of services, found by name. A `Service *` is an address on a
-- heap of services. The receiver is a live registry.
pub mod Names
mod Tests
use embla.Prelude.{
  ℕ, ◌+◌, ◌-◌, Option, none, some, [], ℤ, success, failure, update, ◌==◌, leb, if◌then◌else◌,
}
use embla.Process.{Ptr, null, CString}
use embla.ProcessGroup.{is_found}
use embla.Service.{Service, bytes_eq}
use embla.Table.{find_from, close_gap}
use embla.Table.Keyed.{slot}

abbrev pub Services : Type 0
Services = ℕ → Option Service

abbrev pub initial_capacity : ℕ
initial_capacity = 16

pub record ServiceRegistry : Type 0 where
  pub services : ℕ → Ptr
  pub count : ℕ
  pub capacity : ℕ

unfoldable pub create : ServiceRegistry
create = record { services = λ _. null; count = 0; capacity = initial_capacity }

unfoldable pub get_name : Services → Ptr → CString
get_name ss p = elim (ss p) [ none ↦ [] | some s ↦ s.name ]

unfoldable pub find_index : ServiceRegistry → Services → CString → Option ℕ
find_index r ss name = find_from r.services (λ p. bytes_eq (get_name ss p) name) r.count 0

unfoldable pub register : ServiceRegistry → Services → Ptr → ℤ × ServiceRegistry
register r ss p =
    if p == null
    then (failure, r)
    else if leb r.capacity r.count
    then (failure, r)
    else if is_found (find_index r ss (get_name ss p))
    then (failure, r)
    else (success, record r { services = update r.services r.count p; count = r.count + 1 })

unfoldable pub get : ServiceRegistry → Services → Option CString → Ptr
get r ss none = null
get r ss (some name) = slot r.services (find_index r ss name)

unfoldable pub get_at : ServiceRegistry → ℕ → Ptr
get_at r index = if leb r.count index then null else r.services index

unfoldable pub unregister_at :
    ServiceRegistry → Services → Option ℕ → ℤ × Services × ServiceRegistry
unregister_at r ss none = (failure, ss, r)
unregister_at r ss (some index) = (
  success,
  update ss (r.services index) none,
  record r { services = close_gap r.services index (r.count - 1); count = r.count - 1 },
)

unfoldable pub unregister :
    ServiceRegistry → Services → Option CString → ℤ × Services × ServiceRegistry
unfolding unregister_at
unregister r ss none = (failure, ss, r)
unregister r ss (some name) = unregister_at r ss (find_index r ss name)
