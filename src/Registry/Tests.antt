-- ===== src/Registry/Tests.antt =====
-- A registry of one service, on which the theorems are applied.
use embla.Prelude.{◌≡◌, refl, none, some, [], ◌∷◌, arith, update, failure}
use embla.Service.{Service, bytes_eq}
use embla.Service
use embla.Registry.{Services, ServiceRegistry, register, unregister, find_index, get_name}
use embla.Registry.Names.{
  IsRegistry, Registers, register-Registers, Unregisters, unregister-Unregisters,
}
use embla.Table.{find_from}

abbrev services : Services
services =
    update (update (λ _. none) 64 (some (Service.fresh_service (97 ∷ [])))) 65
      (some (Service.fresh_service (98 ∷ [])))

-- The service `a` is registered, `b` is not yet.
abbrev one : ServiceRegistry
one = record { services = update (λ _. 0) 0 64; count = 1; capacity = 16 }

one-IsRegistry : IsRegistry one services
one-IsRegistry = record {
  fixed = refl;
  fits = omega arith;
  address = λ i lt e. ground arith;
  distinct = λ i j lt lt'. absurd (omega arith);
}

register-Registers_example : Registers one services 65 (register one services 65)
register-Registers_example = register-Registers one services 65 one-IsRegistry

unregister-Unregisters_example :
    Unregisters one services (some (97 ∷ [])) (unregister one services (some (97 ∷ [])))
unregister-Unregisters_example = unregister-Unregisters one services (some (97 ∷ [])) one-IsRegistry

-- A name is not taken twice.
register_twice : register one services 64 ≡ (failure, one)
unfolding register find_index get_name find_from bytes_eq
register_twice = refl
