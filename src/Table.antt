-- ===== src/Table.antt =====
-- The pointer tables that src/process_manager.c, src/process_group.c,
-- src/process_group_manager.c and src/service_registry.c keep the same way: a fixed array whose
-- first `count` slots are in use. A new entry goes behind the last one; the slot of an entry that
-- leaves is filled by the last one. `none` stands for the code's NOT_FOUND, (size_t)-1.
pub mod Laws
pub mod Keyed
use embla.Prelude.{
  ℕ, zero, suc, ◌+◌, Bool, Option, none, some, List, [], ◌∷◌, update, if◌then◌else◌,
}
use embla.Process.{Ptr, null}

-- The search loop at slot `i`, with the slots left to visit.
unfoldable pub find_from : (ℕ → Ptr) → (Ptr → Bool) → (left i : ℕ) → Option ℕ
find_from slots test zero i = none
find_from slots test (suc left) i =
    let rest = find_from slots test left (i + 1) in if test (slots i) then some i else rest

unfoldable pub close_gap : (ℕ → Ptr) → (index last : ℕ) → ℕ → Ptr
close_gap slots index last = update (update slots index (slots last)) last null

-- The entries in use, the last one first.
abbrev pub contents : (ℕ → Ptr) → ℕ → List Ptr
contents slots zero = []
contents slots (suc n) = slots n ∷ contents slots n
