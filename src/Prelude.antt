-- ===== src/Prelude.antt =====
-- The names that the other modules share: the libraries' names passed on, and those of the
-- children (tests, arrays as functions, lists, signed integers).
mod Tests
mod Arrays
mod Lists
mod Int
pub use Tests.*
pub use Arrays.*
pub use Lists.*
unfoldable pub use Int.*
pub use Prim.Native.Nat.{ℕ, zero, suc, ◌+◌, ◌-◌, ◌*◌, ◌/◌, ◌%◌, ◌^◌, ◌≤◌, ◌<◌}
pub use mathlib.Core.Path.{◌≡◌, refl, sym, ap, ap₂, ◌∙◌, subst, fun_ext}
pub use mathlib.Core.Logic.{◌≢◌, ◌↔◌, ◌⊎◌, inl, inr}
pub use mathlib.Core.Bool.{Bool, true, false, not, ◌&&◌, ◌||◌}
pub use mathlib.Core.Option.{Option, none, some}
pub use mathlib.Core.List.{List, [], ◌∷◌, ◌++◌, append-nil, append_assoc, Perm, perm_middle}
pub use native.Mathlib.Omega.{arith}
pub use native.Mathlib.Nat.{
  zero-add, add-zero, add-suc, suc-add, add_assoc, add_comm, mod-lt, mod-mod, mod-add-mod,
}
unfoldable pub use native.Mathlib.Decide.{ℕ_discrete}
