-- ===== src/Prelude.antt =====
-- The names that every module shares: the libraries', passed on, and those of the children.
mod Tests
mod Lists
mod Results
pub mod Exec
pub mod Maps
pub mod Vectors
pub mod Numbers
pub mod Pointers
unfoldable pub use Tests.*
pub use Lists.*
unfoldable pub use Results.*
pub use Prim.Native.Nat.{ℕ, zero, suc, ◌+◌, ◌-◌, ◌*◌, ◌/◌, ◌%◌, ◌^◌, ◌≤◌, ◌<◌, min, pred}
pub use Prim.Native.String.{String}
pub use mathlib.Core.Path.{◌≡◌, refl, sym, ap, ◌∙◌, subst}
pub use mathlib.Core.Logic.{◌≢◌, ◌↔◌, ◌⊎◌, inl, inr}
pub use mathlib.Core.Bool.{Bool, true, false, ◌&&◌, ◌||◌, not}
pub use mathlib.Core.Option.{Option, none, some}
pub use mathlib.Core.List.{List, [], ◌∷◌, ◌++◌, map, zip}
pub use native.Mathlib.Omega.{arith}
unfoldable pub use native.Mathlib.Decide.{ℕ_discrete}
