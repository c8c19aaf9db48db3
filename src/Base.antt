-- ===== src/Base.antt =====
-- The names that the modules of the development share: the library's, passed on, and those of the
-- children: tests and conditionals, lists measured by native numbers, outcomes of fallible code, signed numbers.
mod Tests
mod Lists
mod Results
mod Arith
mod Integers
pub mod Loops
pub use Tests.*
pub use Lists.*
pub use Results.*
pub use Arith.*
pub use Integers.*
pub use Loops.*
pub use Prim.Native.Nat.{ℕ, zero, suc, ◌+◌, ◌-◌, ◌*◌, ◌/◌, ◌%◌, ◌^◌, ◌≤◌, ◌<◌, min, max}
pub use mathlib.Core.Path.{◌≡◌, refl, sym, ap, ap₂, ◌∙◌}
pub use mathlib.Core.Logic.{◌≢◌, ◌↔◌, ◌⊎◌, inl, inr}
pub use mathlib.Core.Bool.{Bool, true, false, ◌&&◌, ◌||◌, not}
pub use mathlib.Core.Option.{Option, none, some}
pub use mathlib.Core.List.{List, [], ◌∷◌, ◌++◌, map, reverse}
pub use native.Mathlib.Omega.{arith}
