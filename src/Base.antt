-- ===== src/Base.antt =====
-- Shared notation: the library names passed on, Boolean tests, lists, integers, byte strings.
mod Tests
mod Lists
mod Text
mod Fallible
pub mod Int
pub mod Sorting
pub mod Counting
pub mod Atoi
pub mod Decimal
pub mod Percent
pub mod Hex
pub use Tests.*
pub use Lists.*
unfoldable pub use Text.*
pub use Fallible.*
pub use Prim.Native.Nat.{ℕ, zero, suc, ◌+◌, ◌-◌, ◌*◌, ◌/◌, ◌%◌, ◌^◌, ◌≤◌, ◌<◌, min}
pub use Prim.Native.String.{String}
pub use mathlib.Core.Path.{◌≡◌, refl, sym, ap, subst, ◌∙◌}
pub use mathlib.Core.Logic.{◌≢◌, ◌↔◌, ◌⊎◌, inl, inr}
pub use mathlib.Core.Bool.{Bool, true, false, not, ◌&&◌, ◌||◌}
pub use mathlib.Core.Option.{Option, none, some}
pub use mathlib.Core.List.{List, [], ◌∷◌, ◌++◌, map, reverse}
pub use native.Mathlib.Omega.{arith}
