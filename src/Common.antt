-- ===== src/Common.antt =====
-- Names that every component shares: the libraries', passed on, and those of the children: Boolean
-- tests, lists over the native numbers, results, signed integers, machine words.
mod Tests
mod Lists
mod Results
pub mod Int
pub mod Words
pub mod Text
pub mod Decimal
pub mod Lines
pub use Tests.*
unfoldable pub use Tests.{passed_under}
pub use Lists.*
pub use Results.*
pub use Prim.Native.Nat.{
  ℕ, zero, suc, ◌+◌, ◌-◌, ◌*◌, ◌/◌, ◌%◌, ◌^◌, ◌≤◌, ◌<◌, min, max, bit_and, bit_or,
}
pub use mathlib.Core.Path.{◌≡◌, refl, sym, ap, ◌∙◌}
pub use mathlib.Core.Logic.{◌≢◌, ◌↔◌, ◌⊎◌, inl, inr}
pub use mathlib.Core.Bool.{Bool, true, false, not, ◌&&◌, ◌||◌}
pub use mathlib.Core.Option.{Option, none, some}
pub use mathlib.Core.List.{List, [], ◌∷◌, ◌++◌, map}
pub use native.Mathlib.Omega.{arith}
