-- ===== src/Base.antt =====
-- The names that the other modules share: the libraries' names, Boolean tests, lists measured by
-- native numbers, and Go's `int`. The functions of Go's package `strings` are in Base/Text.
mod Tests
mod Lists
pub mod Int
pub mod Result
pub mod Float
pub mod Text
pub mod Dict
pub mod Sort
pub mod Pairs
pub mod Gather
pub mod Count
pub use Tests.*
pub use Lists.*
pub use Prim.Native.Nat.{ℕ, zero, suc, ◌+◌, ◌-◌, ◌*◌, ◌/◌, ◌%◌, ◌^◌, ◌≤◌, ◌<◌}
pub use mathlib.Core.Path.{◌≡◌, refl, sym, ap, ◌∙◌}
pub use mathlib.Core.Logic.{◌≢◌, ◌↔◌, ◌⊎◌, inl, inr}
pub use mathlib.Core.Bool.{Bool, true, false, not, ◌&&◌, ◌||◌}
pub use mathlib.Core.Option.{Option, none, some}
pub use mathlib.Core.List.{List, [], ◌∷◌, ◌++◌, map, append-nil, append_assoc}
pub use native.Mathlib.Omega.{arith}
