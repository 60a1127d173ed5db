-- ===== src/Common.antt =====
-- The names that the other modules share: the libraries' own, passed on, the Boolean tests, lists
-- over the native numbers, results, and machine words.
mod Booleans
mod Lists
mod Results
mod Words
mod Options
mod Ints
mod Texts
mod Distinct
pub use Booleans.*
pub use Lists.*
pub use Results.*
unfoldable pub use Words.*
pub use Ints.*
pub use Options.*
unfoldable pub use Texts.*
pub use Distinct.*
pub use Prim.Native.Nat.{ℕ, zero, suc, ◌+◌, ◌-◌, ◌*◌, ◌/◌, ◌%◌, ◌^◌, ◌≤◌, ◌<◌, min}
pub use mathlib.Core.Path.{◌≡◌, refl, sym, ap, ◌∙◌}
pub use mathlib.Core.Logic.{◌≢◌, ◌↔◌, ◌⊎◌, inl, inr}
pub use mathlib.Core.Bool.{Bool, true, false, not, ◌&&◌, ◌||◌}
pub use mathlib.Core.Option.{Option, none, some}
pub use mathlib.Core.List.{List, [], ◌∷◌, ◌++◌, map}
pub use native.Mathlib.Omega.{arith}
