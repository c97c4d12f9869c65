-- ===== src/Common.antt =====
-- The names that the other modules share: those of the libraries, passed on, Boolean tests and
-- signed integers, lists measured by native numbers, and the maps of Go as association lists.
mod Tests
mod Lists
mod Classes
mod Results
pub mod Int
pub mod Dict
pub mod Text
pub mod Utf8
pub use Tests.*
pub use Lists.*
unfoldable pub use Classes.*
pub use Results.*
pub use Prim.Native.Nat.{ℕ, zero, suc, ◌+◌, ◌-◌, ◌*◌, ◌/◌, ◌%◌, ◌^◌, ◌≤◌, ◌<◌}
pub use Prim.Native.String.{String}
pub use mathlib.Core.Path.{◌≡◌, refl, sym, ap, ◌∙◌}
pub use mathlib.Core.Logic.{◌≢◌, ◌↔◌, ◌⊎◌, inl, inr}
pub use mathlib.Core.Bool.{Bool, true, false, not, ◌&&◌, ◌||◌}
pub use mathlib.Core.Option.{Option, none, some}
pub use mathlib.Core.List.{List, [], ◌∷◌, ◌++◌, map}
pub use native.Mathlib.Omega.{arith}
