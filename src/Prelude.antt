-- ===== src/Prelude.antt =====
-- The names that all modules share: those of the libraries, and those of the children, which
-- cover Boolean tests, lists, Go strings as byte sequences, Go maps and signed integers.
mod Tests
mod Lists
mod Keys
mod Maps
mod Int
mod Results
mod Members
mod Counting
mod Texts
pub use Tests.*
pub use Lists.*
unfoldable pub use Keys.*
pub use Maps.*
unfoldable pub use Int.*
pub use Results.*
pub use Members.*
pub use Counting.*
unfoldable pub use Texts.*
pub use Prim.Native.Nat.{ℕ, zero, suc, ◌+◌, ◌-◌, ◌*◌, ◌/◌, ◌%◌, ◌^◌, ◌≤◌, ◌<◌}
pub use mathlib.Core.Path.{◌≡◌, refl, sym, ap, subst, ◌∙◌}
pub use mathlib.Core.Logic.{◌≢◌, ◌↔◌, ◌⊎◌, inl, inr}
pub use mathlib.Core.Bool.{Bool, true, false, not, ◌&&◌, ◌||◌}
pub use mathlib.Core.Option.{Option, none, some}
pub use mathlib.Core.List.{List, [], ◌∷◌, ◌++◌, map}
pub use native.Mathlib.Omega.{arith}
