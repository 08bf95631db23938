-- ===== src/Prelude.antt =====
-- Names shared by the whole development: the libraries', passed on, and those of the children:
-- Boolean tests, lists, texts, results of fallible code and maps.
mod Tests
mod Lists
mod Texts
mod Results
mod Maps
pub mod Int
pub mod Decimal
pub mod Exec
pub use Tests.*
pub use Lists.*
unfoldable pub use Texts.*
pub use Results.*
unfoldable pub use Maps.*
pub use Prim.Native.Nat.{ℕ, zero, suc, ◌+◌, ◌-◌, ◌*◌, ◌/◌, ◌%◌, ◌≤◌, ◌<◌}
pub use mathlib.Core.Path.{◌≡◌, refl, sym, ap, subst, ◌∙◌}
pub use mathlib.Core.Logic.{◌≢◌, ◌↔◌, ◌⊎◌, inl, inr}
pub use mathlib.Core.Bool.{Bool, true, false, not, ◌&&◌, ◌||◌}
pub use mathlib.Core.Option.{Option, none, some}
pub use mathlib.Core.List.{List, [], ◌∷◌, ◌++◌, map}
pub use native.Mathlib.Omega.{arith}
