-- ===== src/Prelude.antt =====
-- The names that the modules share: the libraries', passed on, and those of the children.
mod Tests
mod Lists
mod Keys
mod Texts
mod Distinct
mod MapKeys
mod Lines
mod Splits
mod Maps
mod MapSums
mod Tally
pub mod Sort
pub mod Results
pub mod Actions
pub mod Runs
pub mod Int
pub mod Float
unfoldable pub use Tests.*
unfoldable pub use Lists.*
unfoldable pub use Keys.*
unfoldable pub use Texts.*
unfoldable pub use Distinct.*
unfoldable pub use Lines.*
unfoldable pub use Splits.*
unfoldable pub use MapKeys.*
unfoldable pub use MapSums.*
unfoldable pub use Tally.*
unfoldable pub use Maps.*
pub use Prim.Native.Nat.{ℕ, zero, suc, ◌+◌, ◌-◌, ◌*◌, ◌/◌, ◌%◌, ◌^◌, ◌≤◌, ◌<◌}
pub use mathlib.Core.Path.{◌≡◌, refl, sym, ap, ◌∙◌}
pub use mathlib.Core.Logic.{◌≢◌, ◌↔◌, ◌⊎◌, inl, inr}
pub use mathlib.Core.Bool.{Bool, true, false, not, ◌&&◌, ◌||◌}
pub use mathlib.Core.Option.{Option, none, some}
pub use mathlib.Core.List.{List, [], ◌∷◌, ◌++◌, map, foldl}
pub use native.Mathlib.Omega.{arith}
