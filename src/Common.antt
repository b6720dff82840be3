-- ===== src/Common.antt =====
-- The names that every component shares: the libraries', passed on, with tests on native numbers,
-- lists, signed integers and C strings.
mod Tests
mod Lists
mod Int
mod Options
mod Strings
mod Decimal
mod Update
pub use Tests.*
pub use Lists.*
pub use Int.*
pub use Options.*
unfoldable pub use Decimal.*
pub use Update.*
unfoldable pub use Strings.*
pub use Prim.Native.Nat.{ℕ, zero, suc, ◌+◌, ◌-◌, ◌*◌, ◌/◌, ◌%◌, ◌^◌, ◌≤◌, ◌<◌}
pub use mathlib.Core.Path.{◌≡◌, refl, sym, ap, ◌∙◌, subst}
pub use mathlib.Core.Logic.{◌≢◌, ◌↔◌, ◌⊎◌, inl, inr}
pub use mathlib.Core.Bool.{Bool, true, false, not, ◌&&◌, ◌||◌}
pub use mathlib.Core.Option.{Option, none, some}
pub use mathlib.Core.List.{List, [], ◌∷◌, ◌++◌, map, append-nil, append_assoc}
pub use native.Mathlib.Omega.{arith}
