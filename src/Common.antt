-- ===== src/Common.antt =====
-- The names that all modules share: the libraries', passed on, and those of the children.
-- `Tests` has Boolean tests and equality by instances, `Lists` what the code does with Python
-- lists, `Text` what it does with Python strings.
mod Tests
mod Lists
mod Text
mod Lines
mod TextLaws
mod LineLaws
mod Replace
pub use Tests.*
pub use Lists.*
unfoldable pub use Text.*
pub use Lines.*
pub use TextLaws.*
pub use LineLaws.*
unfoldable pub use Replace.*
pub use Prim.Native.Nat.{ℕ, zero, suc, ◌+◌, ◌-◌, ◌*◌, ◌/◌, ◌%◌, ◌≤◌, ◌<◌, min, max}
pub use Prim.Native.String.{String}
pub use mathlib.Core.Path.{◌≡◌, refl, sym, ap, ◌∙◌}
pub use mathlib.Core.Logic.{◌≢◌, ◌↔◌, ◌⊎◌, inl, inr}
pub use mathlib.Core.Bool.{Bool, true, false, not, ◌&&◌, ◌||◌}
pub use mathlib.Core.Option.{Option, none, some}
pub use mathlib.Core.List.{List, [], ◌∷◌, ◌++◌, map}
pub use native.Mathlib.Omega.{arith}
pub use text.Mathlib.TextEquality.{eq_iff}
pub use text.Mathlib.TextPositions.{eq_refl}
