-- ===== src/Base.antt =====
-- The names that the other modules share: the libraries', passed on, with the Boolean tests, the
-- lists, the counting of list items, the maps and the machine words of the children.
mod Tests
mod Lists
mod Count
mod Maps
mod Find
mod Words
pub use Tests.*
unfoldable pub use Lists.*
unfoldable pub use Count.*
pub use Maps.*
pub use Find.*
unfoldable pub use Words.*
pub use Prim.Native.Nat.{ℕ, zero, suc, ◌+◌, ◌-◌, ◌*◌, ◌/◌, ◌%◌, ◌^◌, ◌≤◌, ◌<◌}
pub use Prim.Native.String.{String}
pub use mathlib.Core.Path.{◌≡◌, refl, sym, ap, ◌∙◌, subst}
pub use mathlib.Core.Logic.{◌≢◌, ◌↔◌, ◌⊎◌, inl, inr}
pub use mathlib.Core.Bool.{Bool, true, false, not, ◌&&◌, ◌||◌}
pub use mathlib.Core.Option.{Option, none, some}
pub use mathlib.Core.List.{List, [], ◌∷◌, ◌++◌, map, foldl}
pub use native.Mathlib.Omega.{arith}
