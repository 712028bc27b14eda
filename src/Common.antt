-- ===== src/Common.antt =====
-- The names that the other modules share: the libraries', passed on, and those of the children.
pub mod Tests
pub mod Lists
pub mod Texts
pub mod Maps
pub mod Int
pub mod Decimal
pub mod Split
pub mod Separators
pub use Tests.*
pub use Lists.*
unfoldable pub use Texts.{Text, bytes, same, has_prefix}
pub use Texts.{same→eq, same_refl, ne→same, same_iff, has_prefix-append}
pub use Prim.Native.Nat.{ℕ, zero, suc, ◌+◌, ◌-◌, ◌*◌, ◌/◌, ◌%◌, ◌^◌, ◌≤◌, ◌<◌}
pub use mathlib.Core.Path.{◌≡◌, refl, sym, ap, ◌∙◌}
pub use mathlib.Core.Logic.{◌≢◌, ◌↔◌, ◌⊎◌, inl, inr}
pub use mathlib.Core.Bool.{Bool, true, false, not, ◌&&◌, ◌||◌}
pub use mathlib.Core.Option.{Option, none, some}
pub use mathlib.Core.List.{List, [], ◌∷◌, ◌++◌, map}
pub use native.Mathlib.Omega.{arith}
unfoldable pub use Maps.{lookup, insert, erase}
pub use Maps.{Dict, lookup-insert, lookup-erase}
pub use Int.*
unfoldable pub use Decimal.{decimal}
