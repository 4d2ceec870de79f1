-- ===== src/Prelude.antt =====
-- The names that the other modules share: the libraries', and those of the children.
pub mod Tests
pub mod Lists
pub mod Text
pub mod Assoc
pub mod Int
pub use Tests.*
pub use Lists.*
pub use Text.{Bytes, codes, eq_iff, eq_refl, has_prefix-append}
unfoldable pub use Text.{◌==◌, less, has_prefix, to_lower, contains, cut}
pub use Assoc.{
  Map, lookup-delete, lookup-insert, lookup-empty, map_laws, All-delete_if, All-insert, All-lookup,
}
unfoldable pub use Assoc.{lookup, delete_if, delete, insert}
pub use Prim.Native.Nat.{ℕ, zero, suc, ◌+◌, ◌-◌, ◌*◌, ◌/◌, ◌%◌, ◌^◌, ◌≤◌, ◌<◌}
pub use mathlib.Core.Path.{◌≡◌, refl, sym, ap, ◌∙◌, subst}
pub use mathlib.Core.Logic.{◌≢◌, ◌↔◌, ◌⊎◌, inl, inr}
pub use mathlib.Core.Bool.{Bool, true, false, not, ◌&&◌, ◌||◌}
pub use mathlib.Core.Option.{Option, none, some}
pub use mathlib.Core.List.{List, [], ◌∷◌, ◌++◌, map}
pub use native.Mathlib.Omega.{arith}
