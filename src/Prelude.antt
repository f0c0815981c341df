-- ===== src/Prelude.antt =====
-- The names that the modules of this library share: the libraries', passed on, and those of
-- the children, which add Boolean tests and list functions over the native numbers.
mod Tests
mod Lists
mod Equal
mod Members
mod Sorted
pub use Tests.*
pub use Lists.*
pub use Equal.*
pub use Members.*
pub use Sorted.{
  In-insert_by_self, In-insert_by, In-of-insert_by, In-of-insert_all, In-insert_all_left,
  In-insert_all_right,
}
unfoldable pub use Sorted.{insert_by, insert_all}
pub use Prim.Native.Nat.{ℕ, zero, suc, ◌+◌, ◌-◌, ◌*◌, ◌/◌, ◌%◌, ◌^◌, ◌≤◌, ◌<◌}
pub use mathlib.Core.Path.{◌≡◌, refl, sym, ap, ◌∙◌, subst}
pub use mathlib.Core.Logic.{◌≢◌, ◌↔◌, ◌⊎◌, inl, inr}
pub use mathlib.Core.Bool.{Bool, true, false, not, ◌&&◌, ◌||◌}
pub use mathlib.Core.Option.{Option, none, some}
pub use mathlib.Core.List.{List, [], ◌∷◌, ◌++◌, map, reverse, append_assoc, append-nil, map-append}
pub use native.Mathlib.Omega.{arith}
unfoldable pub use mathlib.Core.List.{flatten}
