-- ===== src/Prelude.antt =====
-- The names that the other modules share: the libraries', passed on, and those of two children.
pub mod Tests
pub mod Lists
pub mod Text
pub mod Sort
pub use Tests.*
pub use Lists.*
unfoldable pub use Sort.{insert, sort_by}
pub use Sort.{
  count-sort_by, filter, All-sort_by, sort_by_last, filter-append, filter_ext, All-filter, All-mono,
  All-map,
}
unfoldable pub use Text.{
  text_eq, is_space, strip_left, strip_right, strip, lower, upper, starts_with, contains,
}
pub use Text.{codes, text_eq_iff, length-strip, length-strip_right}
pub use Prim.Native.Nat.{ℕ, zero, suc, ◌+◌, ◌-◌, ◌*◌, ◌/◌, ◌%◌, ◌≤◌, ◌<◌, min, max}
pub use mathlib.Core.Path.{◌≡◌, refl, sym, ap, ◌∙◌}
pub use mathlib.Core.Logic.{◌≢◌, ◌↔◌, ◌⊎◌, inl, inr}
pub use mathlib.Core.Bool.{Bool, true, false, ◌&&◌, ◌||◌, not}
pub use mathlib.Core.Option.{Option, none, some, get_or}
pub use mathlib.Core.List.{List, [], ◌∷◌, ◌++◌, map}
pub use native.Mathlib.Omega.{arith}
