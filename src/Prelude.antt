-- ===== src/Prelude.antt =====
-- The names that the other modules share: the libraries' names, passed on, and those of the
-- children, which are about Go's basic types: tests, errors, slices, maps and text.
mod Tests
mod Errors
mod Lists
mod Text
pub mod Dict
pub mod Decimal
pub mod Int
pub use Tests.*
pub use Errors.*
pub use Lists.*
unfoldable pub use Text.{
  is_upper, is_lower, is_space, to_lower, to_upper, trim_left, trim_right, trim_space, trim_prefix,
  has_prefix, replace_all, contains_any, join,
}
pub use Text.{to_lower_idem, trim_space-nonblank}
pub use Prim.Native.Nat.{ℕ, zero, suc, ◌+◌, ◌-◌, ◌*◌, ◌/◌, ◌%◌, ◌^◌, ◌≤◌, ◌<◌}
pub use Prim.Native.Char.{Char, code}
pub use Prim.Native.String.{String, len, ◌++◌ as ◌<>◌}
pub use mathlib.Core.Path.{◌≡◌, refl, sym, ap, ap₂, subst, ◌∙◌}
pub use mathlib.Core.Logic.{◌≢◌, ◌↔◌, ◌⊎◌, inl, inr}
pub use mathlib.Core.Bool.{Bool, true, false, not, ◌&&◌, ◌||◌}
pub use mathlib.Core.Option.{Option, none, some}
pub use mathlib.Core.List.{List, [], ◌∷◌, ◌++◌, map}
pub use native.Mathlib.Omega.{arith}
pub use text.Mathlib.Text.{◌==◌}
pub use text.Mathlib.TextEquality.{eq_iff}
pub use text.Mathlib.TextPositions.{eq_refl}
