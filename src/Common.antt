-- ===== src/Common.antt =====
-- The names that the other modules share: numbers, Boolean tests, lists, options and bytes.
pub mod Tests
pub mod Lists
pub mod Options
pub mod Int
pub mod Search
pub mod Decimal
unfoldable pub use Tests.*
pub use Lists.*
pub use Options.*
pub use Int.*
unfoldable pub use Search.*
unfoldable pub use Decimal.{digits, read_digits}
pub use Decimal.{
  is_digit, read_digits-digits, length-digits, digits_plain, digits-positive, NoneBefore-digits,
}
pub use Prim.Native.Nat.{ℕ, zero, suc, ◌+◌, ◌-◌, ◌*◌, ◌/◌, ◌%◌, ◌^◌, ◌≤◌, ◌<◌, min}
pub use mathlib.Core.Path.{◌≡◌, refl, sym, ap, ◌∙◌, subst}
pub use mathlib.Core.Logic.{◌≢◌, ◌↔◌, ◌⊎◌, inl, inr}
pub use mathlib.Core.Bool.{Bool, true, false, not, ◌&&◌, ◌||◌}
pub use mathlib.Core.Option.{Option, none, some}
pub use mathlib.Core.List.{List, [], ◌∷◌, ◌++◌, map, append-nil, append_assoc}
pub use native.Mathlib.Omega.{arith}
