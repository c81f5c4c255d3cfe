-- ===== src/Base.antt =====
-- The names that every component shares: the libraries', passed on, and those of the children.
mod Core
mod Text
mod Decimal
mod Atoi
mod Strtoull
pub mod Dict
pub use Core.*
pub use Text.{strlen, is_empty, zstr, strlen-append, take, strlen-take, take_all}
unfoldable pub use Text.{has_prefix, has_substring}
pub use Atoi.{ℤ, pos, negsuc, negate, is_digit, at_least_zero}
unfoldable pub use Atoi.{atoi}
unfoldable pub use Strtoull.{strtoull}
pub use Strtoull.{strtoull-decimal}
pub use Decimal.{spelled, spelled-decimal, decimal_injective, strlen-decimal}
unfoldable pub use Decimal.{decimal}
pub use Prim.Native.Nat.{ℕ, zero, suc, ◌+◌, ◌-◌, ◌*◌, ◌/◌, ◌%◌, ◌^◌, ◌≤◌, ◌<◌}
pub use Prim.Native.String.{String}
pub use Prim.Native.Char.{Char, code}
pub use mathlib.Core.Path.{◌≡◌, refl, sym, ap, ◌∙◌}
pub use mathlib.Core.Logic.{◌≢◌, ◌↔◌, ◌⊎◌, inl, inr}
pub use mathlib.Core.Bool.{Bool, true, false, not, ◌&&◌, ◌||◌}
pub use mathlib.Core.Option.{Option, none, some}
pub use mathlib.Core.List.{List, [], ◌∷◌, ◌++◌, map}
pub use native.Mathlib.Omega.{arith}
pub use text.Mathlib.Text.{◌==◌ as str_eq}
pub use text.Mathlib.TextEquality.{eq_iff}
