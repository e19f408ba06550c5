-- ===== src/Prelude.antt =====
-- What the modules share: names of the libraries, Boolean tests, lists, integers and text.
mod Tests
mod Lists
mod Int
mod Text
pub mod Bits
pub mod Order
pub mod Sorting
pub use Text.{codes, is_space, is_blank_codes}
unfoldable pub use Text.{
  utf8, after_prefix, has_prefix, trim_prefix, is_blank, trim_space, trim_slashes,
}
pub use Text.{trim_slashes_idem, after_prefix-append, leb_str, leb_str_antisym}
pub use Tests.*
pub use Lists.*
pub use Int.{ℤ, pos, negsuc, pos_part, neg_part, ◌≤ℤ◌, leb_ℤ, ltb_ℤ, eq_ℤ, ℤ_discrete}
pub use Int.{sub_ℕ, eq_ℤ_iff}
unfoldable pub use Int.{◌*ℤ◌}
pub use Prim.Native.Nat.{ℕ, zero, suc, ◌+◌, ◌-◌, ◌*◌, ◌/◌, ◌%◌, ◌^◌, ◌≤◌, ◌<◌, bit_and, bit_or, min}
pub use Prim.Native.String.{String}
pub use mathlib.Core.Path.{◌≡◌, refl, sym, ap, ◌∙◌}
pub use mathlib.Core.Logic.{◌≢◌, ◌↔◌, ◌⊎◌, inl, inr}
pub use mathlib.Core.Bool.{Bool, true, false, not, ◌&&◌, ◌||◌}
pub use mathlib.Core.Option.{Option, none, some}
pub use mathlib.Core.List.{List, [], ◌∷◌, ◌++◌, map, append-nil, append_assoc}
pub use native.Mathlib.Omega.{arith}
pub use text.Mathlib.Text.{◌==◌ as str_eq}
pub use text.Mathlib.TextEquality.{eq_iff}
pub use text.Mathlib.TextPositions.{eq_refl}
