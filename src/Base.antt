-- ===== src/Base.antt =====
-- The names that the other modules share: the libraries', passed on, and those of the children:
-- Boolean tests, lists over the native numbers, Go strings as lists of bytes.
mod Tests
mod Lists
mod Bytes
mod Text
mod Results
mod Utf8
mod Cuts
mod Numbers
mod Decimal
mod Fields
pub use Tests.*
pub use Lists.*
pub use Bytes.{Str, codes, str_eq_iff, str_eq_sound, str_eq_refl, str_eq_sym, lookup-eq-none}
unfoldable pub use Bytes.{str_eq, lookup}
pub use Results.*
unfoldable pub use Text.{
  space_width, space_width_back, trim_start, reverse_onto, trim_space, is_ascii, lower_byte,
  to_lower, upper_byte, to_upper, has_prefix, index, contains, itoa, itoa_from, join, fields_by,
  trim_last,
}
unfoldable pub use Utf8.{
  decode_two, decode_three, decode_four, decode, runes_from, runes, encode, encode_all,
}
unfoldable pub use Cuts.{cut, first_field, split, trimmed_parts}
unfoldable pub use Numbers.{digits, parse_digits, parse_int}
pub use Numbers.{ℤ, pos, negsuc, negated, in_range}
pub use Fields.{Lacks, Lacks-tail, cut-append, split-append, split-lacking}
pub use Decimal.{taken, not_taken, itoa-cons, head_digit, parse_int-cons, parse_int-itoa}
pub use Utf8.{any-runes, any-runes_wide}
pub use Text.{
  itoa-digits, Unicode, ascii_only, any-trim_space, contains_iff, index_sound, has_prefix_sound,
  has_prefix-append,
}
pub use Prim.Native.Nat.{ℕ, zero, suc, ◌+◌, ◌-◌, ◌*◌, ◌/◌, ◌%◌, ◌^◌, ◌≤◌, ◌<◌, min}
pub use mathlib.Core.Path.{◌≡◌, refl, sym, ap, ap₂, ◌∙◌, subst}
pub use mathlib.Core.Logic.{◌≢◌, ◌↔◌, ◌⊎◌, inl, inr}
pub use mathlib.Core.Bool.{Bool, true, false, not, ◌&&◌, ◌||◌}
pub use mathlib.Core.Option.{Option, none, some}
pub use mathlib.Core.List.{List, [], ◌∷◌, ◌++◌, map, append_assoc}
pub use native.Mathlib.Omega.{arith}
