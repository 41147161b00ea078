-- ===== src/Base/Numbers.antt =====
-- Go's signed integers, and how `strconv` reads them.
use Prim.Native.Nat.{ℕ, zero, suc, ◌+◌, ◌-◌, ◌*◌, ◌^◌}
use mathlib.Core.Bool.{◌&&◌}
use mathlib.Core.Option.{Option, none, some}
use mathlib.Core.List.{[], ◌∷◌}
use ai_email.Base.Tests.{leb, ◌==◌, if◌then◌else◌}
use ai_email.Base.Bytes.{Str}

-- `strconv.ParseInt` in base ten and 64 bits, with the value's sign.
unfoldable pub digits : ℕ → Str → Option ℕ
digits n [] = some n
digits n (c ∷ s) = if leb b'0' c && leb c b'9' then digits (n * 10 + (c - b'0')) s else none

unfoldable pub parse_digits : Str → Option ℕ
parse_digits [] = none
parse_digits (c ∷ s) = digits 0 (c ∷ s)

pub data ℤ : Type 0 where
  pos negsuc : ℕ → ℤ

abbrev pub negated : ℕ → ℤ
negated zero = pos zero
negated (suc n) = negsuc n

abbrev pub in_range : (ℕ → ℤ) → ℕ → Option ℕ → Option ℤ
in_range sign limit none = none
in_range sign limit (some n) = if leb n limit then some (sign n) else none

unfoldable pub parse_int : Str → Option ℤ
parse_int [] = none
parse_int (c ∷ s) =
    if c == b'-'
    then in_range negated (2 ^ 63) (parse_digits s)
    else if c == b'+'
    then in_range pos (2 ^ 63 - 1) (parse_digits s)
    else in_range pos (2 ^ 63 - 1) (parse_digits (c ∷ s))
