-- ===== src/Base/Decimal.antt =====
-- `strconv` reads back the decimal form of a number.
use Prim.Native.Nat.{ℕ, zero, suc, ◌+◌, ◌-◌, ◌*◌, ◌/◌, ◌%◌, ◌^◌, ◌≤◌, ◌<◌}
use mathlib.Core.Path.{◌≡◌, refl, sym, ap, ◌∙◌, subst}
use mathlib.Core.Logic.{inl, inr}
use mathlib.Core.Bool.{Bool, true, false, ◌&&◌}
use mathlib.Core.Option.{none, some}
use mathlib.Core.List.{[], ◌∷◌}
use native.Mathlib.Omega.{arith}
use ai_email.Base.Tests.{ltb, leb, ◌==◌, if◌then◌else◌, Bool-cases}
use ai_email.Base.Lists.{All}
use ai_email.Base.Bytes.{Str}
use ai_email.Base.Text.{itoa, itoa_from, itoa-digits}
use ai_email.Base.Numbers.{pos, digits, parse_digits, parse_int, in_range}

-- An `if` whose test is known to hold.
pub taken : {A : Type 0} (b : Bool) (x y : A) → b ≡ true → (if b then x else y) ≡ x
taken b x y h = rw h refl

pub not_taken : {A : Type 0} (b : Bool) (x y : A) → b ≡ false → (if b then x else y) ≡ y
not_taken b x y h = rw h refl

digit_step : (m d : ℕ) (acc : Str) → d < 10 → digits m ((48 + d) ∷ acc) ≡ digits (m * 10 + d) acc
unfolding digits
digit_step m d acc h =
    taken (leb 48 (48 + d) && leb (48 + d) 57) (digits (m * 10 + (48 + d - 48)) acc) none
      (ground arith)
    ∙ ap (λ k. digits (m * 10 + k) acc) (omega arith)

digits-itoa_from :
    (fuel n : ℕ) (acc : Str) → n < fuel → digits 0 (itoa_from fuel n acc) ≡ digits n acc
unfolding itoa_from
digits-itoa_from zero n acc h = absurd (omega arith)
digits-itoa_from (suc fuel) n acc h = elim (Bool-cases (ltb n 10)) [
  | inl e ↦ rw e (digit_step 0 n acc (ground (arith, e)) ∙ ap (λ k. digits k acc) (omega arith))
  | inr e ↦ rw e (
      digits-itoa_from fuel (n / 10) ((48 + n % 10) ∷ acc) (ground (arith, e))
      ∙ digit_step (n / 10) (n % 10) acc (omega arith)
      ∙ ap (λ k. digits k acc) (omega arith))
]

digits-itoa : (n : ℕ) → digits 0 (itoa n) ≡ some n
unfolding itoa digits
digits-itoa n = digits-itoa_from (suc n) n [] (omega arith)

itoa_from-cons :
    (fuel n c : ℕ) (acc : Str) → (d : ℕ) × (rest : Str) × (itoa_from fuel n (c ∷ acc) ≡ d ∷ rest)
unfolding itoa_from
itoa_from-cons zero n c acc = (c, acc, refl)
itoa_from-cons (suc fuel) n c acc = elim (Bool-cases (ltb n 10)) [
  | inl e ↦ (48 + n, c ∷ acc, rw e refl)
  | inr e ↦
      let (d, rest, k) = itoa_from-cons fuel (n / 10) (48 + n % 10) (c ∷ acc) in (d, rest, rw e k)
]

pub itoa-cons : (n : ℕ) → (d : ℕ) × (rest : Str) × (itoa n ≡ d ∷ rest)
unfolding itoa itoa_from
itoa-cons n = elim (Bool-cases (ltb n 10)) [
  | inl e ↦ (48 + n, [], rw e refl)
  | inr e ↦ let (d, rest, k) = itoa_from-cons n (n / 10) (48 + n % 10) [] in (d, rest, rw e k)
]

pub head_digit :
    (s : Str) (c : ℕ) (rest : Str)
    → All (λ c. (48 ≤ c) × (c ≤ 57)) s
    → s ≡ c ∷ rest
    → (48 ≤ c) × (c ≤ 57)
head_digit s c rest h e = (subst (All (λ c. (48 ≤ c) × (c ≤ 57))) e h).0

pub parse_int-cons :
    (c : ℕ) (rest : Str) (n : ℕ)
    → 48 ≤ c
    → digits 0 (c ∷ rest) ≡ some n
    → n ≤ 2 ^ 63 - 1
    → parse_int (c ∷ rest) ≡ some (pos n)
unfolding parse_int parse_digits
parse_int-cons c rest n digit value few =
    let minus : (c == 45) ≡ false = ground arith in
    let plus : (c == 43) ≡ false = ground arith in
    let fits : leb n (2 ^ 63 - 1) ≡ true = ground arith in
    rw (minus, plus)
      (ap (in_range pos (2 ^ 63 - 1)) value ∙ taken (leb n (2 ^ 63 - 1)) (some (pos n)) none fits)

-- A number that fits an int64 is read back from its decimal form.
pub parse_int-itoa : (n : ℕ) → n ≤ 2 ^ 63 - 1 → parse_int (itoa n) ≡ some (pos n)
parse_int-itoa n few =
    let (c, rest, shape) = itoa-cons n in
    let (low, high) = head_digit (itoa n) c rest (itoa-digits n) shape in
    ap parse_int shape ∙ parse_int-cons c rest n low (sym (ap (digits 0) shape) ∙ digits-itoa n) few
