-- ===== src/Base/Utf8.antt =====
-- Go's view of a string as runes: `range s`, `[]rune(s)` and `WriteRune`. A byte that begins no
-- valid encoding is the rune U+FFFD, one byte wide.
use Prim.Native.Nat.{ℕ, zero, suc, ◌+◌, ◌-◌, ◌*◌, ◌/◌, ◌%◌, ◌≤◌, ◌<◌}
use mathlib.Core.Path.{◌≡◌, refl, ap}
use mathlib.Core.Logic.{inl, inr}
use mathlib.Core.Bool.{Bool, true, false, ◌&&◌, ◌||◌}
use mathlib.Core.List.{List, [], ◌∷◌, ◌++◌}
use native.Mathlib.Omega.{arith}
use ai_email.Base.Tests.{ltb, leb, ◌==◌, if◌then◌else◌, Bool-cases, ltb→lt}
use ai_email.Base.Lists.{any}
use ai_email.Base.Bytes.{Str}

abbrev bad_rune : ℕ × ℕ
bad_rune = (0xFFFD, 1)

abbrev pub is_cont : ℕ → Bool
is_cont b = leb 0x80 b && leb b 0xBF

unfoldable pub decode_two : ℕ → Str → ℕ × ℕ
decode_two a [] = bad_rune
decode_two a (b ∷ _) = if is_cont b then ((a - 0xC0) * 64 + (b - 0x80), 2) else bad_rune

-- The second byte of three or four is narrowed where an encoding would be too long or a surrogate.
unfoldable pub decode_three : ℕ → Str → ℕ × ℕ
decode_three a [] = bad_rune
decode_three a (_ ∷ []) = bad_rune
decode_three a (b ∷ c ∷ _) =
    if leb (if a == 0xE0 then 0xA0 else 0x80) b
      && leb b (if a == 0xED then 0x9F else 0xBF)
      && is_cont c
    then ((a - 0xE0) * 4096 + (b - 0x80) * 64 + (c - 0x80), 3)
    else bad_rune

unfoldable pub decode_four : ℕ → Str → ℕ × ℕ
decode_four a [] = bad_rune
decode_four a (_ ∷ []) = bad_rune
decode_four a (_ ∷ _ ∷ []) = bad_rune
decode_four a (b ∷ c ∷ d ∷ _) =
    if leb (if a == 0xF0 then 0x90 else 0x80) b
      && leb b (if a == 0xF4 then 0x8F else 0xBF)
      && is_cont c
      && is_cont d
    then ((a - 0xF0) * 262144 + (b - 0x80) * 4096 + (c - 0x80) * 64 + (d - 0x80), 4)
    else bad_rune

-- The rune at the front, which begins with the byte `a`, and its width.
unfoldable pub decode : ℕ → Str → ℕ × ℕ
decode a s =
    if ltb a 0x80
    then (a, 1)
    else if leb 0xC2 a && leb a 0xDF
    then decode_two a s
    else if leb 0xE0 a && leb a 0xEF
    then decode_three a s
    else if leb 0xF0 a && leb a 0xF4
    then decode_four a s
    else bad_rune

-- The runes of a text; `skip` bytes still belong to the rune before.
unfoldable pub runes_from : ℕ → Str → List ℕ
runes_from skip [] = []
runes_from (suc skip) (_ ∷ s) = runes_from skip s
runes_from zero (a ∷ s) = let (r, width) = decode a s in r ∷ runes_from (width - 1) s

unfoldable pub runes : Str → List ℕ
runes s = runes_from 0 s

-- `WriteRune`
unfoldable pub encode : ℕ → Str
encode r =
    if ltb r 0x80
    then r ∷ []
    else if ltb r 0x800
    then (0xC0 + r / 64) ∷ (0x80 + r % 64) ∷ []
    else if ltb r 0x10000
    then (0xE0 + r / 4096) ∷ (0x80 + r / 64 % 64) ∷ (0x80 + r % 64) ∷ []
    else (0xF0 + r / 262144) ∷ (0x80 + r / 4096 % 64) ∷ (0x80 + r / 64 % 64) ∷ (0x80 + r % 64) ∷ []

unfoldable pub encode_all : List ℕ → Str
encode_all [] = []
encode_all (r ∷ rs) = encode r ++ encode_all rs

-- The first `n` bytes are beyond ASCII.
abbrev High : ℕ → Str → Type 0
High zero s = Unit
High (suc n) [] = ⊥
High (suc n) (c ∷ s) = (0x80 ≤ c) × High n s

abbrev IsWide : ℕ → Str → ℕ × ℕ → Type 0
IsWide a s (r, w) = (0x80 ≤ r) × High (w - 1) s

decode-IsWide : (a : ℕ) (s : Str) → 0x80 ≤ a → IsWide a s (decode a s)
unfolding decode decode_two decode_three decode_four
decode-IsWide a [] h = ground arith
decode-IsWide a (b ∷ []) h = ground arith
decode-IsWide a (b ∷ c ∷ []) h = ground arith
decode-IsWide a (b ∷ c ∷ d ∷ s) h = ground arith

not-ltb : (a : ℕ) → ltb a 0x80 ≡ false → 0x80 ≤ a
not-ltb a e = ground arith

decode-ascii : (a : ℕ) (s : Str) → a < 0x80 → decode a s ≡ (a, 1)
unfolding decode
decode-ascii a s h = ground arith

-- A test that fails beyond ASCII finds the same among the runes of a text as among its bytes.
module _ (p : ℕ → Bool) (narrow : (r : ℕ) → 0x80 ≤ r → p r ≡ false) where
  any-runes_from : (skip : ℕ) (s : Str) → High skip s → any p (runes_from skip s) ≡ any p s
  unfolding runes_from
  any-runes_from zero [] h = refl
  any-runes_from (suc skip) [] h = absurd h
  any-runes_from (suc skip) (c ∷ s) (hc, h) = ground (arith, narrow c hc, any-runes_from skip s h)
  any-runes_from zero (a ∷ s) h = elim (Bool-cases (ltb a 0x80)) [
    | inl e ↦
        let one = decode-ascii a s (ltb→lt a 0x80 e) in
        rw one (ap (λ b. p a || b) (any-runes_from 0 s tt))
    | inr e ↦
        let wide = decode-IsWide a s (omega (arith, not-ltb a e)) in
        rw (narrow (decode a s).0 wide.0, narrow a (omega (arith, not-ltb a e)))
          (any-runes_from ((decode a s).1 - 1) s wide.1)
  ]

  pub any-runes : (s : Str) → any p (runes s) ≡ any p s
  unfolding runes
  any-runes s = any-runes_from 0 s tt

-- A test that holds beyond ASCII finds the same among the runes as among the bytes, too.
module _ (p : ℕ → Bool) (wide : (r : ℕ) → 0x80 ≤ r → p r ≡ true) where
  any-runes_from_wide : (s : Str) → any p (runes_from 0 s) ≡ any p s
  unfolding runes_from
  any-runes_from_wide [] = refl
  any-runes_from_wide (a ∷ s) = elim (Bool-cases (ltb a 0x80)) [
    | inl e ↦
        let one = decode-ascii a s (ltb→lt a 0x80 e) in
        rw one (ap (λ b. p a || b) (any-runes_from_wide s))
    | inr e ↦
        let high = decode-IsWide a s (omega (arith, not-ltb a e)) in
        rw (wide (decode a s).0 high.0, wide a (omega (arith, not-ltb a e)))
  ]

  pub any-runes_wide : (s : Str) → any p (runes s) ≡ any p s
  unfolding runes
  any-runes_wide s = any-runes_from_wide s
