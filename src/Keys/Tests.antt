-- ===== src/Keys/Tests.antt =====
-- A form of base32 in unary, and keys in it.
use ai_email.Base.{
  ℕ, zero, suc, ◌+◌, ◌≡◌, refl, ap, ◌∙◌, inl, Option, none, some, [], ◌∷◌, ◌++◌, Str, codes, All,
  All-append, arith, ◌==◌, if◌then◌else◌, has_prefix,
}
use ai_email.Keys.{Encoding, key_body, display}
use ai_email.Keys.Issued.{InAlphabet, Decodes}

unfoldable pub marks : ℕ → Str
marks zero = b'B' ∷ []
marks (suc n) = b'A' ∷ marks n

unfoldable pub unary : Str → Str
unary [] = []
unary (n ∷ s) = marks n ++ unary s

abbrev then_rest : ℕ → Option Str → Option Str
then_rest n none = none
then_rest n (some s) = some (n ∷ s)

unfoldable pub read : ℕ → Str → Option Str
read n [] = some []
read n (c ∷ s) = let longer = read (n + 1) s in if c == b'A' then longer else then_rest n (read 0 s)

read-marks : (n k : ℕ) (s : Str) → read k (marks n ++ s) ≡ then_rest (k + n) (read 0 s)
unfolding read marks
read-marks zero k s = ap (λ m. then_rest m (read 0 s)) (omega arith)
read-marks (suc n) k s = read-marks n (k + 1) s ∙ ap (λ m. then_rest m (read 0 s)) (omega arith)

read-unary : (s : Str) → read 0 (unary s) ≡ some s
unfolding unary
read-unary [] = unfold read in refl
read-unary (n ∷ s) =
    read-marks n 0 (unary s)
    ∙ ap (then_rest (0 + n)) (read-unary s)
    ∙ ap (λ m. some (m ∷ s)) (omega arith)

marks-InAlphabet : (n : ℕ) → All InAlphabet (marks n)
unfolding marks
marks-InAlphabet zero = (inl (omega arith, omega arith), tt)
marks-InAlphabet (suc n) = (inl (omega arith, omega arith), marks-InAlphabet n)

unary-InAlphabet : (s : Str) → All InAlphabet (unary s)
unfolding unary
unary-InAlphabet [] = tt
unary-InAlphabet (n ∷ s) =
    All-append InAlphabet (marks n) (unary s) (marks-InAlphabet n) (unary-InAlphabet s)

abbrev pub unary_encoding : Encoding
unary_encoding = record { encode32 = unary; decode32 = read 0 }

pub unary_encoding-Decodes : Decodes unary_encoding
unary_encoding-Decodes = record { decoded = read-unary; alphabet = unary-InAlphabet }

abbrev zeros : ℕ → Str
zeros zero = []
zeros (suc n) = 0 ∷ zeros n

abbrev pub key_bytes : Str
key_bytes = zeros 32

display_short : display (codes "aiem_live_abc") ≡ codes "aiem_live_" ++ (0xE2 ∷ 0x80 ∷ 0xA6 ∷ [])
unfolding display key_body has_prefix
display_short = refl
