-- ===== src/Keys/Issued.antt =====
-- Keys that internal/keys/keys.go issues have the form that it asks of keys, and a bounded life.
use ai_email.Base.{
  ℕ, ◌*◌, ◌≤◌, ◌<◌, ◌≡◌, refl, ap, ◌∙◌, ◌⊎◌, inl, inr, true, none, some, [], ◌∷◌, ◌++◌, Str, map,
  ok, some-inj, Option, All, length, has_prefix, Unicode, to_lower, to_upper, is_ascii, lower_byte,
  upper_byte, ℤ, pos, negsuc, arith,
}
use ai_email.Store.Suppressions.{Digest}
use ai_email.Keys.{day, live_prefix, Encoding, key_body, generate, of_decoded, parse, lifetime}

-- The alphabet of base32.
abbrev pub InAlphabet : ℕ → Type 0
InAlphabet c = ((b'A' ≤ c) × (c ≤ b'Z')) ⊎ ((b'2' ≤ c) × (c ≤ b'7'))

-- What is used of `encoding/base32`: it decodes what it encoded, which is in its alphabet.
pub record Decodes (e : Encoding) : Type 0 where
  pub decoded : (raw : Str) → e.decode32 (e.encode32 raw) ≡ some raw
  pub alphabet : (raw : Str) → All InAlphabet (e.encode32 raw)

lowered : (s : Str) → All InAlphabet s → (is_ascii s ≡ true) × (is_ascii (map lower_byte s) ≡ true)
unfolding is_ascii lower_byte
lowered [] h = (refl, refl)
lowered (c ∷ s) (inl h, t) = ground (arith, lowered s t)
lowered (c ∷ s) (inr h, t) = ground (arith, lowered s t)

raised : (s : Str) → All InAlphabet s → map upper_byte (map lower_byte s) ≡ s
unfolding lower_byte upper_byte
raised [] h = refl
raised (c ∷ s) (inl h, t) = ground (arith, raised s t)
raised (c ∷ s) (inr h, t) = ground (arith, raised s t)

to_lower-ascii : (u : Unicode) (s : Str) → is_ascii s ≡ true → to_lower u s ≡ map lower_byte s
unfolding to_lower
to_lower-ascii u s h = rw h refl

to_upper-ascii : (u : Unicode) (s : Str) → is_ascii s ≡ true → to_upper u s ≡ map upper_byte s
unfolding to_upper
to_upper-ascii u s h = rw h refl

upper-lower : (u : Unicode) (s : Str) → All InAlphabet s → to_upper u (to_lower u s) ≡ s
upper-lower u s h =
    let (a, b) = lowered s h in
    ap (to_upper u) (to_lower-ascii u s a) ∙ to_upper-ascii u (map lower_byte s) b ∙ raised s h

has_prefix-live : (body : Str) → has_prefix (live_prefix ++ body) live_prefix ≡ true
unfolding has_prefix
has_prefix-live [] = refl
has_prefix-live (c ∷ body) = refl

key_body-live : (body : Str) → key_body (live_prefix ++ body) ≡ body
unfolding key_body
key_body-live body = rw (has_prefix-live body) refl

of_decoded-ok : (o : Option Str) (raw : Str) → o ≡ some raw → length raw ≡ 32 → of_decoded o ≡ ok tt
unfolding of_decoded
of_decoded-ok none raw h l = ground arith
of_decoded-ok (some s) raw h l = ground (arith, ap length (some-inj h))

-- A key that is generated from 32 bytes has the form that `Parse` accepts.
pub parse-generate :
    (u : Unicode) (e : Encoding) (sha256 : Digest) (raw : Str)
    → Decodes e
    → length raw ≡ 32
    → parse u e (generate u e sha256 raw).secret ≡ ok tt
unfolding parse generate
parse-generate u e sha256 raw d l =
    let body = to_lower u (e.encode32 raw) in
    let back =
      ap (to_upper u) (key_body-live body) ∙ upper-lower u (e.encode32 raw) (d.alphabet raw) in
    rw (has_prefix-live body) (of_decoded-ok _ raw (ap e.decode32 back ∙ d.decoded raw) l)

-- Every key lives for more than no time and at most a year, whatever was requested; a request within
-- that is granted as it is.
pub lifetime_bounds :
    (requested : ℤ)
    → (0 < lifetime requested)
      × (lifetime requested ≤ 365 * day)
      × ((n : ℕ) → requested ≡ pos n → 0 < n → n ≤ 365 * day → lifetime requested ≡ n)
unfolding lifetime
lifetime_bounds (negsuc n) = (omega arith, omega arith, λ n h. cc)
lifetime_bounds (pos n) = (ground arith, ground arith, λ m h p q. ground arith)
