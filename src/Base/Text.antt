-- ===== src/Base/Text.antt =====
-- What the source uses of Go's `strings`, `fmt` and `unicode`, over bytes. A string is UTF-8 where
-- the source means text; the tables of Unicode beyond ASCII enter as `Unicode`.
use Prim.Native.Nat.{ℕ, zero, suc, ◌+◌, ◌-◌, ◌/◌, ◌%◌, ◌≤◌}
use mathlib.Core.Path.{◌≡◌, refl, ap}
use mathlib.Core.Logic.{◌↔◌, inl, inr}
use mathlib.Core.Bool.{Bool, true, false, ◌&&◌, ◌||◌}
use mathlib.Core.Option.{Option, none, some}
use mathlib.Core.List.{List, [], ◌∷◌, ◌++◌, map, reverse}
use native.Mathlib.Omega.{arith}
use ai_email.Base.Tests.{ltb, leb, ◌==◌, if◌then◌else◌, Bool-cases, Option-cases, ltb→lt}
use ai_email.Base.Lists.{all, any, length, All}
use ai_email.Base.Bytes.{Str}

-- `strings.Map(unicode.ToLower, s)` and its twin, which run on text that is not ASCII.
pub record Unicode : Type 0 where
  pub map_lower : Str → Str
  pub map_upper : Str → Str

abbrev pub ascii_only : Unicode
ascii_only = record { map_lower = λ s. s; map_upper = λ s. s }

-- `unicode.IsSpace` at the front of a text: how many bytes the space takes, 0 if there is none.
unfoldable pub space_width : Str → ℕ
space_width [] = 0
space_width (a ∷ []) = if a == 32 || (leb 9 a && leb a 13) then 1 else 0
space_width (a ∷ b ∷ []) =
    if a == 32 || (leb 9 a && leb a 13)
    then 1
    else if a == 0xC2 && (b == 0x85 || b == 0xA0)
    then 2
    else 0
space_width (a ∷ b ∷ c ∷ _) =
    if a == 32 || (leb 9 a && leb a 13)
    then 1
    else if a == 0xC2 && (b == 0x85 || b == 0xA0)
    then 2
    else if a == 0xE1 && b == 0x9A && c == 0x80
    then 3
    else if a == 0xE2
        && b == 0x80
        && ((leb 0x80 c && leb c 0x8A) || c == 0xA8 || c == 0xA9 || c == 0xAF)
    then 3
    else if a == 0xE2 && b == 0x81 && c == 0x9F
    then 3
    else if a == 0xE3 && b == 0x80 && c == 0x80
    then 3
    else 0

-- The same at the end of a text, which is given reversed.
unfoldable pub space_width_back : Str → ℕ
space_width_back [] = 0
space_width_back (a ∷ []) = space_width (a ∷ [])
space_width_back (b ∷ a ∷ []) =
    if b == 32 || (leb 9 b && leb b 13)
    then 1
    else if leb 0x80 b
    then space_width (a ∷ b ∷ [])
    else 0
space_width_back (c ∷ b ∷ a ∷ _) =
    if c == 32 || (leb 9 c && leb c 13)
    then 1
    else if b == 0xC2
    then space_width (b ∷ c ∷ [])
    else if leb 0x80 c
    then space_width (a ∷ b ∷ c ∷ [])
    else 0

-- Drops `skip` bytes, then the spaces that `width` finds.
unfoldable pub trim_start : (Str → ℕ) → ℕ → Str → Str
trim_start width skip [] = []
trim_start width (suc skip) (c ∷ s) = trim_start width skip s
trim_start width zero (c ∷ s) =
    let w = width (c ∷ s) in let rest = trim_start width (w - 1) s in if w == 0 then c ∷ s else rest

unfoldable pub reverse_onto : Str → Str → Str
reverse_onto [] acc = acc
reverse_onto (c ∷ s) acc = reverse_onto s (c ∷ acc)

-- `strings.TrimSpace`
unfoldable pub trim_space : Str → Str
unfolding trim_start reverse_onto
trim_space s =
    reverse_onto (trim_start space_width_back 0 (reverse_onto (trim_start space_width 0 s) [])) []

unfoldable pub is_ascii : Str → Bool
is_ascii s = all (λ c. ltb c 0x80) s

unfoldable pub lower_byte : ℕ → ℕ
lower_byte c = if leb b'A' c && leb c b'Z' then c + 32 else c

unfoldable pub upper_byte : ℕ → ℕ
upper_byte c = if leb b'a' c && leb c b'z' then c - 32 else c

-- `strings.ToLower` and `strings.ToUpper`: byte by byte on ASCII text.
unfoldable pub to_lower : Unicode → Str → Str
unfolding is_ascii lower_byte
to_lower u s = if is_ascii s then map lower_byte s else u.map_lower s

unfoldable pub to_upper : Unicode → Str → Str
unfolding is_ascii upper_byte
to_upper u s = if is_ascii s then map upper_byte s else u.map_upper s

-- `strings.HasPrefix(s, prefix)`
unfoldable pub has_prefix : Str → Str → Bool
has_prefix s [] = true
has_prefix [] (_ ∷ _) = false
has_prefix (c ∷ s) (p ∷ prefix) = c == p && has_prefix s prefix

abbrev next_index : Option ℕ → Option ℕ
next_index none = none
next_index (some i) = some (suc i)

-- `strings.Index(s, needle)`, with `none` for -1.
unfoldable pub index : Str → Str → Option ℕ
index [] needle = if has_prefix [] needle then some 0 else none
index (c ∷ s) needle =
    let later = next_index (index s needle) in if has_prefix (c ∷ s) needle then some 0 else later

-- `strings.Contains(s, needle)`
unfoldable pub contains : Str → Str → Bool
contains [] needle = has_prefix [] needle
contains (c ∷ s) needle = has_prefix (c ∷ s) needle || contains s needle

-- The decimal digits of a number, in front of `acc`; `%d` of a number that is not negative.
unfoldable pub itoa_from : ℕ → ℕ → Str → Str
itoa_from zero n acc = acc
itoa_from (suc fuel) n acc =
    let rest = itoa_from fuel (n / 10) ((48 + n % 10) ∷ acc) in
    if ltb n 10 then (48 + n) ∷ acc else rest

unfoldable pub itoa : ℕ → Str
unfolding itoa_from
itoa n = itoa_from (suc n) n []

-- `strings.Join(parts, sep)`
unfoldable pub join : Str → List Str → Str
join sep [] = []
join sep (p ∷ []) = p
join sep (p ∷ q ∷ parts) = p ++ (sep ++ join sep (q ∷ parts))

-- `strings.FieldsFunc(s, sep)`, for a `sep` that holds of ASCII characters only: the runs of
-- bytes between separators. `cur` is the run so far, reversed.
close_field : Str → List Str → List Str
close_field [] fields = fields
close_field (c ∷ cur) fields = reverse (c ∷ cur) ∷ fields

fields_from : (ℕ → Bool) → Str → Str → List Str
unfolding close_field
fields_from sep cur [] = close_field cur []
fields_from sep cur (c ∷ s) =
    let closed = close_field cur (fields_from sep [] s) in
    let longer = fields_from sep (c ∷ cur) s in if sep c then closed else longer

unfoldable pub fields_by : (ℕ → Bool) → Str → List Str
unfolding fields_from
fields_by sep s = fields_from sep [] s

pub has_prefix_sound : (s p : Str) → has_prefix s p ≡ true → (rest : Str) × (s ≡ p ++ rest)
unfolding has_prefix
has_prefix_sound s [] h = (s, refl)
has_prefix_sound [] (p ∷ ps) h = cc
has_prefix_sound (c ∷ s) (p ∷ ps) h =
    let (rest, e) = has_prefix_sound s ps (ground arith) in (rest, ground arith)

pub has_prefix-append : (p rest : Str) → has_prefix (p ++ rest) p ≡ true
unfolding has_prefix
has_prefix-append [] [] = refl
has_prefix-append [] (_ ∷ _) = refl
has_prefix-append (c ∷ p) rest = ground (arith, has_prefix-append p rest)

-- What `index` finds is an occurrence, and the text splits there.
pub index_sound :
    (s needle : Str) (i : ℕ)
    → index s needle ≡ some i
    → (pre : Str) × (post : Str) × (s ≡ pre ++ (needle ++ post)) × (length pre ≡ i)
unfolding index
index_sound [] needle i h = elim (Bool-cases (has_prefix [] needle)) [
  | inl e ↦ let (rest, q) = has_prefix_sound [] needle e in ([], rest, q, ground arith)
  | inr e ↦ ground arith
]
index_sound (c ∷ s) needle i h = elim (Bool-cases (has_prefix (c ∷ s) needle)) [
  | inl e ↦ let (rest, q) = has_prefix_sound (c ∷ s) needle e in ([], rest, q, ground arith)
  | inr e ↦ elim (Option-cases (index s needle)) [
    | inl n ↦ ground arith
    | inr (j, f) ↦
        let (pre, post, q, l) = index_sound s needle j f in
        (c ∷ pre, post, ap (λ t. c ∷ t) q, ground arith)
  ]
]

-- `contains` finds an occurrence exactly when there is one.
contains_sound :
    (s needle : Str)
    → contains s needle ≡ true
    → (pre : Str) × (post : Str) × (s ≡ pre ++ (needle ++ post))
unfolding contains
contains_sound [] needle h = let (rest, q) = has_prefix_sound [] needle h in ([], rest, q)
contains_sound (c ∷ s) needle h = elim (Bool-cases (has_prefix (c ∷ s) needle)) [
  | inl e ↦ let (rest, q) = has_prefix_sound (c ∷ s) needle e in ([], rest, q)
  | inr e ↦
      let (pre, post, q) = contains_sound s needle (ground arith) in
      (c ∷ pre, post, ap (λ t. c ∷ t) q)
]

contains_complete : (pre needle post : Str) → contains (pre ++ (needle ++ post)) needle ≡ true
unfolding contains
contains_complete [] [] [] = ground (arith, has_prefix-append [] [])
contains_complete [] [] (d ∷ post) = ground (arith, has_prefix-append [] (d ∷ post))
contains_complete [] (n ∷ needle) post = ground (arith, has_prefix-append (n ∷ needle) post)
contains_complete (c ∷ pre) needle post = ground (arith, contains_complete pre needle post)

pub contains_iff :
    (s needle : Str)
    → (contains s needle ≡ true) ↔ ((pre : Str) × (post : Str) × (s ≡ pre ++ (needle ++ post)))
contains_iff s needle =
    (contains_sound s needle, λ (pre, post, e). rw e (contains_complete pre needle post))

itoa_from-digits :
    (fuel n : ℕ) (acc : Str)
    → All (λ c. (48 ≤ c) × (c ≤ 57)) acc
    → All (λ c. (48 ≤ c) × (c ≤ 57)) (itoa_from fuel n acc)
unfolding itoa_from
itoa_from-digits zero n acc h = h
itoa_from-digits (suc fuel) n acc h = elim (Bool-cases (ltb n 10)) [
  | inl e ↦ rw e ((omega arith, omega (arith, ltb→lt n 10 e)), h)
  | inr e ↦
      rw e (itoa_from-digits fuel (n / 10) ((48 + n % 10) ∷ acc) ((omega arith, omega arith), h))
]

-- The digits of a number.
pub itoa-digits : (n : ℕ) → All (λ c. (48 ≤ c) × (c ≤ 57)) (itoa n)
unfolding itoa
itoa-digits n = itoa_from-digits (suc n) n [] tt

-- Trimming leaves no byte that was not there.
any-reverse_aux :
    (p : ℕ → Bool) (s acc : Str)
    → any p s ≡ false
    → any p acc ≡ false
    → any p (reverse_onto s acc) ≡ false
unfolding reverse_onto
any-reverse_aux p [] acc h k = k
any-reverse_aux p (c ∷ s) acc h k = any-reverse_aux p s (c ∷ acc) (ground arith) (ground arith)

any-trim_start :
    (p : ℕ → Bool) (width : Str → ℕ) (skip : ℕ) (s : Str)
    → any p s ≡ false
    → any p (trim_start width skip s) ≡ false
unfolding trim_start
any-trim_start p width zero [] h = refl
any-trim_start p width (suc skip) [] h = refl
any-trim_start p width (suc skip) (c ∷ s) h = any-trim_start p width skip s (ground arith)
any-trim_start p width zero (c ∷ s) h = ground (arith, any-trim_start p width (width (c ∷ s) - 1) s)

pub any-trim_space : (p : ℕ → Bool) (s : Str) → any p s ≡ false → any p (trim_space s) ≡ false
unfolding trim_space
any-trim_space p s h =
    any-reverse_aux p _ []
      (any-trim_start p space_width_back 0 _
        (any-reverse_aux p _ [] (any-trim_start p space_width 0 s h) refl))
      refl

-- `strings.TrimSuffix` with a suffix of one byte.
unfoldable pub trim_last : ℕ → Str → Str
trim_last b [] = []
trim_last b (c ∷ []) = if c == b then [] else c ∷ []
trim_last b (c ∷ d ∷ s) = c ∷ trim_last b (d ∷ s)
