-- ===== src/Mail/Fields.antt =====
-- What survives the checks of internal/mail/address.go on header values, subjects and header names.
use ai_email.Base.{
  ℕ, ◌≤◌, ◌≡◌, ◌≢◌, refl, ap, sym, ◌∙◌, ◌↔◌, ◌⊎◌, inl, inr, true, false, none, [], ◌∷◌, map, Str,
  codes, str_eq_iff, ok, any, All, length, Unicode, to_upper, is_ascii, upper_byte, trim_space,
  has_prefix, runes, any-runes, any-runes_wide, arith, Bool-cases, clash, err-ne-ok, ok-inj,
  any-trim_space,
}
use ai_email.Mail.{
  is_control, contains_control, clean_header_value, validate_subject, max_subject_length,
  illegal_in_name, validate_custom_header,
}

is_control_narrow : (r : ℕ) → 0x80 ≤ r → is_control r ≡ false
unfolding is_control
is_control_narrow r h = ground arith

-- Reading runes or bytes, a text has the same controls: no encoding hides one, and none arises from
-- bytes that are no encoding.
pub contains_control_bytes : (s : Str) → contains_control s ≡ any is_control s
unfolding contains_control
contains_control_bytes s = any-runes is_control is_control_narrow s

-- No byte is a control but the tab; so none is CR or LF.
abbrev pub IsClean : Str → Type 0
IsClean s = any is_control s ≡ false

-- A header value is accepted exactly when it has no control, and comes back trimmed and clean.
pub clean_header_value-exact :
    (value : Str)
    → (IsClean value ↔ (clean_header_value value ≡ ok (trim_space value)))
      × ((v : Str) → clean_header_value value ≡ ok v → IsClean v × (v ≡ trim_space value))
unfolding clean_header_value
clean_header_value-exact value = elim (Bool-cases (contains_control value)) [
  | inl e ↦ (
    (
      λ c. absurd (clash (sym (contains_control_bytes value) ∙ e) c),
      λ h. absurd (err-ne-ok (rw (e, clean_header_value) at h)),
    ),
    λ v h. absurd (err-ne-ok (rw (e, clean_header_value) at h)),
  )
  | inr e ↦ (
    (λ c. rw (e, clean_header_value), λ h. sym (contains_control_bytes value) ∙ e),
    λ v h.
        let same : trim_space value ≡ v = ok-inj (rw (e, clean_header_value) at h) in
        (
          rw (← same) (any-trim_space is_control value (sym (contains_control_bytes value) ∙ e)),
          sym same,
        ),
  )
]

-- A subject is accepted exactly when something is left of it after trimming, it has no control,
-- and it has at most 998 runes.
pub validate_subject-exact :
    (s : Str)
    → (validate_subject s ≡ none)
      ↔ ((trim_space s ≢ []) × IsClean s × (length (runes s) ≤ max_subject_length))
unfolding validate_subject
validate_subject-exact s = ground (arith, contains_control_bytes s, str_eq_iff (trim_space s) [])

-- Printable ASCII or DEL, and no colon.
abbrev pub IsNameByte : ℕ → Type 0
IsNameByte c = (0x21 ≤ c) × (c ≤ 0x7f) × (c ≢ b':')

-- X- or x- and then name bytes.
pub record IsCustomName (name : Str) : Type 0 where
  pub first : ℕ
  pub rest : Str
  pub shape : name ≡ first ∷ (b'-' ∷ rest)
  pub letter : (first ≡ b'X') ⊎ (first ≡ b'x')
  pub plain : All IsNameByte name

illegal_wide : (r : ℕ) → 0x80 ≤ r → illegal_in_name r ≡ true
unfolding illegal_in_name
illegal_wide r h = ground arith

legal-All : (s : Str) → (any illegal_in_name s ≡ false) ↔ All IsNameByte s
unfolding illegal_in_name
legal-All [] = (λ _. tt, λ _. refl)
legal-All (c ∷ s) = ground (arith, legal-All s)

All-is_ascii : (s : Str) → All IsNameByte s → is_ascii s ≡ true
unfolding is_ascii
All-is_ascii [] h = refl
All-is_ascii (c ∷ s) (hc, h) = ground (arith, All-is_ascii s h)

prefix_shape :
    (name : Str)
    → has_prefix (map upper_byte name) (codes "X-") ≡ true
    → (first : ℕ) × (rest : Str) × (name ≡ first ∷ (b'-' ∷ rest))
      × ((first ≡ b'X') ⊎ (first ≡ b'x'))
unfolding has_prefix upper_byte
prefix_shape [] h = cc
prefix_shape (a ∷ []) h = ground arith
prefix_shape (a ∷ b ∷ rest) h =
    let dash : b ≡ b'-' = ground arith in
    (a, rest, ap (λ (x : ℕ). a ∷ (x ∷ rest)) dash, ground arith)

shape_prefix :
    (first : ℕ) (rest : Str)
    → (first ≡ b'X') ⊎ (first ≡ b'x')
    → has_prefix (map upper_byte (first ∷ (b'-' ∷ rest))) (codes "X-") ≡ true
unfolding has_prefix upper_byte
shape_prefix first [] h = ground arith
shape_prefix first (c ∷ rest) h = ground arith

to_upper-ascii :
    (u : Unicode) (name : Str) → All IsNameByte name → to_upper u name ≡ map upper_byte name
unfolding to_upper
to_upper-ascii u name h = rw (All-is_ascii name h)

nonempty : {name rest : Str} {first : ℕ} → name ≡ first ∷ rest → name ≡ [] → ⊥
nonempty h k = cc

module _ (u : Unicode) (name value : Str) where
  accepted :
      validate_custom_header u name value ≡ none
      → (name ≢ [])
        × (has_prefix (to_upper u name) (codes "X-") ≡ true)
        × (any illegal_in_name (runes name) ≡ false)
        × (contains_control value ≡ false)
  unfolding validate_custom_header
  accepted h = ground (arith, str_eq_iff name [])

  accepts :
      name ≢ []
      → has_prefix (to_upper u name) (codes "X-") ≡ true
      → any illegal_in_name (runes name) ≡ false
      → contains_control value ≡ false
      → validate_custom_header u name value ≡ none
  unfolding validate_custom_header
  accepts ne p l c = ground (arith, str_eq_iff name [])

-- A custom header is accepted exactly when its name is X- or x- and then printable ASCII or DEL
-- without a colon, and its value has no control. So a name holds no CR, LF, space or colon.
pub validate_custom_header-exact :
    (u : Unicode) (name value : Str)
    → (validate_custom_header u name value ≡ none) ↔ (IsCustomName name × IsClean value)
validate_custom_header-exact u name value = (
  λ h.
      let (ne, pre, legal, clean) = accepted u name value h in
      let plain =
        (legal-All name).0 (sym (any-runes_wide illegal_in_name illegal_wide name) ∙ legal) in
      let (first, rest, shape, letter) =
        prefix_shape name
          (ap (λ (t : Str). has_prefix t (codes "X-")) (sym (to_upper-ascii u name plain)) ∙ pre) in
      (
        record { first = first; rest = rest; shape = shape; letter = letter; plain = plain },
        sym (contains_control_bytes value) ∙ clean,
      ),
  λ (n, c).
      accepts u name value (λ (e : name ≡ []). nonempty n.shape e)
        (ap (λ (t : Str). has_prefix t (codes "X-")) (to_upper-ascii u name n.plain)
          ∙ rw n.shape (shape_prefix n.first n.rest n.letter))
        (any-runes_wide illegal_in_name illegal_wide name ∙ (legal-All name).1 n.plain)
        (contains_control_bytes value ∙ c),
)
