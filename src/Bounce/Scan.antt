-- ===== src/Bounce/Scan.antt =====
-- What the searches of internal/bounce/classify.go find: enhanced status codes and reply codes.
use mathlib.Core.List.{append_assoc}
use ai_email.Base.{
  ℕ, suc, ◌≤◌, ◌≡◌, refl, sym, ap, ap₂, ◌∙◌, ◌≢◌, inl, inr, Bool, true, false, not, ◌&&◌, ◌||◌,
  none, some, List, [], ◌∷◌, ◌++◌, Str, All, length, join, arith, ltb, ◌==◌, none-ne-some, some-inj,
  Bool-cases, Option-cases, Member, fields_by,
}
use ai_email.Bounce.{
  is_digit, digit_run, section, after_dot, sections, parse_status, find_enhanced_from,
  find_enhanced_status, reply_code, first_reply_code, find_reply_code, is_reply_separator,
}

abbrev pub IsDigit : ℕ → Type 0
IsDigit c = (48 ≤ c) × (c ≤ 57)

-- One to three digits.
abbrev pub IsSection : Str → Type 0
IsSection p = All IsDigit p × (1 ≤ length p) × (length p ≤ 3)

-- Three sections joined by dots, the form of RFC 3463.
pub record IsEnhanced (status : Str) : Type 0 where
  pub first : Str
  pub second : Str
  pub third : Str
  pub first_section : IsSection first
  pub second_section : IsSection second
  pub third_section : IsSection third
  pub joined : status ≡ first ++ (b'.' ∷ (second ++ (b'.' ∷ third)))

IsDigit-of : (c : ℕ) → is_digit c ≡ true → IsDigit c
unfolding is_digit
IsDigit-of c h = ground arith

digit_run-split : (s : Str) → (s ≡ (digit_run s).0 ++ (digit_run s).1) × All IsDigit (digit_run s).0
unfolding digit_run
digit_run-split [] = (refl, tt)
digit_run-split (c ∷ s) = elim (Bool-cases (is_digit c)) [
  | inl e ↦ let (q, d) = digit_run-split s in rw e (ap (λ t. c ∷ t) q, (IsDigit-of c e, d))
  | inr e ↦ rw e (refl, tt)
]

abbrev bad_run : Str → Bool
bad_run run = length run == 0 || ltb 3 (length run)

bad_run-false : (run : Str) → bad_run run ≡ false → (1 ≤ length run) × (length run ≤ 3)
bad_run-false run e = ground arith

section-eq :
    (s run rest : Str)
    → bad_run (digit_run s).0 ≡ false
    → section s ≡ some (run, rest)
    → ((digit_run s).0 ≡ run) × ((digit_run s).1 ≡ rest)
unfolding section
section-eq s run rest e h = ground arith

section_sound :
    (s run rest : Str) → section s ≡ some (run, rest) → (s ≡ run ++ rest) × IsSection run
unfolding section
section_sound s run rest h = elim (Bool-cases (bad_run (digit_run s).0)) [
  | inl e ↦ ground arith
  | inr e ↦
      let (q, d) = digit_run-split s in
      let (er, es) = section-eq s run rest e h in
      (
        q ∙ ap₂ (λ (a b : Str). a ++ b) er es,
        ((rw er at d), (bad_run-false run (rw er at e)).0, (bad_run-false run (rw er at e)).1),
      )
]

after_dot_sound : (s rest : Str) → after_dot s ≡ some rest → s ≡ b'.' ∷ rest
unfolding after_dot
after_dot_sound [] rest h = cc
after_dot_sound (c ∷ s) rest h = ground arith

-- The loop on the sections that are left, one with no dot behind it and `suc n` with `suc n` dots.
last-IsSection_sound :
    (s : Str) {parts : List Str}
    → sections 0 s ≡ some parts
    → (run rest : Str) × (parts ≡ run ∷ []) × IsSection run × (s ≡ run ++ rest)
unfolding sections
last-IsSection_sound s h = elim (Option-cases (section s)) [
  | inl n ↦ absurd (none-ne-some (rw n at h))
  | inr ((run, rest), e) ↦
      let (q, d) = section_sound s run rest e in (run, rest, sym (some-inj (rw e at h)), d, q)
]

next-IsSection_sound :
    (n : ℕ) (s : Str) {parts : List Str}
    → sections (suc n) s ≡ some parts
    → (run rest : Str) × (more : List Str) × (parts ≡ run ∷ more)
      × IsSection run
      × (s ≡ run ++ (b'.' ∷ rest))
      × (sections n rest ≡ some more)
unfolding sections
next-IsSection_sound n s h = elim (Option-cases (section s)) [
  | inl e ↦ absurd (none-ne-some (rw e at h))
  | inr ((run, rest), e) ↦
      let (q, d) = section_sound s run rest e in
      elim (Option-cases (after_dot rest)) [
        | inl e2 ↦ absurd (none-ne-some (rw (e, e2) at h))
        | inr (more, e2) ↦ elim (Option-cases (sections n more)) [
          | inl e3 ↦ absurd (none-ne-some (rw (e, e2, e3) at h))
          | inr (parts, e3) ↦ (
            run,
            more,
            parts,
            sym (some-inj (rw (e, e2, e3) at h)),
            d,
            q ∙ ap (λ t. run ++ t) (after_dot_sound rest more e2),
            e3,
          )
        ]
      ]
]

regroup :
    (a b c post : Str)
    → a ++ (b'.' ∷ (b ++ (b'.' ∷ (c ++ post)))) ≡ (a ++ (b'.' ∷ (b ++ (b'.' ∷ c)))) ++ post
regroup a b c post = simp append_assoc

-- What `parseStatus` accepts is a prefix of the form d.d.d.
pub parse_status_sound :
    (s status : Str)
    → parse_status s ≡ some status
    → IsEnhanced status × ((post : Str) × (s ≡ status ++ post))
unfolding parse_status join
parse_status_sound s status h = elim (Option-cases (sections 2 s)) [
  | inl e ↦ absurd (none-ne-some (rw e at h))
  | inr (parts, e) ↦
      let (a, ra, more, ea, da, qa, e1) = next-IsSection_sound 1 s e in
      let (b, rb, more', eb, db, qb, e2) = next-IsSection_sound 0 ra e1 in
      let (c, post, ec, dc, qc) = last-IsSection_sound rb e2 in
      let same : status ≡ a ++ (b'.' ∷ (b ++ (b'.' ∷ c))) =
        sym (some-inj (rw (e, ea, eb, ec) at h)) in
      (
        record {
          first = a;
          second = b;
          third = c;
          first_section = da;
          second_section = db;
          third_section = dc;
          joined = same;
        },
        (
          post,
          qa
              ∙ ap (λ t. a ++ (b'.' ∷ t)) (qb ∙ ap (λ t. b ++ (b'.' ∷ t)) qc)
              ∙ regroup a b c post
              ∙ ap (λ t. t ++ post) (sym same),
        ),
      )
]

-- Whether the byte before the end of `pre` is a digit, `after_digit` where `pre` is empty.
abbrev pub ends_digit : Bool → Str → Bool
ends_digit after_digit [] = after_digit
ends_digit after_digit (c ∷ pre) = ends_digit (is_digit c) pre

abbrev pub starts_class : Str → Bool
starts_class [] = false
starts_class (c ∷ s) = c == b'4' || c == b'5'

find_enhanced_from_sound :
    (d : Bool) (s status : Str)
    → find_enhanced_from d s ≡ some status
    → (pre rest : Str) × (s ≡ pre ++ rest)
      × (ends_digit d pre ≡ false)
      × (starts_class rest ≡ true)
      × (parse_status rest ≡ some status)
unfolding find_enhanced_from
find_enhanced_from_sound d [] status h = cc
find_enhanced_from_sound d (c ∷ s) status h = elim (Option-cases (parse_status (c ∷ s))) [
  | inl e ↦
      let (pre, rest, q, b, cl, p) =
        find_enhanced_from_sound (is_digit c) s status (ground arith) in
      (c ∷ pre, rest, ap (λ t. c ∷ t) {y = pre ++ rest} q, b, cl, p)
  | inr (st, e) ↦ elim (Bool-cases (not (c == b'4') && not (c == b'5') || d)) [
    | inl skip ↦
        let (pre, rest, q, b, cl, p) =
          find_enhanced_from_sound (is_digit c) s status (ground arith) in
        (c ∷ pre, rest, ap (λ t. c ∷ t) {y = pre ++ rest} q, b, cl, p)
    | inr stay ↦ ([], c ∷ s, refl, ground arith, ground arith, ground arith)
  ]
]

find_enhanced_from-none :
    (d : Bool) (s pre rest : Str)
    → find_enhanced_from d s ≡ none
    → s ≡ pre ++ rest
    → ends_digit d pre ≡ false
    → starts_class rest ≡ true
    → parse_status rest ≡ none
unfolding find_enhanced_from
find_enhanced_from-none d [] [] [] h q b cl = cc
find_enhanced_from-none d [] [] (_ ∷ _) h q b cl = cc
find_enhanced_from-none d [] (_ ∷ _) rest h q b cl = cc
find_enhanced_from-none d (c ∷ s) [] [] h q b cl = cc
find_enhanced_from-none d (c ∷ s) [] (c' ∷ rest) h q b cl =
    let same : c ∷ s ≡ c' ∷ rest = q in rw (← same) (ground arith)
find_enhanced_from-none d (c ∷ s) (c' ∷ pre) rest h q b cl =
    find_enhanced_from-none (is_digit c) s pre rest (ground arith) (cc) (ground arith) cl

reply_code_sound :
    (f : Str) (code : ℕ)
    → reply_code f ≡ some code
    → All IsDigit f × (length f ≡ 3) × (200 ≤ code) × (code ≤ 599)
unfolding reply_code
reply_code_sound (a ∷ b ∷ c ∷ []) code h = ground (arith, IsDigit-of a, IsDigit-of b, IsDigit-of c)
reply_code_sound [] code h = cc
reply_code_sound (_ ∷ []) code h = cc
reply_code_sound (_ ∷ _ ∷ []) code h = cc
reply_code_sound (_ ∷ _ ∷ _ ∷ _ ∷ _) code h = cc

lead-class :
    (rest status post : Str)
    → starts_class rest ≡ true
    → rest ≡ status ++ post
    → status ≢ []
    → starts_class status ≡ true
lead-class rest [] post cl q ne = absurd (ne refl)
lead-class [] (d ∷ status) post cl q ne = cc
lead-class (c ∷ rest) (d ∷ status) post cl q ne = ground arith

section-ne-nil : (a t : Str) → 1 ≤ length a → a ++ t ≢ []
section-ne-nil [] t h = absurd (omega arith)
section-ne-nil (c ∷ a) t h = λ e. cc

-- A status that is found has the form d.d.d with one to three digits to a section, begins with 4
-- or 5, and stands in the text at a place where no digit precedes it.
pub find_enhanced_status_sound :
    (s status : Str)
    → find_enhanced_status s ≡ some status
    → IsEnhanced status
      × (starts_class status ≡ true)
      × ((pre : Str) × (post : Str) × (s ≡ pre ++ (status ++ post))
          × (ends_digit false pre ≡ false))
unfolding find_enhanced_status
find_enhanced_status_sound s status h =
    let (pre, rest, q, b, cl, p) = find_enhanced_from_sound false s status h in
    let (form, (post, q')) = parse_status_sound rest status p in
    let ne : status ≢ [] = rw form.joined (section-ne-nil form.first _ form.first_section.1) in
    (form, lead-class rest status post cl q' ne, (pre, post, q ∙ ap (λ t. pre ++ t) q', b))

-- If no status is found, then none can be read at any place of the text where one may begin.
pub find_enhanced_status-none :
    (s pre rest : Str)
    → find_enhanced_status s ≡ none
    → s ≡ pre ++ rest
    → ends_digit false pre ≡ false
    → starts_class rest ≡ true
    → parse_status rest ≡ none
unfolding find_enhanced_status
find_enhanced_status-none s pre rest h q b cl = find_enhanced_from-none false s pre rest h q b cl

first_reply_code_sound :
    (fields : List Str) (code : ℕ)
    → first_reply_code fields ≡ some code
    → (f : Str) × Member f fields × (reply_code f ≡ some code)
unfolding first_reply_code
first_reply_code_sound [] code h = cc
first_reply_code_sound (f ∷ fields) code h = elim (Option-cases (reply_code f)) [
  | inl e ↦ let (g, m, r) = first_reply_code_sound fields code (ground arith) in (g, inr m, r)
  | inr (c, e) ↦ (f, inl refl, ground arith)
]

-- A reply code that is found lies between 200 and 599 and is a field of three digits.
pub find_reply_code_sound :
    (s : Str) (code : ℕ)
    → find_reply_code s ≡ some code
    → (200 ≤ code)
      × (code ≤ 599)
      × ((f : Str) × Member f (fields_by is_reply_separator s) × All IsDigit f × (length f ≡ 3))
unfolding find_reply_code
find_reply_code_sound s code h =
    let (f, m, r) = first_reply_code_sound _ code h in
    let (d, l, lo, hi) = reply_code_sound f code r in (lo, hi, (f, m, d, l))
