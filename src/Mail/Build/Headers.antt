-- ===== src/Mail/Build/Headers.antt =====
-- The header block that `Build` of internal/mail/build.go writes: which lines it has, and that no
-- value adds one.
use mathlib.Core.List.{append_assoc}
use ai_email.Base.{
  ℕ, ◌≡◌, ◌≢◌, refl, ap, sym, ◌∙◌, Bool, true, List, [], ◌∷◌, ◌++◌, Str, codes, str_eq, ok,
  >>=-eq-ok, if◌then◌else◌, Unicode, join, All, all, not, ◌&&◌, length, ◌==◌, arith, Bool-cases,
  Option-cases, inl, inr, err-ne-ok, ok-inj, append-nil', All-append,
}
use ai_email.Mail.{is_control, contains_control, validate_subject, validate_custom_header}
use ai_email.Mail.Fields.{IsClean, contains_control_bytes, IsNameByte, validate_custom_header-exact}
use ai_email.Mail.Build.{
  Envelope, Mime, line, write, write_set, write_unsubscribe, write_extra, date_of, write_headers,
  content, build,
}

-- The lines as names and values.
abbrev pub Lines : Type 0
Lines = List (Str × Str)

abbrev pub render : Lines → Str
render [] = []
render ((name, value) ∷ lines) = line name value ++ render lines

abbrev pub reply_lines : Str → Lines
reply_lines value = if str_eq value [] then [] else (codes "Reply-To", value) ∷ []

abbrev pub unsubscribe_lines : Str → Lines
unsubscribe_lines url =
    if str_eq url []
    then []
    else (codes "List-Unsubscribe", codes "<" ++ (url ++ codes ">"))
      ∷ (codes "List-Unsubscribe-Post", codes "List-Unsubscribe=One-Click")
      ∷ []

-- The lines of a message, from its envelope alone.
abbrev pub lines_of : Mime → Envelope → Lines
lines_of m e =
    (codes "From", e.from)
    ∷ (codes "To", join (codes ", ") e.to)
    ∷ (reply_lines e.reply_to
        ++ ((codes "Subject", m.q_encode e.subject)
            ∷ (codes "Message-ID", codes "<" ++ (e.message_id ++ codes ">"))
            ∷ (codes "Date", m.format_date (date_of m e))
            ∷ (codes "MIME-Version", codes "1.0")
            ∷ (unsubscribe_lines e.unsubscribe_url ++ e.extra)))

abbrev NoBreak : ℕ → Type 0
NoBreak c = (c ≢ 13) × (c ≢ 10)

-- A line that a value or a name cannot break in two.
abbrev pub IsLine : Str × Str → Type 0
IsLine (name, value) = All NoBreak name × All NoBreak value

clean-NoBreak : (s : Str) → IsClean s → All NoBreak s
unfolding is_control
clean-NoBreak [] h = tt
clean-NoBreak (c ∷ s) h = (ground arith, clean-NoBreak s (ground arith))

name-NoBreak : (s : Str) → All IsNameByte s → All NoBreak s
name-NoBreak [] h = tt
name-NoBreak (c ∷ s) (h, hs) = (omega arith, name-NoBreak s hs)

-- The buffer after some writes: these lines were added.
record Adds (lines : Lines) (buf buf' : Str) : Type 0 where
  same : buf' ≡ buf ++ render lines
  safe : All IsLine lines

write-Adds :
    (name value buf : Str) {buf' : Str}
    → All NoBreak name
    → write name value buf ≡ ok buf'
    → Adds ((name, value) ∷ []) buf buf'
unfolding write
write-Adds name value buf {buf'} plain h = elim (Bool-cases (contains_control value)) [
  | inl e ↦ absurd (err-ne-ok (rw (e, write) at h))
  | inr e ↦
      let same : buf ++ line name value ≡ buf' = ok-inj (rw (e, write) at h) in
      record {
        same = sym same ∙ ap (λ t. buf ++ t) (sym (append-nil' (line name value)));
        safe = ((plain, clean-NoBreak value (sym (contains_control_bytes value) ∙ e)), tt);
      }
]

render-append : (xs ys : Lines) → render (xs ++ ys) ≡ render xs ++ render ys
render-append [] ys = refl
render-append ((n, v) ∷ xs) ys =
    ap (λ t. line n v ++ t) (render-append xs ys)
    ∙ sym (append_assoc (line n v) (render xs) (render ys))

Adds-trans : (xs ys : Lines) (a b c : Str) → Adds xs a b → Adds ys b c → Adds (xs ++ ys) a c
Adds-trans xs ys a b c p q = record {
  same =
      q.same
      ∙ ap (λ t. t ++ render ys) p.same
      ∙ append_assoc a (render xs) (render ys)
      ∙ ap (λ t. a ++ t) (sym (render-append xs ys));
  safe = All-append IsLine xs ys p.safe q.safe;
}

abbrev has_no_break : Str → Bool
has_no_break s = all (λ c. not (c == 13) && not (c == 10)) s

fixed-NoBreak : (s : Str) → has_no_break s ≡ true → All NoBreak s
fixed-NoBreak [] h = tt
fixed-NoBreak (c ∷ s) h = (ground arith, fixed-NoBreak s (ground arith))

fixed-Adds :
    (name value buf : Str) {buf' : Str}
    → has_no_break name ≡ true
    → write name value buf ≡ ok buf'
    → Adds ((name, value) ∷ []) buf buf'
fixed-Adds name value buf plain h = write-Adds name value buf (fixed-NoBreak name plain) h

Adds-none : (a b : Str) → a ≡ b → Adds [] a b
Adds-none a b e = record { same = sym e ∙ sym (append-nil' a); safe = tt }

write_set-Adds :
    (value buf : Str) {buf' : Str}
    → write_set (codes "Reply-To") value buf ≡ ok buf'
    → Adds (reply_lines value) buf buf'
unfolding write_set
write_set-Adds value buf {buf'} h = elim (Bool-cases (str_eq value [])) [
  | inl e ↦ rw e (Adds-none buf buf' (ok-inj (rw (e, write_set) at h)))
  | inr e ↦ rw e (fixed-Adds (codes "Reply-To") value buf refl (rw (e, write_set) at h))
]

write_unsubscribe-Adds :
    (url buf : Str) {buf' : Str}
    → write_unsubscribe url buf ≡ ok buf'
    → Adds (unsubscribe_lines url) buf buf'
unfolding write_unsubscribe
write_unsubscribe-Adds url buf {buf'} h = elim (Bool-cases (str_eq url [])) [
  | inl e ↦ rw e (Adds-none buf buf' (ok-inj (rw (e, write_unsubscribe) at h)))
  | inr e ↦
      let (mid, first, second) = >>=-eq-ok _ _ (rw (e, write_unsubscribe) at h) in
      rw e (
        Adds-trans _ _ buf mid buf' (fixed-Adds (codes "List-Unsubscribe") _ buf refl first)
          (fixed-Adds (codes "List-Unsubscribe-Post") _ mid refl second))
]

write_extra-Adds :
    (u : Unicode) (extra : Lines) (buf buf' : Str)
    → write_extra u extra buf ≡ ok buf'
    → Adds extra buf buf'
unfolding write_extra
write_extra-Adds u [] buf buf' h = Adds-none buf buf' (ok-inj h)
write_extra-Adds u ((name, value) ∷ extra) buf buf' h =
    elim (Option-cases (validate_custom_header u name value)) [
      | inr (p, e) ↦ absurd (err-ne-ok (rw (e, write_extra) at h))
      | inl e ↦
          let (mid, first, rest) = >>=-eq-ok _ _ (rw (e, write_extra) at h) in
          let plain = ((validate_custom_header-exact u name value).0 e).0.plain in
          Adds-trans ((name, value) ∷ []) extra buf mid buf'
            (write-Adds name value buf (name-NoBreak name plain) first)
            (write_extra-Adds u extra mid buf' rest)
    ]

write_headers-Adds :
    (u : Unicode) (m : Mime) (e : Envelope) {buf : Str}
    → write_headers u m e ≡ ok buf
    → Adds (lines_of m e) [] buf
unfolding write_headers
write_headers-Adds u m e {buf} h =
    let (b1, h1, r1) = >>=-eq-ok _ _ h in
    let (b2, h2, r2) = >>=-eq-ok _ _ r1 in
    let (b3, h3, r3) = >>=-eq-ok _ _ r2 in
    let (b4, h4, r4) = >>=-eq-ok _ _ r3 in
    let (b5, h5, r5) = >>=-eq-ok _ _ r4 in
    let (b6, h6, r6) = >>=-eq-ok _ _ r5 in
    let (b7, h7, r7) = >>=-eq-ok _ _ r6 in
    let (b8, h8, r8) = >>=-eq-ok _ _ r7 in
    let a8 =
      Adds-trans _ _ b7 b8 buf (write_unsubscribe-Adds e.unsubscribe_url b7 h8)
        (write_extra-Adds u e.extra b8 buf r8) in
    let a7 = Adds-trans _ _ b6 b7 buf (fixed-Adds (codes "MIME-Version") _ b6 refl h7) a8 in
    let a6 = Adds-trans _ _ b5 b6 buf (fixed-Adds (codes "Date") _ b5 refl h6) a7 in
    let a5 = Adds-trans _ _ b4 b5 buf (fixed-Adds (codes "Message-ID") _ b4 refl h5) a6 in
    let a4 = Adds-trans _ _ b3 b4 buf (fixed-Adds (codes "Subject") _ b3 refl h4) a5 in
    let a3 = Adds-trans _ _ b2 b3 buf (write_set-Adds e.reply_to b2 h3) a4 in
    let a2 = Adds-trans _ _ b1 b2 buf (fixed-Adds (codes "To") _ b1 refl h2) a3 in
    Adds-trans _ _ [] b1 buf (fixed-Adds (codes "From") _ [] refl h1) a2

-- A message that is built begins with the header lines of its envelope, in the order From, To,
-- Reply-To, Subject, Message-ID, Date, MIME-Version, the unsubscribe pair, the extra headers; then
-- its content follows. No name and no value of a line holds CR or LF, so no value adds a header.
pub build_headers :
    (u : Unicode) (m : Mime) (e : Envelope) (raw : Str)
    → build u m e ≡ ok raw
    → (raw ≡ render (lines_of m e) ++ content m e) × All IsLine (lines_of m e)
unfolding build
build_headers u m e raw h = elim (Option-cases (validate_subject e.subject)) [
  | inr (p, v) ↦ absurd (err-ne-ok (rw (v, build) at h))
  | inl v ↦ elim (Bool-cases (length e.to == 0)) [
    | inl z ↦ absurd (err-ne-ok (rw (v, z, build) at h))
    | inr z ↦
        let (buf, w, r) = >>=-eq-ok _ _ (rw (v, z, build) at h) in
        let written = write_headers-Adds u m e w in
        (sym (ok-inj r) ∙ ap (λ t. t ++ content m e) written.same, written.safe)
  ]
]
