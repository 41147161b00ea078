-- ===== src/Bounce/Outcomes.antt =====
-- What `Classify` of internal/bounce/classify.go decides, on every branch.
use ai_email.Base.{
  ℕ, ◌≤◌, ◌≡◌, refl, ◌∙◌, inl, inr, true, false, not, Option, none, some, [], ◌∷◌, Str, lookup,
  arith, leb, ◌==◌, Unicode, Bool-cases, Option-cases,
}
use ai_email.Bounce.{
  unknown, soft, hard, complaint, Verdict, verdict_suppresses, hard_status, soft_status,
  find_enhanced_status, find_reply_code, by_first_digit, by_status, by_reply_code, capped,
  is_complaint, classify_codes, classify, verdict,
}
use ai_email.Bounce.Cases.{classify_codes-cases, by_status_unlisted}

abbrev IsConsistent : Verdict → Type 0
IsConsistent v = v.retryable ≡ not (verdict_suppresses v)

abbrev IsConsistent? : Option Verdict → Type 0
IsConsistent? none = Unit
IsConsistent? (some v) = IsConsistent v

by_first_digit-IsConsistent : (st : Str) → IsConsistent? (by_first_digit st)
unfolding by_first_digit verdict_suppresses
by_first_digit-IsConsistent [] = tt
by_first_digit-IsConsistent (c ∷ s) = elim (Bool-cases (c == b'5')) [
  | inl e ↦ rw e refl
  | inr e ↦ elim (Bool-cases (c == b'4')) [ inl f ↦ rw (e, f) refl | inr f ↦ rw (e, f) tt ]
]

by_status-IsConsistent : (st : Str) → IsConsistent? (by_status st)
unfolding by_status verdict_suppresses
by_status-IsConsistent st = elim (Option-cases (lookup st hard_status)) [
  | inr (r, e) ↦ rw (e, by_status) refl
  | inl e ↦ elim (Option-cases (lookup st soft_status)) [
    | inr (r, f) ↦ rw (e, f, by_status) refl
    | inl f ↦ rw (e, f, by_status) (by_first_digit-IsConsistent st)
  ]
]

by_reply_code-IsConsistent : (code : ℕ) → IsConsistent? (by_reply_code code)
unfolding by_reply_code verdict_suppresses
by_reply_code-IsConsistent code = elim (Bool-cases (leb 500 code)) [
  | inl e ↦ rw e refl
  | inr e ↦ elim (Bool-cases (leb 400 code)) [ inl f ↦ rw (e, f) refl | inr f ↦ rw (e, f) tt ]
]

classify_codes-IsConsistent : (response : Str) → IsConsistent (classify_codes response)
classify_codes-IsConsistent response =
    classify_codes-cases IsConsistent response (unfold verdict_suppresses in refl)
      (λ st v e f. let c = by_status-IsConsistent st in rw f at c)
      (λ code v e f. let c = by_reply_code-IsConsistent code in rw f at c)

-- Whatever the response, the verdict allows a retry exactly when it does not suppress the address.
pub classify_retryable :
    (u : Unicode) (response : Str)
    → (classify u response).retryable ≡ not (verdict_suppresses (classify u response))
unfolding classify
classify_retryable u response = elim (Bool-cases (is_complaint u (capped response))) [
  | inl e ↦ rw (e, classify) (unfold verdict_suppresses in refl)
  | inr e ↦ rw (e, classify) (classify_codes-IsConsistent (capped response))
]

-- What can make a verdict hard: an enhanced status that the hard table lists, an enhanced status
-- of class 5 that neither table lists, or a reply code from 500 on.
pub data HardCause (response : Str) : Type 0 where
  listed :
      {st reason : Str}
      → find_enhanced_status response ≡ some st
      → lookup st hard_status ≡ some reason
      → HardCause response
  class_five :
      {st : Str}
      → find_enhanced_status response ≡ some st
      → lookup st hard_status ≡ none
      → lookup st soft_status ≡ none
      → (rest : Str) → st ≡ b'5' ∷ rest
      → HardCause response
  code_five : {code : ℕ} → find_reply_code response ≡ some code → 500 ≤ code → HardCause response

soft-ne-hard : soft ≡ hard → ⊥
soft-ne-hard h = cc

complaint-ne-hard : complaint ≡ hard → ⊥
complaint-ne-hard h = cc

unknown-ne-hard : unknown ≡ hard → ⊥
unknown-ne-hard h = cc

by_status_soft :
    (st r : Str) (v : Verdict)
    → lookup st hard_status ≡ none
    → lookup st soft_status ≡ some r
    → by_status st ≡ some v
    → soft ≡ v.kind
unfolding by_status
by_status_soft st r v e f h =
    let same : some (verdict soft st r true) ≡ some v = rw (e, f, by_status) at h in cc same

by_first_digit-hard :
    (st : Str) (v : Verdict)
    → by_first_digit st ≡ some v
    → v.kind ≡ hard
    → (rest : Str) × (st ≡ b'5' ∷ rest)
unfolding by_first_digit
by_first_digit-hard [] v h k = cc
by_first_digit-hard (c ∷ s) v h k = (s, ground arith)

by_status-hard :
    (response st : Str) (v : Verdict)
    → find_enhanced_status response ≡ some st
    → by_status st ≡ some v
    → v.kind ≡ hard
    → HardCause response
by_status-hard response st v found h k = elim (Option-cases (lookup st hard_status)) [
  | inr (r, e) ↦ listed found e
  | inl e ↦ elim (Option-cases (lookup st soft_status)) [
    | inr (r, f) ↦ absurd (soft-ne-hard (by_status_soft st r v e f h ∙ k))
    | inl f ↦
        let (rest, q) = by_first_digit-hard st v (by_status_unlisted st e f ∙ h) k in
        class_five found e f rest q
  ]
]

by_reply_code-hard :
    (code : ℕ) (v : Verdict) → by_reply_code code ≡ some v → v.kind ≡ hard → 500 ≤ code
unfolding by_reply_code
by_reply_code-hard code v h k = ground arith

-- A hard verdict has one of the three causes, and a text with a complaint phrase is never hard.
pub classify_hard_cause :
    (u : Unicode) (response : Str)
    → (classify u response).kind ≡ hard
    → HardCause (capped response) × (is_complaint u (capped response) ≡ false)
unfolding classify
classify_hard_cause u response h = elim (Bool-cases (is_complaint u (capped response))) [
  | inl e ↦ absurd (complaint-ne-hard (rw e at h))
  | inr e ↦ (
    classify_codes-cases (λ v. v.kind ≡ hard → HardCause (capped response)) (capped response)
        (λ k. absurd (unknown-ne-hard k))
        (λ st v f g k. by_status-hard (capped response) st v f g k)
        (λ code v f g k. code_five f (by_reply_code-hard code v g k)) (rw e at h),
    e,
  )
]
