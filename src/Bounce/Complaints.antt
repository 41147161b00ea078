-- ===== src/Bounce/Complaints.antt =====
-- When `classify` of internal/bounce/classify.go reports a complaint.
use ai_email.Base.{
  ℕ, ◌≡◌, refl, ◌∙◌, ◌≢◌, ◌↔◌, inl, inr, true, false, some, [], ◌∷◌, ◌++◌, Str, lookup, any_sound,
  any_complete, Member, arith, clash, Unicode, to_lower, contains, contains_iff, Bool-cases,
  Option-cases,
}
use ai_email.Bounce.{
  soft, hard, complaint, Verdict, hard_status, soft_status, complaint_phrases, by_first_digit,
  by_status, by_reply_code, capped, is_complaint, classify_codes, classify, verdict,
}
use ai_email.Bounce.Cases.{classify_codes-cases, by_status_unlisted}

abbrev IsNotComplaint : Verdict → Type 0
IsNotComplaint v = v.kind ≢ complaint

by_first_digit-IsNotComplaint :
    (st : Str) (v : Verdict) → by_first_digit st ≡ some v → IsNotComplaint v
unfolding by_first_digit
by_first_digit-IsNotComplaint [] v h k = cc
by_first_digit-IsNotComplaint (c ∷ s) v h k = ground arith

by_status-IsNotComplaint : (st : Str) (v : Verdict) → by_status st ≡ some v → IsNotComplaint v
unfolding by_status
by_status-IsNotComplaint st v h k = elim (Option-cases (lookup st hard_status)) [
  | inr (r, e) ↦
      let same : some (verdict hard st r false) ≡ some v = rw (e, by_status) at h in cc (same, k)
  | inl e ↦ elim (Option-cases (lookup st soft_status)) [
    | inr (r, f) ↦
        let same : some (verdict soft st r true) ≡ some v = rw (e, f, by_status) at h in
        cc (same, k)
    | inl f ↦ by_first_digit-IsNotComplaint st v (by_status_unlisted st e f ∙ h) k
  ]
]

by_reply_code-IsNotComplaint :
    (code : ℕ) (v : Verdict) → by_reply_code code ≡ some v → IsNotComplaint v
unfolding by_reply_code
by_reply_code-IsNotComplaint code v h k = ground arith

classify_codes-IsNotComplaint : (response : Str) → IsNotComplaint (classify_codes response)
classify_codes-IsNotComplaint response =
    classify_codes-cases IsNotComplaint response (λ k. cc)
      (λ st v e f. by_status-IsNotComplaint st v f)
      (λ code v e f. by_reply_code-IsNotComplaint code v f)

is_complaint_iff :
    (u : Unicode) (response : Str)
    → (is_complaint u response ≡ true) ↔ (
        (phrase : Str) × Member phrase complaint_phrases
        × (pre : Str) × (post : Str) × (to_lower u response ≡ pre ++ (phrase ++ post)))
unfolding is_complaint
is_complaint_iff u response = (
  λ h.
      let (phrase, m, e) = any_sound (contains (to_lower u response)) complaint_phrases h in
      let (pre, post, q) = (contains_iff _ phrase).0 e in (phrase, m, pre, post, q),
  λ (phrase, m, pre, post, q).
      any_complete (contains (to_lower u response)) phrase complaint_phrases m
        ((contains_iff _ phrase).1 (pre, post, q)),
)

-- The verdict is a complaint exactly when one of the complaint phrases stands in the lowered text,
-- whatever codes the text holds besides.
pub classify_complaint_iff :
    (u : Unicode) (response : Str)
    → ((classify u response).kind ≡ complaint) ↔ (
        (phrase : Str) × Member phrase complaint_phrases
        × (pre : Str) × (post : Str) × (to_lower u (capped response) ≡ pre ++ (phrase ++ post)))
unfolding classify
classify_complaint_iff u response = elim (Bool-cases (is_complaint u (capped response))) [
  | inl e ↦ (λ k. (is_complaint_iff u (capped response)).0 e, λ _. rw (e, classify) refl)
  | inr e ↦ (
    λ k. absurd (classify_codes-IsNotComplaint (capped response) (rw e at k)),
    λ w. absurd (clash ((is_complaint_iff u (capped response)).1 w) e),
  )
]
