-- ===== src/Bounce/Cases.antt =====
-- The cases that the proofs about `classify` of internal/bounce/classify.go go through.
use ai_email.Base.{
  ℕ, ◌≡◌, refl, ◌⊎◌, inl, inr, Option, none, some, Str, lookup, option_bind, Option-cases,
}
use ai_email.Bounce.{
  Verdict, hard_status, soft_status, find_enhanced_status, find_reply_code, by_first_digit,
  by_status, by_reply_code, classify_reply, classify_codes, unclassified,
}

pub by_status_unlisted :
    (st : Str)
    → lookup st hard_status ≡ none
    → lookup st soft_status ≡ none
    → by_first_digit st ≡ by_status st
unfolding by_status
by_status_unlisted st e f = rw (e, f, by_status)

-- The steps that all the proofs about `classify_codes` take: the search finds nothing, or what it
-- finds is decided, or the decision falls through.
bind-cases :
    {A : Type 0} (o : Option A) (f : A → Option Verdict)
    → (option_bind o f ≡ none) ⊎ ((a : A) × (v : Verdict) × (o ≡ some a) × (f a ≡ some v))
bind-cases none f = inl refl
bind-cases (some a) f = elim (Option-cases (f a)) [
  | inl e ↦ inl e
  | inr (v, e) ↦ inr (a, v, refl, e)
]

pub bind_of :
    {A : Type 0} {o : Option A} (f : A → Option Verdict) {a : A} {v : Verdict}
    → o ≡ some a
    → f a ≡ some v
    → option_bind o f ≡ some v
bind_of f e g = rw e g

module _ (P : Verdict → Type 0) (response : Str) where
  classify_reply-cases :
      (P unclassified)
      → ((code : ℕ) (v : Verdict)
          → find_reply_code response ≡ some code
          → by_reply_code code ≡ some v
          → P v)
      → P (classify_reply response)
  unfolding classify_reply
  classify_reply-cases p q = elim (bind-cases (find_reply_code response) by_reply_code) [
    | inl e ↦ rw (e, classify_reply) p
    | inr (code, v, e, f) ↦ rw (bind_of by_reply_code e f, classify_reply) (q code v e f)
  ]

  pub classify_codes-cases :
      (P unclassified)
      → ((st : Str) (v : Verdict)
          → find_enhanced_status response ≡ some st
          → by_status st ≡ some v
          → P v)
      → ((code : ℕ) (v : Verdict)
          → find_reply_code response ≡ some code
          → by_reply_code code ≡ some v
          → P v)
      → P (classify_codes response)
  unfolding classify_codes
  classify_codes-cases p q r = elim (bind-cases (find_enhanced_status response) by_status) [
    | inl e ↦ rw (e, classify_codes) (classify_reply-cases p r)
    | inr (st, v, e, f) ↦ rw (bind_of by_status e f, classify_codes) (q st v e f)
  ]
