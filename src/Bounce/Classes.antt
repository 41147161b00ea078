-- ===== src/Bounce/Classes.antt =====
-- The class digit of an enhanced status, in `classify` of internal/bounce/classify.go.
use ai_email.Base.{
  ℕ, ◌≡◌, refl, ap, sym, ◌∙◌, inl, inr, Bool, true, false, none, some, [], ◌∷◌, Str, lookup,
  lookup-eq-none, ◌==◌, Unicode, Option-cases,
}
use ai_email.Bounce.{
  soft, hard, Verdict, verdict_suppresses, hard_status, soft_status, find_enhanced_status,
  by_first_digit, by_status, capped, is_complaint, classify_codes, classify, verdict,
  permanent_reason, temporary_reason,
}
use ai_email.Bounce.Cases.{bind_of, by_status_unlisted}

abbrev is_class : ℕ → Str → Bool
is_class d [] = false
is_class d (c ∷ s) = c == d

codes_status :
    (response st : Str) (v : Verdict)
    → find_enhanced_status response ≡ some st
    → by_status st ≡ some v
    → classify_codes response ≡ v
unfolding classify_codes
codes_status response st v e f = rw (bind_of by_status e f, classify_codes)

class_four :
    (response rest : Str)
    → find_enhanced_status response ≡ some (b'4' ∷ rest)
    → lookup (b'4' ∷ rest) hard_status ≡ none
    → (classify_codes response).kind ≡ soft
class_four response rest found e = elim (Option-cases (lookup (b'4' ∷ rest) soft_status)) [
  | inr (r, f) ↦
      let v = verdict soft (b'4' ∷ rest) r true in
      ap (λ (w : Verdict). w.kind)
        (codes_status response _ v found (unfold by_status in rw (e, f, by_status)))
  | inl f ↦
      let v = verdict soft (b'4' ∷ rest) temporary_reason true in
      ap (λ (w : Verdict). w.kind)
        (codes_status response _ v found
          (sym (by_status_unlisted _ e f) ∙ (unfold by_first_digit in refl)))
]

codes_unlisted_five :
    (response rest : Str)
    → find_enhanced_status response ≡ some (b'5' ∷ rest)
    → lookup (b'5' ∷ rest) hard_status ≡ none
    → lookup (b'5' ∷ rest) soft_status ≡ none
    → classify_codes response ≡ verdict hard (b'5' ∷ rest) permanent_reason false
codes_unlisted_five response rest found h s =
    codes_status response _ _ found
      (sym (by_status_unlisted _ h s) ∙ (unfold by_first_digit in refl))

-- A response with no complaint phrase whose first enhanced status has class 4 is a soft failure.
classify_class_four :
    (u : Unicode) (response rest : Str)
    → is_complaint u (capped response) ≡ false
    → find_enhanced_status (capped response) ≡ some (b'4' ∷ rest)
    → (classify u response).kind ≡ soft
unfolding classify
classify_class_four u response rest nc found =
    rw (nc, classify)
      (class_four (capped response) rest found (
        lookup-eq-none (b'4' ∷ rest) hard_status (is_class b'5') refl (unfold hard_status in refl)))

-- A response with no complaint phrase whose first enhanced status has class 5 and stands in neither
-- table is a hard bounce, so the address is suppressed.
pub classify_unlisted_five :
    (u : Unicode) (response rest : Str)
    → is_complaint u (capped response) ≡ false
    → find_enhanced_status (capped response) ≡ some (b'5' ∷ rest)
    → lookup (b'5' ∷ rest) hard_status ≡ none
    → lookup (b'5' ∷ rest) soft_status ≡ none
    → (verdict_suppresses (classify u response) ≡ true) × ((classify u response).retryable ≡ false)
unfolding classify verdict_suppresses
classify_unlisted_five u response rest nc found h s =
    rw (nc, classify) (rw (codes_unlisted_five (capped response) rest found h s) (refl, refl))
