-- ===== src/Webhook/Sign/Tests.antt =====
-- Tests of internal/webhook/sign.go, with an encoding that is no base64 but has its laws.
use ai_email.Base.{
  ◌+◌, ◌-◌, ◌*◌, ◌≡◌, refl, ap, ap₂, some, [], ◌∷◌, ◌++◌, map, Str, codes, ok, err, arith,
  ascii_only, to_upper, is_ascii, upper_byte, index, has_prefix, parse_int, parse_digits, digits,
  space_width, negsuc,
}
use ai_email.Webhook.Sign.{
  Signing, Signed, unreadable_created, second, sign, verify, created_from, after_marker, scan_int,
  signed_run, run_of_digits, skip_spaces, parameter, or_unreadable,
}
use ai_email.Webhook.Sign.Trusted.{IsSigned, signature_sound}
use ai_email.Webhook.Sign.Verified.{Decodes, Uncoloned, verify_signed}

abbrev shifting : Signing
shifting = record {
  unicode = ascii_only;
  sha256 = λ s. s;
  hmac = λ k s. k ++ s;
  encode64 = λ s. map (λ c. c + 100) s;
  decode64 = λ s. some (map (λ c. c - 100) s);
  parse_target = λ s. some (record { path = []; with_path = λ p. s ++ p });
}

shifted_back : (s : Str) → map (λ c. c - 100) (map (λ c. c + 100) s) ≡ s
shifted_back [] = refl
shifted_back (c ∷ s) = ap₂ (λ x t. x ∷ t) (omega arith) (shifted_back s)

shifted_Uncoloned : (s : Str) → Uncoloned (map (λ c. c + 100) s)
shifted_Uncoloned [] = tt
shifted_Uncoloned (c ∷ s) = (ground arith, shifted_Uncoloned s)

decodes : Decodes shifting
decodes = record { decoded = λ s. ap some (shifted_back s); uncoloned = shifted_Uncoloned }

abbrev signed_at : Signed
signed_at = sign shifting (codes "post") (codes "http://h") (codes "{}") (codes "k") (7 * second)

verify_signed_example :
    verify shifting
      (codes "POST")
      (codes "http://h")
      (codes "{}")
      (codes "k")
      signed_at.signature_input
      signed_at.signature
      (9 * second)
    ≡ ok tt
unfolding to_upper is_ascii upper_byte
verify_signed_example =
    verify_signed shifting (codes "post") (codes "POST") (codes "http://h") (codes "http://h")
      (codes "{}") (codes "k") (7 * second) (9 * second) decodes refl refl (omega arith)
      (omega arith) (omega arith)

signature_sound_example :
    IsSigned shifting
      (codes "POST")
      (codes "http://h")
      (codes "{}")
      (codes "k")
      signed_at.signature_input
      signed_at.signature
      (9 * second)
signature_sound_example =
    signature_sound shifting (codes "POST") (codes "http://h") (codes "{}") (codes "k")
      signed_at.signature_input signed_at.signature (9 * second) verify_signed_example

-- The reader takes a sign and spaces, and stops at what is no digit.
created_read : created_from (codes "a;created= -12x;b") ≡ ok (negsuc 11)
unfolding created_from after_marker or_unreadable scan_int signed_run run_of_digits skip_spaces
    parameter index has_prefix parse_int parse_digits digits space_width
created_read = refl

created_broken : created_from (codes "created=\n12") ≡ err unreadable_created
unfolding created_from after_marker or_unreadable scan_int skip_spaces parameter index has_prefix
    space_width
created_broken = refl
