-- ===== src/Unsubscribe/Tests.antt =====
-- A token that is accepted, under a code that only doubles as a hash.
use ai_email.Base.{
  ◌+◌, ◌-◌, ◌*◌, ◌/◌, ◌==◌, ◌≤◌, ◌≡◌, refl, ap, ap₂, false, some, [], ◌∷◌, ◌++◌, map, any, ok, Str,
  codes, str_eq, arith, ascii_only, to_lower, lower_byte, trim_space, trim_start, reverse_onto,
  space_width, space_width_back, cut, first_field, split, digits, parse_digits, parse_int, pos,
}
use ai_email.Unsubscribe.{Codec, second, lifetime, sign, unexpired, of_parts, checked, verify}
use ai_email.Base.{Lacks}
use ai_email.Unsubscribe.Roundtrip.{verify-sign}
use ai_email.Unsubscribe.Trips.{verify_sound}

abbrev open_codec : Codec
open_codec = record { hmac = λ k s. k ++ s; encode64 = λ s. s; decode64 = λ s. some s }

abbrev pub key : Str
key = codes "k"

abbrev a_payload : Str
a_payload = codes "m1" ++ (0 ∷ (codes "a@b" ++ (0 ∷ codes "5")))

abbrev a_token : Str
a_token = a_payload ++ (b'.' ∷ (key ++ a_payload))

verify_sound_example :
    (p q payload expiry : Str) × (cut b'.' a_token ≡ some (p, q))
    × (some p ≡ some payload)
    × (some q ≡ some (key ++ payload))
    × (payload ≡ codes "m1" ++ (0 ∷ (codes "a@b" ++ (0 ∷ expiry))))
    × (parse_int expiry ≡ some (pos 5))
    × (3 ≤ 5 * second)
unfolding verify cut checked str_eq of_parts split first_field parse_int parse_digits digits
    unexpired
verify_sound_example =
    verify_sound open_codec key a_token 3
      (record { message_id = codes "m1"; address = codes "a@b"; expires_at = 5 }) refl

-- A codec that is no base64, but has its laws.
abbrev pub shifting : Codec
shifting = record {
  hmac = λ k s. k ++ s;
  encode64 = λ s. map (λ c. c + 100) s;
  decode64 = λ s. some (map (λ c. c - 100) s);
}

pub shifted_back : (s : Str) → map (λ c. c - 100) (map (λ c. c + 100) s) ≡ s
shifted_back [] = refl
shifted_back (c ∷ s) = ap₂ (λ x t. x ∷ t) (omega arith) (shifted_back s)

pub no_dot : (s : Str) → Lacks b'.' (map (λ c. c + 100) s)
no_dot [] = refl
no_dot (c ∷ s) = let other : (c + 100 == b'.') ≡ false = ground arith in rw (other, any) (no_dot s)

verify-sign_example :
    verify shifting key (sign ascii_only shifting key (codes "m1") (codes " A@b ") 5) 900
    ≡ ok (record {
      message_id = codes "m1";
      address = to_lower ascii_only (trim_space (codes " A@b "));
      expires_at = (5 + lifetime) / second;
    })
unfolding to_lower lower_byte trim_space trim_start reverse_onto space_width space_width_back
verify-sign_example =
    verify-sign ascii_only shifting key (codes "m1") (codes " A@b ") 5 900
      (λ s. ap some (shifted_back s)) no_dot refl refl (omega arith) (omega arith)
