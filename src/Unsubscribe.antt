-- ===== src/Unsubscribe.antt =====
-- internal/unsubscribe/token.go: tokens of one-click unsubscribe links. HMAC-SHA256 and the raw URL
-- form of base64 are the parameter `Codec`; times are in nanoseconds, the token's in seconds.
pub mod Trips
pub mod Roundtrip
pub mod Tests
use ai_email.Base.{
  ℕ, zero, suc, suc, ◌+◌, ◌-◌, ◌*◌, ◌/◌, ◌^◌, Bool, true, false, ◌&&◌, ◌||◌, Option, none, some,
  List, [], ◌∷◌, ◌++◌, Str, codes, str_eq, Result, ok, err, ◌>>=◌, ltb, leb, ◌==◌, Unicode,
  to_lower, trim_space, trim_last, itoa, if◌then◌else◌, option_bind, cut, split, ℤ, pos, negsuc,
  parse_int,
}

pub record Codec : Type 0 where
  pub hmac : Str → Str → Str
  pub encode64 : Str → Str
  pub decode64 : Str → Option Str

pub data Problem : Type 0 where
  malformed expired bad_signature : Problem

abbrev pub second : ℕ
second = 1000000000

-- `Lifetime`
abbrev pub lifetime : ℕ
lifetime = 90 * (24 * (3600 * second))

-- `DeriveSecret`
unfoldable pub derive_secret : Codec → Str → Str
derive_secret c master_key = c.hmac master_key (codes "aiemail/unsubscribe/v1")

pub record Token : Type 0 where
  pub message_id : Str
  pub address : Str
  pub expires_at : ℕ

-- `payloadOf`, for an expiry that is not negative.
unfoldable pub payload_of : Unicode → Str → Str → ℕ → Str
payload_of u message_id address expiry =
    message_id ++ (0 ∷ (to_lower u (trim_space address) ++ (0 ∷ itoa expiry)))

-- `Sign`
unfoldable pub sign : Unicode → Codec → Str → Str → Str → ℕ → Str
sign u c secret message_id address now =
    let payload = payload_of u message_id address ((now + lifetime) / second) in
    c.encode64 payload ++ (b'.' ∷ c.encode64 (c.hmac secret payload))

-- `now.After(time.Unix(expiry, 0))`, and the token.
unfoldable pub unexpired : ℕ → Str → Str → Option ℤ → Result Problem Token
unexpired now message_id address none = err malformed
unexpired now message_id address (some (negsuc n)) = err expired
unexpired now message_id address (some (pos n)) =
    if ltb (n * second) now
    then err expired
    else ok (record { message_id = message_id; address = address; expires_at = n })

unfoldable pub of_parts : ℕ → List Str → Result Problem Token
of_parts now (message_id ∷ address ∷ expiry ∷ []) =
    unexpired now message_id address (parse_int expiry)
of_parts now _ = err malformed

unfoldable pub checked : Codec → Str → ℕ → Str → Str → Result Problem Token
checked c secret now payload sig =
    if str_eq (c.hmac secret payload) sig then of_parts now (split 0 payload) else err bad_signature

abbrev pub or_malformed : {A : Type 0} → Option A → Result Problem A
or_malformed none = err malformed
or_malformed (some a) = ok a

-- `Verify`
unfoldable pub verify : Codec → Str → Str → ℕ → Result Problem Token
verify c secret token now = do
  (encoded_payload, encoded_sig) ← or_malformed (cut b'.' token)
  payload ← or_malformed (c.decode64 encoded_payload)
  sig ← or_malformed (c.decode64 encoded_sig)
  checked c secret now payload sig

-- `Link` and `Headers`
unfoldable pub link : Str → Str → Str
link base_url token = trim_last b'/' base_url ++ (codes "/u/" ++ token)

unfoldable pub headers : Str → Str × Str
headers link = (codes "<" ++ (link ++ codes ">"), codes "List-Unsubscribe=One-Click")
