-- ===== src/Keys.antt =====
-- internal/keys/keys.go: the form of API keys. The unpadded standard form of base32 is the parameter
-- `Encoding`; a key's random bytes are an argument.
pub mod Issued
pub mod Tests
use ai_email.Base.{
  ℕ, ◌+◌, ◌*◌, Bool, true, false, not, Option, none, some, List, [], ◌∷◌, ◌++◌, Str, codes, Result,
  ok, err, ltb, leb, ◌==◌, if◌then◌else◌, length, take, drop, has_prefix, Unicode, to_lower,
  to_upper, ℤ, pos, negsuc,
}
use ai_email.Store.Suppressions.{Digest}

abbrev pub live_prefix : Str
live_prefix = codes "aiem_live_"

abbrev pub secret_bytes : ℕ
secret_bytes = 32

abbrev pub day : ℕ
day = 24 * (3600 * 1000000000)

abbrev pub default_lifetime : ℕ
default_lifetime = 90 * day

abbrev pub max_lifetime : ℕ
max_lifetime = 365 * day

-- `ErrMalformed`; the other errors of the package have no use.
pub data Problem : Type 0 where
  malformed : Problem

pub record Encoding : Type 0 where
  pub encode32 : Str → Str
  pub decode32 : Str → Option Str

pub record Generated : Type 0 where
  pub secret : Str
  pub hash : Str
  pub prefix : Str

-- `strings.TrimPrefix(secret, LivePrefix)`
unfoldable pub key_body : Str → Str
key_body secret = if has_prefix secret live_prefix then drop (length live_prefix) secret else secret

-- The character `…`.
abbrev pub ellipsis : Str
ellipsis = 0xE2 ∷ 0x80 ∷ 0xA6 ∷ []

-- `Display`
unfoldable pub display : Str → Str
display secret =
    if ltb (length (key_body secret)) 6
    then live_prefix ++ ellipsis
    else live_prefix ++ (take 6 (key_body secret) ++ ellipsis)

-- `Generate`, from the bytes that `rand.Read` gave; `Hash` is the digest.
unfoldable pub generate : Unicode → Encoding → Digest → Str → Generated
generate u e sha256 raw =
    let secret = live_prefix ++ to_lower u (e.encode32 raw) in
    record { secret = secret; hash = sha256 secret; prefix = display secret }

unfoldable pub of_decoded : Option Str → Result Problem (Unit {0})
of_decoded none = err malformed
of_decoded (some decoded) = if length decoded == secret_bytes then ok tt else err malformed

-- `Parse`
unfoldable pub parse : Unicode → Encoding → Str → Result Problem (Unit {0})
parse u e secret =
    if not (has_prefix secret live_prefix)
    then err malformed
    else of_decoded (e.decode32 (to_upper u (key_body secret)))

-- `Lifetime`
unfoldable pub lifetime : ℤ → ℕ
lifetime (negsuc _) = default_lifetime
lifetime (pos requested) =
    if requested == 0
    then default_lifetime
    else if ltb max_lifetime requested
    then max_lifetime
    else requested
