-- ===== src/Dkim.antt =====
-- internal/dkim: custody.go, the custody of signing keys, and sign.go, the signature of a message. The
-- cipher, the key generators, X.509 and the signing library are parameters; a nonce is an argument.
pub mod Custody
pub mod Tests
use ai_email.Base.{
  ℕ, ◌+◌, ◌*◌, Bool, true, false, ◌&&◌, ◌||◌, Option, none, some, List, [], ◌∷◌, ◌++◌, Str, codes,
  str_eq, Result, ok, err, ◌>>=◌, ◌>>◌, ltb, ◌==◌, if◌then◌else◌, any, length, take, drop, index,
  has_prefix, to_lower, Unicode, trim_space, split, first_field,
}
use ai_email.Crypto.{Aead}

pub data Problem : Type 0 where
  no_key_material bad_ciphertext bad_master_key no_key : Problem
  unknown_algorithm : Str → Problem
  nothing_to_sign unsigned body_length_tag : Problem

-- The interface `Keeper`.
pub record Keeper : Type 0 where
  pub wrap : Str → Result Problem Str
  pub unwrap : Str → Result Problem Str

abbrev pub or_err : {A : Type 0} → Problem → Option A → Result Problem A
or_err e none = err e
or_err e (some a) = ok a

-- `EnvelopeKeeper.Wrap`
unfoldable pub wrap : Aead → Str → Str → Result Problem Str
wrap a nonce [] = err no_key_material
wrap a nonce (c ∷ plaintext) = ok (nonce ++ a.seal nonce (c ∷ plaintext))

-- `EnvelopeKeeper.Unwrap`
unfoldable pub unwrap : Aead → Str → Result Problem Str
unwrap a ciphertext =
    if ltb (length ciphertext) a.nonce_size
    then err bad_ciphertext
    else or_err bad_ciphertext
        (a.open_sealed (take a.nonce_size ciphertext) (drop a.nonce_size ciphertext))

abbrev pub envelope_keeper : Str → Aead → Keeper
envelope_keeper nonce a = record { wrap = wrap a nonce; unwrap = unwrap a }

abbrev pub keeper_with : Str → Option Aead → Result Problem Keeper
keeper_with nonce none = err bad_master_key
keeper_with nonce (some a) = ok (envelope_keeper nonce a)

-- `NewEnvelopeKeeper`, over `aes.NewCipher` with `cipher.NewGCM`; the nonce is that of a later `Wrap`.
unfoldable pub new_envelope_keeper : (Str → Option Aead) → Str → Str → Result Problem Keeper
new_envelope_keeper cipher nonce key =
    if length key == 32 then keeper_with nonce (cipher key) else err bad_master_key

pub record KeyPair : Type 0 where
  pub selector : Str
  pub algorithm : Str
  pub wrapped_secret : Str
  pub public_record : Str

abbrev pub ed25519_name : Str
ed25519_name = codes "ed25519"

abbrev pub rsa_name : Str
rsa_name = codes "rsa"

-- `Generate`, from the public and the private key that `ed25519.GenerateKey` gave.
unfoldable pub generate : (Str → Str) → Keeper → Str → Option (Str × Str) → Result Problem KeyPair
generate encode64 keeper selector made = do
  (public, private) ← or_err no_key made
  wrapped ← keeper.wrap private
  ok (record {
    selector = selector;
    algorithm = ed25519_name;
    wrapped_secret = wrapped;
    public_record = codes "v=DKIM1; k=ed25519; p=" ++ encode64 public;
  })

-- `GenerateRSA`, from the encoded private key and the encoded public key.
unfoldable pub generate_rsa :
    (Str → Str) → Keeper → Str → Option Str → Option Str → Result Problem KeyPair
generate_rsa encode64 keeper selector private_der public_der = do
  private ← or_err no_key private_der
  wrapped ← keeper.wrap private
  public ← or_err no_key public_der
  ok (record {
    selector = selector;
    algorithm = rsa_name;
    wrapped_secret = wrapped;
    public_record = codes "v=DKIM1; k=rsa; p=" ++ encode64 public;
  })

-- What a `crypto.Signer` of this package is made of.
pub data KeySigner : Type 0 where
  ed25519_signer rsa_signer : Str → KeySigner

abbrev pub private_key_size : ℕ
private_key_size = 64

-- The switch of `unwrapSigner`; the argument tells the signer of a private key in PKCS 8.
unfoldable pub signer_of : (Str → Option Str) → Str → Str → Result Problem KeySigner
signer_of parse_private algorithm material =
    if str_eq algorithm ed25519_name
    then (if length material == private_key_size
        then ok (ed25519_signer material)
        else err bad_ciphertext)
    else if str_eq algorithm rsa_name
    then (or_err bad_ciphertext (parse_private material) >>= λ k. ok (rsa_signer k))
    else err (unknown_algorithm algorithm)

-- `unwrapSigner`
unfoldable pub unwrap_signer : (Str → Option Str) → Keeper → Str → Str → Result Problem KeySigner
unwrap_signer parse_private keeper algorithm wrapped = do
  material ← keeper.unwrap wrapped
  signer_of parse_private algorithm material

-- `DNSRecordName`
unfoldable pub dns_record_name : Str → Str → Str
dns_record_name selector domain = selector ++ (codes "._domainkey." ++ domain)

abbrev pub signature_lifetime : ℕ
signature_lifetime = 30 * (60 * 1000000000)

abbrev pub oversigned_headers : List Str
oversigned_headers =
    codes "From"
    ∷ codes "To"
    ∷ codes "Cc"
    ∷ codes "Bcc"
    ∷ codes "Subject"
    ∷ codes "Date"
    ∷ codes "Message-ID"
    ∷ codes "Reply-To"
    ∷ codes "Content-Type"
    ∷ codes "Content-Transfer-Encoding"
    ∷ codes "MIME-Version"
    ∷ codes "Sender"
    ∷ codes "List-Unsubscribe"
    ∷ codes "List-Unsubscribe-Post"
    ∷ []

pub record Key : Type 0 where
  pub domain : Str
  pub selector : Str
  pub algorithm : Str
  pub wrapped : Str

-- The options of the library that `Sign` sets; `is_relaxed` is both canonicalizations.
pub record SignOptions : Type 0 where
  pub domain : Str
  pub selector : Str
  pub signer : KeySigner
  pub header_keys : List Str
  pub expiration : ℕ
  pub is_relaxed : Bool

abbrev pub options_of : Key → KeySigner → ℕ → SignOptions
options_of key signer now = record {
  domain = key.domain;
  selector = key.selector;
  signer = signer;
  header_keys = oversigned_headers;
  expiration = now + signature_lifetime;
  is_relaxed = str_eq key.algorithm ed25519_name || str_eq key.algorithm rsa_name;
}

abbrev pub before_break : Str → Option ℕ → Str
before_break signed none = signed
before_break signed (some i) = take i signed

unfoldable pub header_of : Str → Str
header_of signed = before_break signed (index signed (codes "\r\n\r\n"))

-- `strings.Split(s, "\r\n")`
unfoldable pub lines : Str → List Str
lines [] = [] ∷ []
lines (c ∷ []) = (c ∷ []) ∷ []
lines (c ∷ d ∷ s) = elim (c == b'\r' && d == b'\n') [
  | true ↦ [] ∷ lines s
  | false ↦ first_field c (lines (d ∷ s))
]

unfoldable pub is_signature : Unicode → Str → Bool
is_signature u field = has_prefix (to_lower u field) (codes "dkim-signature:")

unfoldable pub is_length_tag : Str → Bool
is_length_tag tag = has_prefix (trim_space tag) (codes "l=")

unfoldable pub is_limited : Unicode → Str → Bool
is_limited u field = is_signature u field && any is_length_tag (split b';' field)

-- `assertNoBodyLengthTag`
unfoldable pub assert_no_body_length_tag : Unicode → Str → Result Problem (Unit {0})
assert_no_body_length_tag u signed =
    if any (is_limited u) (lines (header_of signed)) then err body_length_tag else ok tt

abbrev pub something : Str → Result Problem (Unit {0})
something [] = err nothing_to_sign
something (c ∷ message) = ok tt

-- `Signer.Sign` at a time; `library` is `dkim.Sign` of go-msgauth.
unfoldable pub sign :
    Unicode
    → (Str → Option Str)
    → (SignOptions → Str → Option Str)
    → Keeper
    → Key
    → Str
    → ℕ
    → Result Problem Str
sign u parse_private library keeper key message now = do
  something message
  signer ← unwrap_signer parse_private keeper key.algorithm key.wrapped
  signed ← or_err unsigned (library (options_of key signer now) message)
  assert_no_body_length_tag u signed
  ok signed
