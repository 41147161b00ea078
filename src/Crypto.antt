-- ===== src/Crypto.antt =====
-- internal/crypto/envelope.go: values encrypted for the database. The cipher, AES-256 in Galois/counter
-- mode, is a parameter with its nonce size; the nonce's random bytes are an argument.
pub mod Kept
pub mod Tests
use ai_email.Base.{
  ℕ, ◌==◌, Option, none, some, List, [], ◌∷◌, ◌++◌, Str, Result, ok, err, ltb, if◌then◌else◌,
  length, take, drop,
}
use ai_email.Store.{Keeper}

pub data Problem : Type 0 where
  no_plaintext bad_ciphertext bad_master_key : Problem

-- `cipher.AEAD`: the nonce size, `Seal` and `Open` by nonce, without additional data.
pub record Aead : Type 0 where
  pub nonce_size : ℕ
  pub seal : Str → Str → Str
  pub open_sealed : Str → Str → Option Str

-- `NewEnvelope`, with `aes.NewCipher` and `cipher.NewGCM` for a key of 32 bytes.
unfoldable pub new_envelope : (Str → Option Aead) → Str → Result Problem Aead
new_envelope cipher key = if length key == 32 then made (cipher key) else err bad_master_key
  where
    made : Option Aead → Result Problem Aead
    made none = err bad_master_key
    made (some a) = ok a

-- `Envelope.Wrap`
unfoldable pub wrap : Aead → Str → Str → Result Problem Str
wrap a nonce [] = err no_plaintext
wrap a nonce (c ∷ plaintext) = ok (nonce ++ a.seal nonce (c ∷ plaintext))

unfoldable pub of_opened : Option Str → Result Problem Str
of_opened none = err bad_ciphertext
of_opened (some plaintext) = ok plaintext

-- `Envelope.Unwrap`
unfoldable pub unwrap : Aead → Str → Result Problem Str
unwrap a ciphertext =
    if ltb (length ciphertext) a.nonce_size
    then err bad_ciphertext
    else of_opened (a.open_sealed (take a.nonce_size ciphertext) (drop a.nonce_size ciphertext))

abbrev pub to_option : {A : Type 0} → Result Problem A → Option A
to_option (err _) = none
to_option (ok a) = some a

abbrev pub then_decode : (Str → Option (List Str)) → Result Problem Str → Option (List Str)
then_decode decode (err _) = none
then_decode decode (ok payload) = decode payload

-- The keeper that `attachKeeper` gives the store, with the JSON of lists; the nonce is that of one
-- call of `Wrap`.
unfoldable pub keeper_of : Aead → (List Str → Str) → (Str → Option (List Str)) → Str → Keeper
keeper_of a encode decode nonce = record {
  seal = λ list. to_option (wrap a nonce (encode list));
  unseal = λ s. then_decode decode (unwrap a s);
}
