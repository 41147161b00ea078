-- ===== src/Dkim/Custody.antt =====
-- internal/dkim/custody.go: from a generated key pair to the key that signs.
use ai_email.Base.{
  ℕ, ◌≡◌, sym, ap, ap₂, ◌∙◌, subst, true, Option, some, ◌∷◌, [], ◌++◌, Str, ok, ◌>>=◌, str_eq,
  str_eq_refl, >>=-eq-ok, err-ne-ok, ok-inj, ltb, ◌==◌, arith, length, take, drop, take-append,
  drop-append, taken, not_taken,
}
use ai_email.Crypto.{Aead}
use ai_email.Crypto.Kept.{Opens, long_enough}
use ai_email.Dkim.{
  KeyPair, ed25519_signer, private_key_size, or_err, bad_ciphertext, wrap, unwrap, envelope_keeper,
  generate, signer_of, unwrap_signer, ed25519_name,
}

unwraps :
    (a : Aead) (nonce text : Str)
    → Opens a
    → length nonce ≡ a.nonce_size
    → unwrap a (nonce ++ a.seal nonce text) ≡ ok text
unfolding unwrap
unwraps a nonce text o n =
    let body = a.seal nonce text in
    not_taken (ltb (length (nonce ++ body)) a.nonce_size) _ _
      (long_enough nonce body a.nonce_size n)
    ∙ ap₂ (λ p q. or_err bad_ciphertext (a.open_sealed p q))
        (ap (λ k. take k (nonce ++ body)) (sym n) ∙ take-append nonce body)
        (ap (λ k. drop k (nonce ++ body)) (sym n) ∙ drop-append nonce body)
    ∙ ap (or_err bad_ciphertext) (o.opened nonce text n)

unwraps_wrapped :
    (a : Aead) (nonce text wrapped : Str)
    → Opens a
    → length nonce ≡ a.nonce_size
    → wrap a nonce text ≡ ok wrapped
    → unwrap a wrapped ≡ ok text
unfolding wrap
unwraps_wrapped a nonce [] wrapped o n h = absurd (err-ne-ok h)
unwraps_wrapped a nonce (c ∷ text) wrapped o n h =
    subst (λ t. unwrap a t ≡ ok (c ∷ text)) (ok-inj h) (unwraps a nonce (c ∷ text) o n)

equal_sizes : (k n : ℕ) → k ≡ n → (k == n) ≡ true
equal_sizes k n h = ground (arith, h)

signer_of-ed25519 :
    (parse : Str → Option Str) (private : Str)
    → length private ≡ private_key_size
    → signer_of parse ed25519_name private ≡ ok (ed25519_signer private)
unfolding signer_of
signer_of-ed25519 parse private h =
    taken (str_eq ed25519_name ed25519_name) _ _ (str_eq_refl ed25519_name)
    ∙ taken (length private == private_key_size) _ _
        (equal_sizes (length private) private_key_size h)

-- Over a cipher that opens what it sealed under a nonce of its size: a key pair that `Generate` made
-- from a private key of 64 bytes is unwrapped to that private key, whatever nonces the keeper uses
-- later.
pub unwrap_signer-generate :
    (encode64 : Str → Str) (parse : Str → Option Str) (a : Aead)
    (nonce later selector public private : Str) (pair : KeyPair)
    → Opens a
    → length nonce ≡ a.nonce_size
    → length private ≡ private_key_size
    → generate encode64 (envelope_keeper nonce a) selector (some (public, private)) ≡ ok pair
    → unwrap_signer parse (envelope_keeper later a) pair.algorithm pair.wrapped_secret
      ≡ ok (ed25519_signer private)
unfolding generate unwrap_signer
unwrap_signer-generate encode64 parse a nonce later selector public private pair o n size h =
    let (wrapped, w, made) = >>=-eq-ok (wrap a nonce private) _ h in
    ap (λ (p : KeyPair). unwrap_signer parse (envelope_keeper later a) p.algorithm p.wrapped_secret)
      (sym (ok-inj made))
    ∙ ap (λ r. r >>= signer_of parse ed25519_name) (unwraps_wrapped a nonce private wrapped o n w)
    ∙ signer_of-ed25519 parse private size
