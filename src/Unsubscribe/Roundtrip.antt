-- ===== src/Unsubscribe/Roundtrip.antt =====
-- `Verify` of internal/unsubscribe/token.go reads what `Sign` wrote.
use ai_email.Base.{
  ℕ, ◌+◌, ◌-◌, ◌*◌, ◌/◌, ◌^◌, ◌≤◌, ◌≡◌, refl, ap, ◌∙◌, false, ◌==◌, some, [], ◌∷◌, ◌++◌, any, All,
  Str, str_eq, str_eq_refl, ok, err, ltb, Unicode, to_lower, trim_space, itoa, itoa-digits, taken,
  parse_int-itoa, arith, split,
}
use ai_email.Base.{Lacks, cut-append, split-append, split-lacking}
use ai_email.Unsubscribe.{
  Codec, bad_signature, second, lifetime, payload_of, sign, unexpired, of_parts, checked, verify,
}

digits-Lacks : (s : Str) → All (λ c. (48 ≤ c) × (c ≤ 57)) s → Lacks 0 s
digits-Lacks [] h = refl
digits-Lacks (c ∷ s) ((low, high), h) =
    let other : (c == 0) ≡ false = ground arith in rw (other, any) (digits-Lacks s h)

split-payload_of :
    (u : Unicode) (id address : Str) (expiry : ℕ)
    → Lacks 0 id
    → Lacks 0 (to_lower u (trim_space address))
    → split 0 (payload_of u id address expiry)
      ≡ id ∷ to_lower u (trim_space address) ∷ itoa expiry ∷ []
unfolding payload_of
split-payload_of u id address expiry h k =
    split-append 0 id _ h refl
    ∙ ap (λ t. id ∷ t)
        (split-append 0 (to_lower u (trim_space address)) _ k refl
          ∙ ap (λ t. to_lower u (trim_space address) ∷ t)
              (split-lacking 0 (itoa expiry) (digits-Lacks (itoa expiry) (itoa-digits expiry))))

of_parts-itoa :
    (later : ℕ) (id address : Str) (expiry : ℕ)
    → expiry ≤ 2 ^ 63 - 1
    → later ≤ expiry * second
    → of_parts later (id ∷ address ∷ itoa expiry ∷ [])
      ≡ ok (record { message_id = id; address = address; expires_at = expiry })
unfolding of_parts unexpired
of_parts-itoa later id address expiry few live =
    let past : ltb (expiry * second) later ≡ false = ground arith in
    ap (unexpired later id address) (parse_int-itoa expiry few) ∙ rw past refl

verify-parts :
    (c : Codec) (secret p q payload sig : Str) (now : ℕ)
    → Lacks b'.' p
    → c.decode64 p ≡ some payload
    → c.decode64 q ≡ some sig
    → verify c secret (p ++ (b'.' ∷ q)) now ≡ checked c secret now payload sig
unfolding verify
verify-parts c secret p q payload sig now h k l = rw (cut-append b'.' p q h refl) (rw k (rw l refl))

-- With a base64 that decodes what it encoded and writes no dot: a token that `Sign` made, for a
-- message id and an address without zero bytes, is accepted until its expiry, if that fits an int64,
-- with the message id, the address trimmed and lowered, and the expiry that it was made with.
pub verify-sign :
    (u : Unicode) (c : Codec) (secret id address : Str) (now later : ℕ)
    → ((s : Str) → c.decode64 (c.encode64 s) ≡ some s)
    → ((s : Str) → Lacks b'.' (c.encode64 s))
    → Lacks 0 id
    → Lacks 0 (to_lower u (trim_space address))
    → (now + lifetime) / second ≤ 2 ^ 63 - 1
    → later ≤ (now + lifetime) / second * second
    → verify c secret (sign u c secret id address now) later
      ≡ ok (record {
        message_id = id;
        address = to_lower u (trim_space address);
        expires_at = (now + lifetime) / second;
      })
unfolding sign checked
verify-sign u c secret id address now later decodes no_dot h k few live =
    let expiry = (now + lifetime) / second in
    let payload = payload_of u id address expiry in
    verify-parts c secret (c.encode64 payload) (c.encode64 (c.hmac secret payload)) payload
      (c.hmac secret payload) later (no_dot payload) (decodes payload)
      (decodes (c.hmac secret payload))
    ∙ taken (str_eq (c.hmac secret payload) (c.hmac secret payload))
        (of_parts later (split 0 payload)) (err bad_signature) (str_eq_refl (c.hmac secret payload))
    ∙ ap (of_parts later) (split-payload_of u id address expiry h k)
    ∙ of_parts-itoa later id (to_lower u (trim_space address)) expiry few live
