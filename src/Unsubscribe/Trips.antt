-- ===== src/Unsubscribe/Trips.antt =====
-- What a token that `Verify` of internal/unsubscribe/token.go accepts is.
use ai_email.Base.{
  ℕ, ◌*◌, ◌≤◌, ◌≡◌, refl, ap, ap₂, sym, join, ◌∙◌, subst, inl, inr, ◌==◌, Option, none, some, List,
  [], ◌∷◌, ◌++◌, Str, str_eq, str_eq_sound, ok, ok-inj, err-ne-ok, >>=-eq-ok, ltb, ==_iff,
  Bool-cases, arith, ℤ, pos, negsuc, cut, first_field, split, parse_int,
}
use ai_email.Unsubscribe.{Codec, Token, second, unexpired, of_parts, checked, verify, or_malformed}

or_malformed-ok : {A : Type 0} (o : Option A) (a : A) → or_malformed o ≡ ok a → o ≡ some a
or_malformed-ok none a h = absurd (err-ne-ok h)
or_malformed-ok (some b) a h = ap some (ok-inj h)

unexpired-ok :
    (now : ℕ) (id address : Str) (n : Option ℤ) (t : Token)
    → unexpired now id address n ≡ ok t
    → (t.message_id ≡ id)
      × (t.address ≡ address)
      × (n ≡ some (pos t.expires_at))
      × (now ≤ t.expires_at * second)
unfolding unexpired
unexpired-ok now id address none t h = absurd (err-ne-ok h)
unexpired-ok now id address (some (pos n)) t h = elim (Bool-cases (ltb (n * second) now)) [
  | inl e ↦ absurd (err-ne-ok (rw e at h))
  | inr e ↦
      let same = ok-inj (rw e at h) in
      let expiry = ap (λ (x : Token). x.expires_at) same in
      let later : now ≤ n * second = ground arith in
      (
        sym (ap (λ (x : Token). x.message_id) same),
        sym (ap (λ (x : Token). x.address) same),
        ap (λ k. some (pos k)) expiry,
        subst (λ k. now ≤ k * second) expiry later,
      )
]
unexpired-ok now id address (some (negsuc n)) t h = absurd (err-ne-ok h)

of_parts-ok :
    (now : ℕ) (parts : List Str) (t : Token)
    → of_parts now parts ≡ ok t
    → (expiry : Str) × (parts ≡ t.message_id ∷ t.address ∷ expiry ∷ [])
      × (parse_int expiry ≡ some (pos t.expires_at))
      × (now ≤ t.expires_at * second)
unfolding of_parts
of_parts-ok now [] t h = absurd (err-ne-ok h)
of_parts-ok now (a ∷ []) t h = absurd (err-ne-ok h)
of_parts-ok now (a ∷ b ∷ []) t h = absurd (err-ne-ok h)
of_parts-ok now (a ∷ b ∷ c ∷ d ∷ rest) t h = absurd (err-ne-ok h)
of_parts-ok now (a ∷ b ∷ c ∷ []) t h =
    let (i, ad, number, live) = unexpired-ok now a b (parse_int c) t h in
    (c, ap₂ (λ x y. x ∷ y ∷ c ∷ []) (sym i) (sym ad), number, live)

first_field-join :
    (b c : ℕ) (fields : List Str) → join (b ∷ []) (first_field c fields) ≡ c ∷ join (b ∷ []) fields
unfolding first_field join
first_field-join b c [] = refl
first_field-join b c (f ∷ []) = refl
first_field-join b c (f ∷ g ∷ fields) = refl

split-cons : (b : ℕ) (s : Str) → (f : Str) × (fields : List Str) × (split b s ≡ f ∷ fields)
unfolding split first_field
split-cons b [] = ([], [], refl)
split-cons b (c ∷ s) = elim (Bool-cases (c == b)) [
  | inl e ↦ ([], split b s, rw e refl)
  | inr e ↦ let (f, fields, k) = split-cons b s in (c ∷ f, fields, rw e (ap (first_field c) k))
]

join-nil_first :
    (b : ℕ) (fields : List Str) (f : Str) (rest : List Str)
    → fields ≡ f ∷ rest
    → join (b ∷ []) ([] ∷ fields) ≡ b ∷ join (b ∷ []) fields
unfolding join
join-nil_first b fields f rest h = rw (h, join) refl

join-split : (b : ℕ) (s : Str) → join (b ∷ []) (split b s) ≡ s
unfolding split join
join-split b [] = refl
join-split b (c ∷ s) = elim (Bool-cases (c == b)) [
  | inl e ↦
      let (f, rest, k) = split-cons b s in
      rw (e, join)
        (join-nil_first b (split b s) f rest k
          ∙ ap₂ (λ x t. x ∷ t) (sym ((==_iff c b).0 e)) (join-split b s))
  | inr e ↦ rw (e, join) (first_field-join b c (split b s) ∙ ap (λ t. c ∷ t) (join-split b s))
]

checked-ok :
    (c : Codec) (secret : Str) (now : ℕ) (payload sig : Str) (t : Token)
    → checked c secret now payload sig ≡ ok t
    → (expiry : Str) × (sig ≡ c.hmac secret payload)
      × (payload ≡ t.message_id ++ (0 ∷ (t.address ++ (0 ∷ expiry))))
      × (parse_int expiry ≡ some (pos t.expires_at))
      × (now ≤ t.expires_at * second)
unfolding checked join
checked-ok c secret now payload sig t h = elim (Bool-cases (str_eq (c.hmac secret payload) sig)) [
  | inr e ↦ absurd (err-ne-ok (rw e at h))
  | inl e ↦
      let (expiry, parts, number, live) = of_parts-ok now (split 0 payload) t (rw e at h) in
      (
        expiry,
        sym (str_eq_sound _ sig e),
        sym (join-split 0 payload) ∙ ap (join (0 ∷ [])) parts,
        number,
        live,
      )
]

-- A token that is accepted is two base64 texts around a dot: a payload, and the authentication code
-- of this very payload under the secret. The payload is the token's message id, its address and a
-- number, with zero bytes between them; the number is the token's expiry in seconds, which has not
-- passed.
pub verify_sound :
    (c : Codec) (secret token : Str) (now : ℕ) (t : Token)
    → verify c secret token now ≡ ok t
    → (p q payload expiry : Str) × (cut b'.' token ≡ some (p, q))
      × (c.decode64 p ≡ some payload)
      × (c.decode64 q ≡ some (c.hmac secret payload))
      × (payload ≡ t.message_id ++ (0 ∷ (t.address ++ (0 ∷ expiry))))
      × (parse_int expiry ≡ some (pos t.expires_at))
      × (now ≤ t.expires_at * second)
unfolding verify
verify_sound c secret token now t h =
    let ((p, q), e1, h1) = >>=-eq-ok (or_malformed (cut b'.' token)) _ h in
    let (payload, e2, h2) = >>=-eq-ok (or_malformed (c.decode64 p)) _ h1 in
    let (sig, e3, h3) = >>=-eq-ok (or_malformed (c.decode64 q)) _ h2 in
    let (expiry, same, shape, number, live) = checked-ok c secret now payload sig t h3 in
    (
      p,
      q,
      payload,
      expiry,
      or_malformed-ok _ _ e1,
      or_malformed-ok _ _ e2,
      or_malformed-ok _ _ e3 ∙ ap some same,
      shape,
      number,
      live,
    )
