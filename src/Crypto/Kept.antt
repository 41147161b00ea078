-- ===== src/Crypto/Kept.antt =====
-- What internal/crypto/envelope.go wraps and unwraps: values, and the recipients of a stored message.
use ai_email.Base.{
  ℕ, ◌<◌, ◌≡◌, ◌⊎◌, inl, inr, refl, sym, ap, ◌∙◌, Bool, true, false, Option, none, some, List, [],
  ◌∷◌, ◌++◌, Str, Result, ok, err, ltb, length, take, drop, Unicode, arith, any, some-inj,
  none-ne-some, length-append, not_taken, if◌then◌else◌, take-append, drop-append, ok-inj,
  err-ne-ok, ap₂, subst,
}
use ai_email.Store.{Keeper, MessageRow, Store, DbError, undecodable, answered}
use ai_email.Store.Keeps.{attempt_made}
use ai_email.Store.Messages.{
  NewMessage, Accepted, accepted_of, row_of, insert_row, insert_message, pack_recipients,
}
use ai_email.Store.Queue.{has_id, unpack_recipients}
use ai_email.Store.Suppressions.{Digest}
use ai_email.Crypto.{Aead, wrap, unwrap, of_opened, keeper_of, to_option, then_decode}

-- What is used of the cipher: it opens what it sealed under a nonce of its size.
pub record Opens (a : Aead) : Type 0 where
  pub opened :
      (nonce text : Str)
      → length nonce ≡ a.nonce_size
      → a.open_sealed nonce (a.seal nonce text) ≡ some text
  pub has_nonce : 0 < a.nonce_size

pub long_enough :
    (nonce body : Str) (size : ℕ) → length nonce ≡ size → ltb (length (nonce ++ body)) size ≡ false
long_enough nonce body size h = ground (arith, h, length-append nonce body)

unwraps :
    (a : Aead) (nonce text : Str)
    → Opens a
    → length nonce ≡ a.nonce_size
    → unwrap a (nonce ++ a.seal nonce text) ≡ ok text
unfolding unwrap of_opened
unwraps a nonce text o n =
    let body = a.seal nonce text in
    not_taken (ltb (length (nonce ++ body)) a.nonce_size) _ _
      (long_enough nonce body a.nonce_size n)
    ∙ ap₂ (λ p q. of_opened (a.open_sealed p q))
        (ap (λ k. take k (nonce ++ body)) (sym n) ∙ take-append nonce body)
        (ap (λ k. drop k (nonce ++ body)) (sym n) ∙ drop-append nonce body)
    ∙ ap of_opened (o.opened nonce text n)

-- `Unwrap` gives back every value that is not empty and that `Wrap` took, under whatever nonce.
pub unwrap-wrap :
    (a : Aead) (nonce text sealed : Str)
    → Opens a
    → length nonce ≡ a.nonce_size
    → wrap a nonce text ≡ ok sealed
    → unwrap a sealed ≡ ok text
unfolding wrap
unwrap-wrap a nonce [] sealed o n h = absurd (ground arith)
unwrap-wrap a nonce (c ∷ text) sealed o n h =
    subst (λ t. unwrap a t ≡ ok (c ∷ text)) (ok-inj h) (unwraps a nonce (c ∷ text) o n)

-- Where a payload was wrapped, the result is that of `Wrap`, and it is not empty.
sealed_made :
    (a : Aead) (nonce text sealed : Str)
    → to_option (wrap a nonce text) ≡ some sealed
    → wrap a nonce text ≡ ok sealed
unfolding wrap
sealed_made a nonce [] sealed h = absurd (none-ne-some h)
sealed_made a nonce (c ∷ text) sealed h = ap ok (some-inj h)

wrapped_cons :
    (a : Aead) (nonce text sealed : Str)
    → 0 < length nonce
    → wrap a nonce text ≡ ok sealed
    → (d : ℕ) × (rest : Str) × (sealed ≡ d ∷ rest)
unfolding wrap
wrapped_cons a [] text sealed n h = absurd (omega arith)
wrapped_cons a (d ∷ nonce) [] sealed n h = absurd (err-ne-ok h)
wrapped_cons a (d ∷ nonce) (c ∷ text) sealed n h =
    (d, nonce ++ a.seal (d ∷ nonce) (c ∷ text), sym (ok-inj h))

unpack_recipients-cons :
    (k : Keeper) (sealed : Str) (clear : List Str) (d : ℕ) (rest : Str)
    → sealed ≡ d ∷ rest
    → unpack_recipients (some k) sealed clear ≡ k.unseal sealed
unfolding unpack_recipients
unpack_recipients-cons k sealed clear d rest e =
    ap (λ t. unpack_recipients (some k) t clear) e ∙ ap k.unseal (sym e)

unsealed :
    (a : Aead) (encode : List Str → Str) (decode : Str → Option (List Str)) (nonce sealed : Str)
    (list : List Str)
    → Opens a
    → length nonce ≡ a.nonce_size
    → decode (encode list) ≡ some list
    → wrap a nonce (encode list) ≡ ok sealed
    → (clear : List Str)
    → unpack_recipients (some (keeper_of a encode decode nonce)) sealed clear ≡ some list
unfolding keeper_of
unsealed a encode decode nonce sealed list o n j h clear =
    let (d, rest, e) =
      wrapped_cons a nonce (encode list) sealed (subst (λ k. 0 < k) (sym n) o.has_nonce) h in
    unpack_recipients-cons (keeper_of a encode decode nonce) sealed clear d rest e
    ∙ ap (then_decode decode) (unwrap-wrap a nonce (encode list) sealed o n h)
    ∙ j

-- The keeper of a store: none, or the envelope with a cipher that opens what it sealed.
abbrev pub IsEnvelope : (List Str → Str) → (Str → Option (List Str)) → Option Keeper → Type 0
IsEnvelope encode decode keeper =
    (keeper ≡ none)
    ⊎ ((a : Aead) × (nonce : Str) × Opens a
        × (length nonce ≡ a.nonce_size)
        × (keeper ≡ some (keeper_of a encode decode nonce)))

abbrev Packed : Type 0
Packed = Str × List Str × List Str

packed_with :
    (o : Option Str) (hashes : List Str) (p : Packed)
    → ◌≡◌ {A = Option Packed}
        (elim o [ none ↦ none | some sealed ↦ some (sealed, hashes, []) ])
        (some p)
    → o ≡ some p.0
packed_with none hashes p h = absurd (none-ne-some h)
packed_with (some sealed) hashes p h = ap some (ap (λ q. q.0) (some-inj h))

packed_back :
    (u : Unicode) (sha256 : Digest) (encode : List Str → Str) (decode : Str → Option (List Str))
    (keeper : Option Keeper) (list : List Str) (p : Packed)
    → IsEnvelope encode decode keeper
    → decode (encode list) ≡ some list
    → pack_recipients u sha256 keeper list ≡ some p
    → unpack_recipients keeper p.0 p.2 ≡ some list
unfolding pack_recipients unpack_recipients keeper_of
packed_back u sha256 encode decode keeper list p (inl none_set) j h =
    let q = subst (λ k. pack_recipients u sha256 k list ≡ some p) none_set h in
    ap (λ k. unpack_recipients k p.0 p.2) none_set
    ∙ ap (λ (r : Packed). unpack_recipients none r.0 r.2) (sym (some-inj q))
packed_back u sha256 encode decode keeper list p (inr (a, nonce, o, n, e)) j h =
    let q = subst (λ k. pack_recipients u sha256 k list ≡ some p) e h in
    ap (λ k. unpack_recipients k p.0 p.2) e
    ∙ unsealed a encode decode nonce p.0 list o n j
        (sealed_made a nonce (encode list) p.0 (packed_with _ _ p q)) p.2

-- A row that was inserted for a message, under its id and with recipients that can be read back.
pub record IsKept (m : NewMessage) (s t : Store) : Type 0 where
  pub row : MessageRow
  pub added : t.messages ≡ s.messages ++ (row ∷ [])
  pub same_id : row.id ≡ m.id
  pub read_back :
      unpack_recipients s.keeper row.recipients_encrypted row.recipients ≡ some m.recipients

row_added :
    (m : NewMessage) (p : Packed) (taken_id : Bool) (s t : Store) (a : Accepted)
    → ◌≡◌ {A = Option (Accepted × Store)}
        (if taken_id
          then none
          else some (
            accepted_of (row_of m p s.now),
            record s { messages = s.messages ++ (row_of m p s.now ∷ []) },
          ))
        (some (a, t))
    → t.messages ≡ s.messages ++ (row_of m p s.now ∷ [])
row_added m p true s t a h = absurd (none-ne-some h)
row_added m p false s t a h = sym (ap (λ q. q.1.messages) (some-inj h))

insert_row_made :
    (m : NewMessage) (p : Packed) (s t : Store) (a : Accepted)
    → insert_row m p s ≡ (ok a, t)
    → t.messages ≡ s.messages ++ (row_of m p s.now ∷ [])
unfolding insert_row
insert_row_made m p s t a h =
    row_added m p (any (has_id m.id) s.messages) (answered s) t a (attempt_made _ s t a h)

inserted :
    (m : NewMessage) (s t : Store) (a : Accepted) (o : Option Packed)
    → ((p : Packed) → o ≡ some p → unpack_recipients s.keeper p.0 p.2 ≡ some m.recipients)
    → ◌≡◌ {A = Result DbError Accepted × Store}
        (elim o [ none ↦ (err undecodable, s) | some packed ↦ insert_row m packed s ])
        (ok a, t)
    → IsKept m s t
inserted m s t a none back h = absurd (err-ne-ok (ap (λ p. p.0) h))
inserted m s t a (some p) back h = record {
  row = row_of m p s.now;
  added = insert_row_made m p s t a h;
  same_id = refl;
  read_back = back p refl;
}

-- A message that `insertMessage` stores gets a row with its id whose recipients `unpackRecipients`
-- gives back, in whichever form the row holds them: without a keeper, or with the envelope over a
-- cipher that opens what it sealed, if the JSON of the recipients is read back.
pub insert_message_kept :
    (u : Unicode) (sha256 : Digest) (encode : List Str → Str) (decode : Str → Option (List Str))
    (m : NewMessage) (s t : Store) (a : Accepted)
    → IsEnvelope encode decode s.keeper
    → decode (encode m.recipients) ≡ some m.recipients
    → insert_message u sha256 m s ≡ (ok a, t)
    → IsKept m s t
unfolding insert_message
insert_message_kept u sha256 encode decode m s t a k j h =
    inserted m s t a (pack_recipients u sha256 s.keeper m.recipients)
      (λ p e. packed_back u sha256 encode decode s.keeper m.recipients p k j e) h
