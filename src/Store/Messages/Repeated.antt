-- ===== src/Store/Messages/Repeated.antt =====
-- Requests whose idempotency key has a record, and transactions, in internal/store/messages.go.
use ai_email.Base.{
  ℕ, ◌≡◌, refl, ap, ap₂, ◌∙◌, true, false, inl, inr, List, [], ◌∷◌, any, Option, none, some, Result,
  ok, err, Bool-cases, if◌then◌else◌, Str, str_eq, Unicode,
}
use ai_email.Store.{MessageRow, IdempotencyRow, Store, DbError, idempotency_mismatch, Db, continue}
use ai_email.Store.Keeps.{Up, exec-Up, query-Up, and_then_goes, and_then_stops}
use ai_email.Store.Suppressions.{Digest}
use ai_email.Store.Messages.{
  NewMessage, Accepted, accepted_of, is_record, reserve_key, message_with, record_with, joined,
  earlier, load_record, claim_idempotency, when_keyed, accept_steps, round_trip, transaction,
  enqueue_message,
}

-- A record of a key, with its message.
pub record Known (m : NewMessage) (s : Store) (request_hash : Str) (row : MessageRow) : Type 0 where
  pub kept : IdempotencyRow
  pub its_record : record_with m.api_key_id m.idempotency_key s.idempotency ≡ some kept
  pub its_hash : kept.request_hash ≡ request_hash
  pub message_id : Str
  pub its_message : kept.message_id ≡ some message_id
  pub its_row : message_with message_id s.messages ≡ some row

record_with-any :
    (key_id : ℕ) (key : Str) (rows : List IdempotencyRow) (r : IdempotencyRow)
    → record_with key_id key rows ≡ some r
    → any (is_record key_id key) rows ≡ true
unfolding record_with
record_with-any key_id key [] r h = cc
record_with-any key_id key (q ∷ rows) r h = elim (Bool-cases (is_record key_id key q)) [
  | inl e ↦ rw (e, any) refl
  | inr e ↦ rw (e, any) (record_with-any key_id key rows r (rw (e, record_with) at h))
]

pub transaction_commits :
    {A : Type 0} (m : Db A) (s t : Store) (a : A)
    → Up s
    → m s ≡ (ok a, t)
    → Up t
    → transaction m s ≡ (ok a, t)
unfolding transaction
transaction_commits {A} m s t a up h up' =
    ap
      (λ (p : Result DbError A × Store).
        continue p.0 (λ a t. (ok a, t)) (λ e t. (err e, record s { outage = t.outage })) p.1)
      (and_then_goes round_trip _ s (exec-Up _ s up)
        ∙ and_then_goes m _ s h
        ∙ and_then_goes round_trip _ t (exec-Up _ t up'))

transaction_rolls_back :
    {A : Type 0} (m : Db A) (s t : Store) (e : DbError)
    → Up s
    → m s ≡ (err e, t)
    → t.outage ≡ s.outage
    → transaction m s ≡ (err e, s)
unfolding transaction
transaction_rolls_back {A} m s t e up h same =
    ap
      (λ (p : Result DbError A × Store).
        continue p.0 (λ a t. (ok a, t)) (λ e t. (err e, record s { outage = t.outage })) p.1)
      (and_then_goes round_trip _ s (exec-Up _ s up) ∙ and_then_stops m _ s h)
    ∙ ap (λ o. (err e, record s { outage = o })) same

reserve_taken :
    (m : NewMessage) (s : Store)
    → Up s
    → any (is_record m.api_key_id m.idempotency_key) s.idempotency ≡ true
    → reserve_key m s ≡ (ok false, s)
unfolding reserve_key
reserve_taken m s up h = query-Up _ s up ∙ rw (h, any) refl

joined_known :
    (rows : List MessageRow) (id : Option Str) (i : Str) (row : MessageRow)
    → id ≡ some i
    → message_with i rows ≡ some row
    → joined rows id ≡ some (accepted_of row)
unfolding joined
joined_known rows id i row h k = rw h (rw (k, joined) refl)

load-Known :
    (m : NewMessage) (s : Store) (request_hash : Str) (row : MessageRow)
    → Up s
    → Known m s request_hash row
    → load_record m s ≡ (ok (some (request_hash, some (accepted_of row))), s)
unfolding load_record
load-Known m s request_hash row up k =
    query-Up _ s up
    ∙ rw k.its_record (
        ap₂ (λ h a. (ok (some (h, a)), s)) k.its_hash
          (joined_known s.messages k.kept.message_id k.message_id row k.its_message k.its_row))

claim-Known :
    (m : NewMessage) (s : Store) (request_hash : Str) (row : MessageRow)
    → Up s
    → Known m s request_hash row
    → claim_idempotency m s ≡ (
      (if str_eq request_hash m.request_hash
          then ok (some (accepted_of row))
          else err idempotency_mismatch),
      s,
    )
unfolding claim_idempotency earlier
claim-Known m s request_hash row up k =
    and_then_goes (reserve_key m) _ s (
      reserve_taken m s up
        (record_with-any m.api_key_id m.idempotency_key s.idempotency k.kept k.its_record))
    ∙ and_then_goes (load_record m) _ s (load-Known m s request_hash row up k)
    ∙ elim (Bool-cases (str_eq request_hash m.request_hash)) [
      | inl e ↦ rw e refl
      | inr e ↦ rw e refl
    ]

pub keyed :
    {A : Type 0} (k : Str) (c : ℕ) (key : Str) (a : A) (act : Db A)
    → k ≡ c ∷ key
    → when_keyed k a act ≡ act
keyed k c key a act h = ap (λ k. when_keyed k a act) h

-- A request whose key has a record with a message, while the database is up: the earlier message is
-- returned if the request is the same, an error if it is another one, and no table changes.
pub enqueue-Known :
    (u : Unicode) (sha256 : Digest) (m : NewMessage) (s : Store) (c : ℕ) (key request_hash : Str)
    (row : MessageRow)
    → s.outage ≡ []
    → m.idempotency_key ≡ c ∷ key
    → Known m s request_hash row
    → enqueue_message u sha256 m s ≡ (
      (if str_eq request_hash m.request_hash
          then ok (accepted_of row, true)
          else err idempotency_mismatch),
      s,
    )
unfolding enqueue_message accept_steps
enqueue-Known u sha256 m s c key request_hash row up has_key k =
    let claimed =
      ap (λ (act : Db (Option Accepted)). act s)
        (keyed m.idempotency_key c key none (claim_idempotency m) has_key)
      ∙ claim-Known m s request_hash row up k in
    elim (Bool-cases (str_eq request_hash m.request_hash)) [
      | inl e ↦ rw e (transaction_commits _ s s _ up (and_then_goes _ _ s (rw e at claimed)) up)
      | inr e ↦
          rw e (transaction_rolls_back _ s s _ up (and_then_stops _ _ s (rw e at claimed)) refl)
    ]
