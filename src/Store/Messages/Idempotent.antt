-- ===== src/Store/Messages/Idempotent.antt =====
-- One acceptance for one idempotency key, in internal/store/messages.go.
use ai_email.Base.{
  ℕ, ◌≡◌, refl, ap, ap₂, sym, ◌∙◌, subst, Bool, true, false, ◌&&◌, ◌==◌, ==_refl, inl, inr, List,
  [], ◌∷◌, ◌++◌, any, Option, none, some, Result, ok, err, Bool-cases, clash, if◌then◌else◌, Str,
  str_eq, str_eq_refl, Unicode,
}
use ai_email.Store.{
  MessageRow, IdempotencyRow, Store, DbError, undecodable, idempotency_mismatch, Db, update_where,
}
use ai_email.Store.Keeps.{Up, exec-Up, query-Up, attempt-Up, and_then_goes}
use ai_email.Store.Queue.{has_id}
use ai_email.Store.Suppressions.{Digest}
use ai_email.Store.Messages.{
  NewMessage, Accepted, accepted_of, pack_recipients, row_of, insert_row, insert_message, is_record,
  reserved_row, reserve_key, message_with, record_with, claim_idempotency, link_record,
  accept_steps, enqueue_message,
}
use ai_email.Store.Messages.Repeated.{Known, transaction_commits, keyed, enqueue-Known}

message_with-last :
    (id : Str) (rows : List MessageRow) (r : MessageRow)
    → any (has_id id) rows ≡ false
    → has_id id r ≡ true
    → message_with id (rows ++ (r ∷ [])) ≡ some r
unfolding message_with
message_with-last id [] r h k = rw k refl
message_with-last id (q ∷ rows) r h k = elim (Bool-cases (has_id id q)) [
  | inl e ↦ absurd (clash (rw (e, any) refl) h)
  | inr e ↦ rw (e, message_with) (message_with-last id rows r (rw (e, any) at h) k)
]

record_with-last :
    (key_id : ℕ) (key : Str) (f : IdempotencyRow → IdempotencyRow) (rows : List IdempotencyRow)
    (r : IdempotencyRow)
    → any (is_record key_id key) rows ≡ false
    → is_record key_id key r ≡ true
    → is_record key_id key (f r) ≡ true
    → record_with key_id key (update_where (is_record key_id key) f (rows ++ (r ∷ []))) ≡ some (f r)
unfolding record_with update_where
record_with-last key_id key f [] r h k l = rw (k, record_with) (rw (l, record_with) refl)
record_with-last key_id key f (q ∷ rows) r h k l = elim (Bool-cases (is_record key_id key q)) [
  | inl e ↦ absurd (clash (rw (e, any) refl) h)
  | inr e ↦
      rw (e, record_with, update_where)
        (rw (e, record_with) (record_with-last key_id key f rows r (rw (e, any) at h) k l))
]

-- A request whose key is not reserved yet and whose message has a new id.
record New (m : NewMessage) (s : Store) : Type 0 where
  pub up : s.outage ≡ []
  pub no_record : any (is_record m.api_key_id m.idempotency_key) s.idempotency ≡ false
  pub no_message : any (has_id m.id) s.messages ≡ false

abbrev reserved : NewMessage → Store → Store
reserved m s = record s { idempotency = s.idempotency ++ (reserved_row m s.now ∷ []) }

abbrev inserted : NewMessage → Str × List Str × List Str → Store → Store
inserted m packed s = record s { messages = s.messages ++ (row_of m packed s.now ∷ []) }

abbrev linked : NewMessage → Store → Store
linked m s = record s {
  idempotency =
      update_where (is_record m.api_key_id m.idempotency_key)
        (λ (r : IdempotencyRow). record r { message_id = some m.id }) s.idempotency;
}

claim_fresh :
    (m : NewMessage) (s : Store)
    → Up s
    → any (is_record m.api_key_id m.idempotency_key) s.idempotency ≡ false
    → claim_idempotency m s ≡ (ok none, reserved m s)
unfolding claim_idempotency reserve_key
claim_fresh m s up h =
    and_then_goes (reserve_key m) _ s {a = true} {t = reserved m s}
      (query-Up _ s up ∙ rw (h, any) refl)

insert_row_fresh :
    (m : NewMessage) (s : Store) (packed : Str × List Str × List Str)
    → Up s
    → any (has_id m.id) s.messages ≡ false
    → insert_row m packed s ≡ (ok (accepted_of (row_of m packed s.now)), inserted m packed s)
unfolding insert_row
insert_row_fresh m s packed up h = attempt-Up _ s _ _ up (rw (h, any) refl)

insert_fresh :
    (u : Unicode) (sha256 : Digest) (m : NewMessage) (s : Store)
    (packed : Str × List Str × List Str)
    → Up s
    → pack_recipients u sha256 s.keeper m.recipients ≡ some packed
    → any (has_id m.id) s.messages ≡ false
    → insert_message u sha256 m s ≡ (ok (accepted_of (row_of m packed s.now)), inserted m packed s)
unfolding insert_message
insert_fresh u sha256 m s packed up pack h =
    with_packed (pack_recipients u sha256 s.keeper m.recipients) pack
    ∙ insert_row_fresh m s packed up h
  where
    with_packed :
        (o : Option (Str × List Str × List Str))
        → o ≡ some packed
        → ◌≡◌ {A = Result DbError Accepted × Store}
            (elim o [ none ↦ (err undecodable, s) | some p ↦ insert_row m p s ])
            (insert_row m packed s)
    with_packed o h = rw h refl

accept_fresh :
    (u : Unicode) (sha256 : Digest) (m : NewMessage) (s : Store) (c : ℕ) (key : Str)
    (packed : Str × List Str × List Str)
    → m.idempotency_key ≡ c ∷ key
    → pack_recipients u sha256 s.keeper m.recipients ≡ some packed
    → New m s
    → accept_steps u sha256 m s ≡ (
      ok (accepted_of (row_of m packed s.now), false),
      linked m (inserted m packed (reserved m s)),
    )
unfolding accept_steps link_record
accept_fresh u sha256 m s c key packed has_key pack n =
    let claimed =
      ap (λ (act : Db (Option Accepted)). act s)
        (keyed m.idempotency_key c key none (claim_idempotency m) has_key)
      ∙ claim_fresh m s n.up n.no_record in
    let one = insert_fresh u sha256 m (reserved m s) packed n.up pack n.no_message in
    let link =
      ap (λ (act : Db (Unit {0})). act (inserted m packed (reserved m s)))
        (keyed m.idempotency_key c key tt (link_record m) has_key)
      ∙ exec-Up _ (inserted m packed (reserved m s)) n.up in
    and_then_goes _ _ s claimed
    ∙ and_then_goes _ _ (reserved m s) one
    ∙ and_then_goes _ _ (inserted m packed (reserved m s)) link

Known-after :
    (m again : NewMessage) (s : Store) (packed : Str × List Str × List Str)
    → New m s
    → again.api_key_id ≡ m.api_key_id
    → again.idempotency_key ≡ m.idempotency_key
    → Known again
        (linked m (inserted m packed (reserved m s)))
        m.request_hash
        (row_of m packed s.now)
unfolding is_record has_id
Known-after m again s packed n same_key same_name = record {
  kept = record (reserved_row m s.now) { message_id = some m.id };
  its_record =
      ap₂ (λ i k. record_with i k (linked m (inserted m packed (reserved m s))).idempotency)
        same_key same_name
      ∙ record_with-last m.api_key_id m.idempotency_key _ s.idempotency (reserved_row m s.now)
          n.no_record own own;
  its_hash = refl;
  message_id = m.id;
  its_message = refl;
  its_row =
      message_with-last m.id s.messages (row_of m packed s.now) n.no_message (str_eq_refl m.id);
}
  where
    own : (m.api_key_id == m.api_key_id && str_eq m.idempotency_key m.idempotency_key) ≡ true
    own = rw (==_refl m.api_key_id, str_eq_refl m.idempotency_key) refl

-- While the database is up, a request with an idempotency key that has no record, recipients that
-- can be packed and a new message id is accepted, with one message row; a second request with its
-- API key and key then returns that message if the request hash is the same and an error if it is
-- another one, and changes no table.
pub enqueue_twice :
    (u : Unicode) (sha256 : Digest) (m again : NewMessage) (s : Store) (c : ℕ) (key : Str)
    (packed : Str × List Str × List Str)
    → m.idempotency_key ≡ c ∷ key
    → pack_recipients u sha256 s.keeper m.recipients ≡ some packed
    → s.outage ≡ []
    → any (is_record m.api_key_id m.idempotency_key) s.idempotency ≡ false
    → any (has_id m.id) s.messages ≡ false
    → again.api_key_id ≡ m.api_key_id
    → again.idempotency_key ≡ m.idempotency_key
    → let accepted = accepted_of (row_of m packed s.now) in
      let (first, t) = enqueue_message u sha256 m s in
      (first ≡ ok (accepted, false))
      × (t.messages ≡ s.messages ++ (row_of m packed s.now ∷ []))
      × (enqueue_message u sha256 again t ≡ (
        (if str_eq m.request_hash again.request_hash
            then ok (accepted, true)
            else err idempotency_mismatch),
        t,
      ))
unfolding enqueue_message
enqueue_twice u sha256 m again s c key packed has_key pack up no_record no_message same_key
      same_name =
    let n : New m s = record { up = up; no_record = no_record; no_message = no_message } in
    let t = linked m (inserted m packed (reserved m s)) in
    let first =
      transaction_commits (accept_steps u sha256 m) s t _ n.up
        (accept_fresh u sha256 m s c key packed has_key pack n) n.up in
    let second =
      enqueue-Known u sha256 again t c key m.request_hash (row_of m packed s.now) n.up
        (same_name ∙ has_key) (Known-after m again s packed n same_key same_name) in
    (
      ap (λ (p : Result DbError (Accepted × Bool) × Store). p.0) first,
      ap (λ (p : Result DbError (Accepted × Bool) × Store). p.1.messages) first,
      subst
          (λ x. enqueue_message u sha256 again x ≡ (
            (if str_eq m.request_hash again.request_hash
                then ok (accepted_of (row_of m packed s.now), true)
                else err idempotency_mismatch),
            x,
          ))
          (sym (ap (λ (p : Result DbError (Accepted × Bool) × Store). p.1) first)) second,
    )
