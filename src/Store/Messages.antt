-- ===== src/Store/Messages.antt =====
-- internal/store/messages.go: accepting a message once per idempotency key, and `packRecipients` of
-- recipients.go. That the API key and the domain of a new message exist (foreign keys) is taken for
-- granted.
pub mod Repeated
pub mod Idempotent
use ai_email.Base.{
  ℕ, ◌+◌, ◌*◌, Bool, true, false, ◌&&◌, Option, none, some, List, [], ◌∷◌, ◌++◌, map, any, Str,
  str_eq, Result, ok, err, ◌==◌, if◌then◌else◌, Unicode,
}
use ai_email.Store.{
  MessageStatus, MessageRow, DomainStatus, DomainRow, Keeper, IdempotencyRow, Store, DbError,
  undecodable, not_found, idempotency_mismatch, idempotency_in_flight, Db, query, exec, attempt,
  and_then, continue, update_where,
}
use ai_email.Store.Queue.{has_id}
use ai_email.Store.Domains.{found_or}
use ai_email.Store.Suppressions.{Digest, suppression_hash}

pub record Domain : Type 0 where
  pub id : ℕ
  pub name : Str
  pub status : DomainStatus

unfoldable pub domain_named : Str → List DomainRow → Option Domain
domain_named name [] = none
domain_named name (d ∷ domains) =
    if str_eq d.name name
    then some (record { id = d.id; name = d.name; status = d.status })
    else domain_named name domains

-- `DomainByName`
unfoldable pub domain_by_name : Str → Db Domain
domain_by_name name = and_then (query (λ s. (domain_named name s.domains, s))) found_or

pub record NewMessage : Type 0 where
  pub id : Str
  pub api_key_id : ℕ
  pub domain_id : ℕ
  pub from_address : Str
  pub recipients : List Str
  pub subject : Str
  pub body_html : Str
  pub body_text : Str
  pub headers : Str
  pub tags : Str
  pub scheduled_at : Option ℕ
  pub idempotency_key : Str
  pub request_hash : Str

pub record Accepted : Type 0 where
  pub id : Str
  pub status : MessageStatus
  pub created_at : ℕ

abbrev pub accepted_of : MessageRow → Accepted
accepted_of r = record { id = r.id; status = r.status; created_at = r.created_at }

-- `packRecipients`: ciphertext, hashes and clear list.
unfoldable pub pack_recipients :
    Unicode → Digest → Option Keeper → List Str → Option (Str × List Str × List Str)
pack_recipients u sha256 none recipients =
    some ([], map (suppression_hash u sha256) recipients, recipients)
pack_recipients u sha256 (some k) recipients = elim (k.seal recipients) [
  | none ↦ none
  | some sealed ↦ some (sealed, map (suppression_hash u sha256) recipients, [])
]

abbrev pub row_of : NewMessage → Str × List Str × List Str → ℕ → MessageRow
row_of m (sealed, hashes, clear) now = record {
  id = m.id;
  api_key_id = m.api_key_id;
  domain_id = m.domain_id;
  status = MessageStatus.queued;
  from_address = m.from_address;
  recipients = clear;
  recipients_encrypted = sealed;
  recipients_hash = hashes;
  subject = m.subject;
  body_html = m.body_html;
  body_text = m.body_text;
  headers = m.headers;
  tags = m.tags;
  attempts = 0;
  scheduled_at = m.scheduled_at;
  locked_until = none;
  last_error = none;
  created_at = now;
  updated_at = now;
  signed_at = none;
}

-- The INSERT, which the primary key can refuse.
unfoldable pub insert_row : NewMessage → Str × List Str × List Str → Db Accepted
insert_row m packed = attempt λ s.
    if any (has_id m.id) s.messages
    then none
    else (let r = row_of m packed s.now in
        some (accepted_of r, record s { messages = s.messages ++ (r ∷ []) }))

-- `insertMessage`
unfoldable pub insert_message : Unicode → Digest → NewMessage → Db Accepted
insert_message u sha256 m s = elim (pack_recipients u sha256 s.keeper m.recipients) [
  | none ↦ (err undecodable, s)
  | some packed ↦ insert_row m packed s
]

-- The primary key (api_key_id, key) of idempotency_records.
unfoldable pub is_record : ℕ → Str → IdempotencyRow → Bool
is_record api_key_id key r = r.api_key_id == api_key_id && str_eq r.key key

abbrev pub day : ℕ
day = 24 * (3600 * 1000000000)

abbrev pub reserved_row : NewMessage → ℕ → IdempotencyRow
reserved_row m now = record {
  api_key_id = m.api_key_id;
  key = m.idempotency_key;
  request_hash = m.request_hash;
  message_id = none;
  expires_at = now + day;
}

-- The INSERT … ON CONFLICT DO NOTHING, with the test `RowsAffected() == 1`.
unfoldable pub reserve_key : NewMessage → Db Bool
reserve_key m = query λ s.
    if any (is_record m.api_key_id m.idempotency_key) s.idempotency
    then (false, s)
    else (true, record s { idempotency = s.idempotency ++ (reserved_row m s.now ∷ []) })

unfoldable pub message_with : Str → List MessageRow → Option MessageRow
message_with id [] = none
message_with id (r ∷ rows) = if has_id id r then some r else message_with id rows

unfoldable pub record_with : ℕ → Str → List IdempotencyRow → Option IdempotencyRow
record_with api_key_id key [] = none
record_with api_key_id key (r ∷ rows) =
    if is_record api_key_id key r then some r else record_with api_key_id key rows

-- The LEFT JOIN: the record's message, if it has one.
unfoldable pub joined : List MessageRow → Option Str → Option Accepted
joined rows none = none
joined rows (some id) = elim (message_with id rows) [ none ↦ none | some r ↦ some (accepted_of r) ]

-- `equalBytes` and the two tests after the load.
unfoldable pub earlier : Str → Option (Str × Option Accepted) → Result DbError Accepted
earlier request_hash none = err not_found
earlier request_hash (some (stored, found)) =
    if str_eq stored request_hash
    then elim found [ none ↦ err idempotency_in_flight | some a ↦ ok a ]
    else err idempotency_mismatch

unfoldable pub load_record : NewMessage → Db (Option (Str × Option Accepted))
load_record m = query λ s. (
  elim (record_with m.api_key_id m.idempotency_key s.idempotency) [
    | none ↦ none
    | some r ↦ some (r.request_hash, joined s.messages r.message_id)
  ],
  s,
)

-- What `claimIdempotency` returns beside an error: the earlier result of a replay, or nothing.
unfoldable pub claim_idempotency : NewMessage → Db (Option Accepted)
claim_idempotency m = and_then (reserve_key m) λ reserved.
    if reserved
    then (λ s. (ok none, s))
    else and_then (load_record m) λ loaded s. elim (earlier m.request_hash loaded) [
      | err e ↦ (err e, s)
      | ok a ↦ (ok (some a), s)
    ]

-- The UPDATE of the record, where there is a key.
unfoldable pub link_record : NewMessage → Db (Unit {0})
link_record m = exec λ s. record s {
  idempotency =
      update_where (is_record m.api_key_id m.idempotency_key)
        (λ (r : IdempotencyRow). record r { message_id = some m.id }) s.idempotency;
}

abbrev pub when_keyed : {A : Type 0} → Str → A → Db A → Db A
when_keyed [] a act = λ s. (ok a, s)
when_keyed (_ ∷ _) a act = act

-- The transaction's statements between Begin and Commit: the result, and if it is a replay.
unfoldable pub accept_steps : Unicode → Digest → NewMessage → Db (Accepted × Bool)
accept_steps u sha256 m =
    and_then (when_keyed m.idempotency_key none (claim_idempotency m)) λ replayed. elim replayed [
      | some a ↦ λ s. (ok (a, true), s)
      | none ↦ and_then (insert_message u sha256 m) λ a.
          and_then (when_keyed m.idempotency_key tt (link_record m)) (λ _ s. (ok (a, false), s))
    ]

-- Begin and Commit are round trips too; without a Commit the tables are as before.
abbrev pub round_trip : Db (Unit {0})
round_trip = exec (λ s. s)

unfoldable pub transaction : {A : Type 0} → Db A → Db A
transaction m s =
    let (r, t) =
      and_then round_trip (λ _. and_then m (λ a. and_then round_trip (λ _ t. (ok a, t)))) s in
    continue r (λ a t. (ok a, t)) (λ e t. (err e, record s { outage = t.outage })) t

-- `EnqueueMessage`
unfoldable pub enqueue_message : Unicode → Digest → NewMessage → Db (Accepted × Bool)
enqueue_message u sha256 m = transaction (accept_steps u sha256 m)

-- `MessageByID`
unfoldable pub message_by_id : Str → Db Accepted
message_by_id id = and_then (query (λ s. (joined s.messages (some id), s))) found_or
