-- ===== src/Store/Queue.antt =====
-- internal/store/queue.go: the message queue and its events, and `unpackRecipients` of
-- recipients.go.
pub mod Claim
pub mod Once
pub mod Marks
mod Events
use ai_email.Base.{
  ℕ, ◌+◌, ◌-◌, ◌*◌, Bool, true, false, ◌&&◌, ◌||◌, Option, none, some, List, [], ◌∷◌, ◌++◌, map,
  filter, Str, codes, str_eq, Result, ok, err, ltb, leb, ◌==◌, any, length, take, if◌then◌else◌,
  runes, encode,
}
use ai_email.Store.{
  MessageStatus, MessageRow, EventType, email_sent, email_deferred, email_failed, EventRow, Keeper,
  Store, DbError, undecodable, Db, query, exec, and_then, truncate, sort_by, update_where,
}

pub record Claimed : Type 0 where
  pub id : Str
  pub from_address : Str
  pub recipients : List Str
  pub subject : Str
  pub body_html : Str
  pub body_text : Str
  pub headers : Str
  pub attempts : ℕ

abbrev pub is_waiting : MessageStatus → Bool
is_waiting MessageStatus.queued = true
is_waiting MessageStatus.deferred = true
is_waiting _ = false

-- `x IS NULL OR x <= now()` and `x IS NULL OR x < now()`
abbrev pub due : ℕ → Option ℕ → Bool
due now none = true
due now (some at) = leb at now

abbrev pub unlocked : ℕ → Option ℕ → Bool
unlocked now none = true
unlocked now (some until) = ltb until now

-- The WHERE clause of the subquery.
unfoldable pub claimable : ℕ → MessageRow → Bool
claimable now r = is_waiting r.status && due now r.scheduled_at && unlocked now r.locked_until

-- `ORDER BY created_at`
unfoldable pub by_creation : List MessageRow → List MessageRow
by_creation rows = sort_by (λ (r : MessageRow). r.created_at) rows

-- The rows of the subquery.
unfoldable pub chosen : ℕ → ℕ → List MessageRow → List MessageRow
chosen now limit rows = take limit (by_creation (filter (claimable now) rows))

-- `WHERE id IN (…)`
unfoldable pub has_id : Str → MessageRow → Bool
has_id id r = str_eq r.id id

unfoldable pub among : List MessageRow → MessageRow → Bool
among rows r = any (has_id r.id) rows

abbrev pub lock_row : ℕ → ℕ → MessageRow → MessageRow
lock_row now lock_for r = record r {
  status = MessageStatus.sending;
  attempts = r.attempts + 1;
  locked_until = some (now + lock_for);
  updated_at = now;
}

-- The UPDATE … RETURNING: the rows as they are after it.
unfoldable pub claim_rows : ℕ → ℕ → Store → List MessageRow × Store
claim_rows limit lock_for s =
    let picked = chosen s.now limit s.messages in
    (
      map (lock_row s.now lock_for) (filter (among picked) s.messages),
      record s { messages = update_where (among picked) (lock_row s.now lock_for) s.messages },
    )

-- `unpackRecipients`
unfoldable pub unpack_recipients : Option Keeper → Str → List Str → Option (List Str)
unpack_recipients keeper [] clear = some clear
unpack_recipients none (_ ∷ _) clear = none
unpack_recipients (some k) (c ∷ encrypted) clear = k.unseal (c ∷ encrypted)

abbrev pub claimed_of : MessageRow → List Str → Claimed
claimed_of r recipients = record {
  id = r.id;
  from_address = r.from_address;
  recipients = recipients;
  subject = r.subject;
  body_html = r.body_html;
  body_text = r.body_text;
  headers = r.headers;
  attempts = r.attempts;
}

-- The loop over the returned rows: one that cannot be unpacked ends it with an error.
unfoldable pub read_claimed : Option Keeper → List MessageRow → Result DbError (List Claimed)
read_claimed keeper [] = ok []
read_claimed keeper (r ∷ rows) =
    elim (unpack_recipients keeper r.recipients_encrypted r.recipients) [
      | none ↦ err undecodable
      | some recipients ↦ elim (read_claimed keeper rows) [
        | err e ↦ err e
        | ok out ↦ ok (claimed_of r recipients ∷ out)
      ]
    ]

-- `ClaimMessages`
unfoldable pub claim_messages : ℕ → ℕ → Db (List Claimed)
claim_messages limit lock_for =
    and_then (query (claim_rows limit lock_for)) (λ rows s. (read_claimed s.keeper rows, s))

-- `appendJSONString`, one rune.
unfoldable pub json_rune : ℕ → Str
json_rune r =
    if r == b'"'
    then b'\\' ∷ b'"' ∷ []
    else if r == b'\\'
    then b'\\' ∷ b'\\' ∷ []
    else if r == 10
    then b'\\' ∷ b'n' ∷ []
    else if r == 13
    then b'\\' ∷ b'r' ∷ []
    else if r == 9
    then b'\\' ∷ b't' ∷ []
    else if ltb r 0x20
    then 32 ∷ []
    else encode r

unfoldable pub json_runes : List ℕ → Str
json_runes [] = []
json_runes (r ∷ rs) = json_rune r ++ json_runes rs

-- `mustJSONString`
unfoldable pub must_json_string : Str → Str
must_json_string reason =
    codes "{\"reason\":" ++ ((b'"' ∷ json_runes (runes reason)) ++ (b'"' ∷ b'}' ∷ []))

-- `RecordEvent`
unfoldable pub event_detail : Str → Str
event_detail [] = codes "{}"
event_detail (c ∷ detail) = must_json_string (truncate (c ∷ detail) 500)

unfoldable pub record_event : Str → EventType → Str → Db (Unit {0})
record_event message_id event detail = exec λ s. record s {
  events =
      s.events
      ++ (record {
        message_id = message_id;
        event_type = event;
        detail = event_detail detail;
        occurred_at = s.now;
      }
          ∷ []);
}

-- The two UPDATEs of message rows.
unfoldable pub set_status : Str → MessageStatus → Option Str → Store → Store
set_status id status reason s = record s {
  messages =
      update_where (has_id id)
        (λ r. record r {
          status = status;
          locked_until = none;
          last_error = reason;
          updated_at = s.now;
        })
        s.messages;
}

unfoldable pub set_deferred : Str → ℕ → Str → Store → Store
set_deferred id retry_at reason s = record s {
  messages =
      update_where (has_id id)
        (λ r. record r {
          status = MessageStatus.deferred;
          scheduled_at = some retry_at;
          locked_until = none;
          last_error = some (truncate reason 500);
          updated_at = s.now;
        })
        s.messages;
}

-- `MarkSent`, `MarkDeferred` and `MarkFailed`; `transition` is the UPDATE and then the event.
unfoldable pub transition : Str → MessageStatus → EventType → Option Str → Db (Unit {0})
transition id status event none =
    and_then (exec (set_status id status none)) (λ _. record_event id event [])
transition id status event (some reason) =
    and_then (exec (set_status id status (some (truncate reason 500))))
      (λ _. record_event id event reason)

unfoldable pub mark_sent : Str → Db (Unit {0})
mark_sent id = transition id MessageStatus.sent email_sent none

unfoldable pub mark_deferred : Str → ℕ → Str → Db (Unit {0})
mark_deferred id retry_at reason =
    and_then (exec (set_deferred id retry_at reason)) (λ _. record_event id email_deferred reason)

unfoldable pub mark_failed : Str → Str → Db (Unit {0})
mark_failed id reason = transition id MessageStatus.failed email_failed (some reason)

abbrev pub hour : ℕ
hour = 3600 * 1000000000

abbrev pub is_sent : EventType → Bool
is_sent email_sent = true
is_sent _ = false

-- `occurred_at > now() - interval '1 hour'`
unfoldable pub recent_dispatch : ℕ → EventRow → Bool
recent_dispatch now e = is_sent e.event_type && ltb now (e.occurred_at + hour)

-- `SentInLastHour`
unfoldable pub sent_in_last_hour : Db ℕ
sent_in_last_hour = query (λ s. (length (filter (recent_dispatch s.now) s.events), s))
