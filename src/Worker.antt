-- ===== src/Worker.antt =====
-- internal/worker/worker.go: draining the message queue. Log lines are not modelled. The wall clock
-- and the database's clock are one, `now` of the store.
pub mod Backoff
pub mod Keeps
pub mod Deliver
pub mod Counts
pub mod Ceiling
pub mod Recorded
pub mod Webhooks
mod Tests
use ai_email.Base.{
  ℕ, suc, ◌+◌, ◌-◌, ◌*◌, ◌^◌, min, Bool, true, false, ◌&&◌, ◌||◌, not, Option, none, some, List, [],
  ◌∷◌, ◌++◌, length, Str, codes, str_eq, Result, ok, err, ltb, leb, ◌==◌, itoa, Unicode,
  if◌then◌else◌,
}
use ai_email.Bounce.{Kind, classify}
use ai_email.Bounce
use ai_email.Delivery.{Outcome, Response, Message}
use ai_email.Mail
use ai_email.Mail.Build.{Envelope, Mime, build}
use ai_email.Store.{
  Store, DbError, Db, continue, EventType, event_name, email_sent, email_deferred, email_failed,
}
use ai_email.Store.Queue.{
  Claimed, claim_messages, mark_sent, mark_deferred, mark_failed, sent_in_last_hour,
}
use ai_email.Store.Webhooks.{enqueue_delivery}
use ai_email.Store.Domains.{SigningKey, signing_key_for_message, mark_signed}
use ai_email.Store.Suppressions.{Digest, suppress}
use ai_email.Unsubscribe.{Codec}
use ai_email.Unsubscribe

abbrev pub batch_size : ℕ
batch_size = 10

abbrev pub minute : ℕ
minute = 60 * 1000000000

abbrev pub lock_duration : ℕ
lock_duration = 5 * minute

abbrev pub max_attempts : ℕ
max_attempts = 8

abbrev pub max_backoff : ℕ
max_backoff = 6 * (60 * minute)

-- `Backoff`: doublings of a minute; a float64 holds each of them exactly.
unfoldable pub backoff : ℕ → ℕ
backoff attempt =
    let first = if ltb attempt 1 then 1 else attempt in
    let delay = minute * 2 ^ min (first - 1) 20 in
    if ltb max_backoff delay || delay == 0 then max_backoff else delay

-- The errors that stop a message before it is handed over.
pub data SignError : Type 0 where
  not_configured : SignError
  no_active_key : DbError → SignError
  unbuildable : Mail.Problem → SignError
  unsigned : Str → SignError

pub record EventPayload : Type 0 where
  pub event_id : Str
  pub event_type : Str
  pub created_at : ℕ
  pub email_id : Str
  pub reason : Option Str

-- What the worker has beside the store. `sender` and `signer` are the interfaces of those names;
-- `error_text` is `Error()` of an error; `marshal` and `unmarshal_headers` are `encoding/json`.
pub record Worker : Type 0 where
  pub sender : Message → Response
  pub has_keys : Bool
  pub signer : Option (SigningKey → Str → Result Str Str)
  pub has_events : Bool
  pub has_suppressions : Bool
  pub unsubscribe_secret : Str
  pub public_base_url : Str
  pub max_per_hour : ℕ
  pub unicode : Unicode
  pub mime : Mime
  pub codec : Codec
  pub sha256 : Digest
  pub error_text : SignError → Str
  pub marshal : EventPayload → Option Str
  pub unmarshal_headers : Str → Option (List (Str × Str))

abbrev pub nonempty : Str → Option Str
nonempty [] = none
nonempty (c ∷ s) = some (c ∷ s)

-- `BuildPayload` of webhooks.go
unfoldable pub build_payload : Worker → Str → EventType → Str → Str → ℕ → Option Str
build_payload w event_id event message_id reason at = w.marshal (record {
  event_id = event_id;
  event_type = event_name event;
  created_at = at;
  email_id = message_id;
  reason = nonempty reason;
})

unfoldable pub event_id_of : Str → EventType → ℕ → Str
event_id_of message_id event attempt =
    message_id ++ (b':' ∷ (event_name event ++ (b':' ∷ itoa attempt)))

-- `publish`
unfoldable pub publish : Worker → Str → EventType → Str → ℕ → Store → Store
publish w message_id event reason attempt s =
    if w.has_events
    then (let event_id = event_id_of message_id event attempt in
        elim (build_payload w event_id event message_id reason s.now) [
          | none ↦ s
          | some payload ↦ (enqueue_delivery event_id message_id payload s).1
        ])
    else s

-- `decodeHeaders`
unfoldable pub decode_headers : Worker → Str → List (Str × Str)
decode_headers w [] = []
decode_headers w (c ∷ raw) = elim (w.unmarshal_headers (c ∷ raw)) [ none ↦ [] | some out ↦ out ]

-- The link in the headers: only with a public address, and for the first recipient.
unfoldable pub unsubscribe_url : Worker → Claimed → ℕ → Str
unsubscribe_url w msg now = if str_eq w.public_base_url [] then [] else elim msg.recipients [
  | [] ↦ []
  | first ∷ _ ↦
      Unsubscribe.link w.public_base_url
        (Unsubscribe.sign w.unicode w.codec w.unsubscribe_secret msg.id first now)
]

abbrev pub envelope_of : Worker → Claimed → SigningKey → ℕ → Envelope
envelope_of w msg key now = record {
  message_id = msg.id ++ (b'@' ∷ key.domain);
  from = msg.from_address;
  to = msg.recipients;
  subject = msg.subject;
  html = msg.body_html;
  text = msg.body_text;
  reply_to = [];
  extra = decode_headers w msg.headers;
  date = none;
  unsubscribe_url = unsubscribe_url w msg now;
}

-- `sign` from the key on.
unfoldable pub sign_with :
    Worker
    → (SigningKey → Str → Result Str Str)
    → Claimed
    → SigningKey
    → Store
    → Result SignError Str × Store
sign_with w signer msg key s =
    elim (build w.unicode (record w.mime { now = s.now }) (envelope_of w msg key s.now)) [
      | err p ↦ (err (unbuildable p), s)
      | ok raw ↦ elim (signer key raw) [
        | err e ↦ (err (unsigned e), s)
        | ok signed ↦ (ok signed, (mark_signed msg.id s).1)
      ]
    ]

-- `sign`
unfoldable pub sign : Worker → Claimed → Store → Result SignError Str × Store
sign w msg s = elim w.signer [
  | none ↦ (err not_configured, s)
  | some signer ↦
      if w.has_keys
      then (let (r, s1) = signing_key_for_message msg.id s in
          continue r (λ key t. sign_with w signer msg key t) (λ e t. (err (no_active_key e), t)) s1)
      else (err not_configured, s)
]

-- `fail`
unfoldable pub fail : Worker → Claimed → Str → Store → Store
fail w msg reason s =
    let (r, s1) = mark_failed msg.id reason s in
    continue r (λ _ t. publish w msg.id email_failed reason msg.attempts t) (λ _ t. t) s1

-- `suppressionReason`
unfoldable pub suppression_reason : Kind → Str
suppression_reason Kind.complaint = codes "complaint"
suppression_reason _ = codes "hard_bounce"

-- The loop over the recipients: an error of one does not stop it.
unfoldable pub suppress_all : Worker → Str → Str → Str → List Str → Store → Store
suppress_all w reason detail message_id [] s = s
suppress_all w reason detail message_id (r ∷ recipients) s =
    suppress_all w reason detail message_id recipients
      (suppress w.unicode w.sha256 r reason detail message_id s).1

-- `suppressIfAddressIsBad`
unfoldable pub suppress_if_address_is_bad : Worker → Claimed → Str → Store → Store
suppress_if_address_is_bad w msg reason s =
    let verdict = classify w.unicode reason in
    if w.has_suppressions && Bounce.suppresses verdict.kind
    then suppress_all w (suppression_reason verdict.kind) verdict.reason msg.id msg.recipients s
    else s

abbrev pub message_of : Worker → Claimed → Str → Message
message_of w msg raw = record {
  id = msg.id;
  from = msg.from_address;
  to = msg.recipients;
  subject = msg.subject;
  html = msg.body_html;
  text = msg.body_text;
  headers = decode_headers w msg.headers;
  raw = raw;
}

-- The switch on the engine's answer.
unfoldable pub record_sent : Worker → Claimed → Store → Store
record_sent w msg s =
    let (r, s1) = mark_sent msg.id s in
    continue r (λ _ t. publish w msg.id email_sent [] msg.attempts t) (λ _ t. t) s1

unfoldable pub defer_or_give_up : Worker → Claimed → Str → Store → Store
defer_or_give_up w msg reason s =
    if leb max_attempts msg.attempts
    then fail w msg (codes "gave up after repeated temporary failures: " ++ reason) s
    else (let (r, s1) = mark_deferred msg.id (s.now + backoff msg.attempts) reason s in
        continue r (λ _ t. publish w msg.id email_deferred reason msg.attempts t) (λ _ t. t) s1)

unfoldable pub settle : Worker → Claimed → Outcome → Str → Store → Store
settle w msg Outcome.sent reason s = record_sent w msg s
settle w msg Outcome.temporary reason s = defer_or_give_up w msg reason s
settle w msg Outcome.permanent reason s =
    fail w msg reason (suppress_if_address_is_bad w msg reason s)

-- `deliver`
unfoldable pub deliver : Worker → Claimed → Store → Store
deliver w msg s =
    let (r, s1) = sign w msg s in
    elim r [
      | err e ↦ fail w msg (codes "could not sign message: " ++ w.error_text e) s1
      | ok raw ↦
          let response = w.sender (message_of w msg raw) in
          settle w msg response.outcome response.reason s1
    ]

unfoldable pub deliver_all : Worker → List Claimed → Store → Store
deliver_all w [] s = s
deliver_all w (msg ∷ claimed) s = deliver_all w claimed (deliver w msg s)

unfoldable pub claim_and_deliver : Worker → Db ℕ
claim_and_deliver w s =
    let (r, s1) = claim_messages batch_size lock_duration s in
    continue r (λ claimed t. (ok (length claimed), deliver_all w claimed t)) (λ e t. (err e, t)) s1

-- `tick`: how many messages were processed. A ceiling of 0 is none.
unfoldable pub tick : Worker → Db ℕ
tick w s =
    if ltb 0 w.max_per_hour
    then (let (r, s1) = sent_in_last_hour s in
        continue r (λ sent t. if leb w.max_per_hour sent then (ok 0, t) else claim_and_deliver w t)
          (λ e t. (err e, t)) s1)
    else claim_and_deliver w s
