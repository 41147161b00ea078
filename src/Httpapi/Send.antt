-- ===== src/Httpapi/Send.antt =====
-- internal/httpapi/send.go: accepting a message. A Go map is an association list, in the order in
-- which the runtime visits it.
pub mod Refuses
pub mod Made
pub mod Accepts
pub mod Prepared
mod Tests
use ai_email.Base.{
  ℕ, ◌*◌, ◌^◌, Bool, true, false, not, ◌&&◌, ◌||◌, Option, none, some, List, [], ◌∷◌, Str, codes,
  str_eq, Result, ok, err, ltb, leb, ◌==◌, if◌then◌else◌, trim_space, length,
}
use ai_email.Httpapi.{
  SendProblem, from_address, no_recipients, undecodable_recipients, recipients,
  unchecked_recipients, all_suppressed, subject_template, html_template, text_template, subject,
  no_content, reply_to, header, tag_control, unreadable_schedule, past_schedule,
  unregistered_domain, unverifiable_domain, unverified_domain, Reply, write_error, internal_error,
  accepted, invalid, failure, SendRequest, Json, Request, Server,
}
use ai_email.Store.Steps.{Step, ◌>>=◌, ◌>>◌, lift, calls}
use ai_email.Mail.{
  contains_control, parse_address, parse_recipients, validate_subject, validate_custom_header,
}
use ai_email.Mail
use ai_email.Store.{
  DomainStatus, Store, DbError, not_found, idempotency_mismatch, idempotency_in_flight, Db,
}
use ai_email.Store.Keys.{ApiKey, sends_in_last_hour}
use ai_email.Store.Messages.{Domain, NewMessage, Accepted, domain_by_name, enqueue_message}
use ai_email.Store.Suppressions.{filter_suppressed}
use ai_email.Template.{Rendered, render, unclosed_tag}
use ai_email.Template

abbrev pub max_body_bytes : ℕ
max_body_bytes = 2 * 2 ^ 20

abbrev pub first_of : {E A : Type 0} → Option A → Result E A → Result E A
first_of none otherwise = otherwise
first_of (some a) otherwise = ok a

-- `decodeRecipients`
unfoldable pub decode_recipients : Json → Str → Result SendProblem (List Str)
decode_recipients j [] = err no_recipients
decode_recipients j (c ∷ raw) = elim (j.decode_string (c ∷ raw)) [
  | some single ↦ ok (single ∷ [])
  | none ↦ first_of (j.decode_strings (c ∷ raw)) (err undecodable_recipients)
]

abbrev pub blame : {E F A : Type 0} → (E → F) → Result E A → Result F A
blame f (err e) = err (f e)
blame f (ok a) = ok a

abbrev pub unless : {E F : Type 0} → (E → F) → Option E → Result F (Unit {0})
unless f none = ok tt
unless f (some e) = err (f e)

-- The recipients that are not suppressed, if there are any.
unfoldable pub some_allowed : List Str × List Str → Result SendProblem (List Str)
some_allowed ([], blocked) = err (all_suppressed blocked)
some_allowed (a ∷ allowed, blocked) = ok (a ∷ allowed)

-- A rendered text; `none` does not come, by `render_total`.
unfoldable pub rendered : (Template.Problem → SendProblem) → Rendered → Result SendProblem Str
rendered f none = err (f unclosed_tag)
rendered f (some r) = blame f r

unfoldable pub has_content : Str → Str → Result SendProblem (Unit {0})
has_content html text =
    if str_eq (trim_space html) [] && str_eq (trim_space text) [] then err no_content else ok tt

unfoldable pub check_reply_to : Server → Str → Result SendProblem (Unit {0})
check_reply_to sv [] = ok tt
check_reply_to sv (c ∷ s) = elim (parse_address sv.unicode sv.address_parser (c ∷ s)) [
  | err e ↦ err (reply_to e)
  | ok _ ↦ ok tt
]

unfoldable pub check_headers : Server → List (Str × Str) → Result SendProblem (Unit {0})
check_headers sv [] = ok tt
check_headers sv ((name, value) ∷ rest) = elim (validate_custom_header sv.unicode name value) [
  | some e ↦ err (header e)
  | none ↦ check_headers sv rest
]

unfoldable pub check_tags : List (Str × Str) → Result SendProblem (Unit {0})
check_tags [] = ok tt
check_tags ((name, value) ∷ rest) =
    let later = check_tags rest in
    if contains_control name || contains_control value then err (tag_control name) else later

unfoldable pub in_future : ℕ → Option ℕ → Result SendProblem (Option ℕ)
in_future now none = err unreadable_schedule
in_future now (some at) = if ltb at now then err past_schedule else ok (some at)

unfoldable pub schedule : Server → ℕ → Str → Result SendProblem (Option ℕ)
schedule sv now [] = ok none
schedule sv now (c ∷ s) = in_future now (sv.parse_time (c ∷ s))

unfoldable pub domain_problem : Str → DbError → SendProblem
domain_problem name not_found = unregistered_domain name
domain_problem name _ = unverifiable_domain

abbrev pub is_verified : DomainStatus → Bool
is_verified DomainStatus.verified = true
is_verified _ = false

unfoldable pub require_verified : Domain → Str → Result SendProblem (Unit {0})
require_verified d name = if is_verified d.status then ok tt else err (unverified_domain name)

pub record Content : Type 0 where
  pub subject : Str
  pub html : Str
  pub text : Str

-- The checks between the two calls of the database.
unfoldable pub checked_content : Server → SendRequest → Content → Step SendProblem Content
checked_content sv req c = do
  lift (unless subject (validate_subject c.subject))
  lift (has_content c.html c.text)
  lift (check_reply_to sv req.reply_to)
  lift (check_headers sv req.headers)
  lift (check_tags req.tags)
  lift (ok c)

unfoldable pub content_of : Server → SendRequest → Step SendProblem Content
content_of sv req = do
  line ← lift (rendered subject_template (render req.subject req.variables false))
  html ← lift (rendered html_template (render req.html req.variables true))
  text ← lift (rendered text_template (render req.text req.variables false))
  checked_content sv req (record { subject = line; html = html; text = text })

-- The recipients of a message: as given, without the suppressed.
unfoldable pub allowed_recipients : Server → Str → Step SendProblem (List Str)
allowed_recipients sv to = do
  list ← lift (decode_recipients sv.json to)
  wanted ← lift (blame recipients (parse_recipients sv.unicode sv.address_parser list))
  parted ← calls (λ e. unchecked_recipients) (filter_suppressed sv.unicode sv.sha256 wanted)
  lift (some_allowed parted)

-- The domain of the sender, which must be verified.
unfoldable pub sending_domain : Str → Step SendProblem Domain
sending_domain name = do
  domain ← calls (domain_problem name) (domain_by_name name)
  lift (require_verified domain name)
  lift (ok domain)

abbrev pub message_of :
    Server
    → Request
    → ApiKey
    → SendRequest
    → Str
    → Mail.Address
    → List Str
    → Content
    → Option ℕ
    → Domain
    → NewMessage
message_of sv r key req raw sender to c scheduled_at domain = record {
  id = sv.new_id;
  api_key_id = key.id;
  domain_id = domain.id;
  from_address = sender.email;
  recipients = to;
  subject = c.subject;
  body_html = c.html;
  body_text = c.text;
  headers = sv.json.encode_map req.headers;
  tags = sv.json.encode_map req.tags;
  scheduled_at = scheduled_at;
  idempotency_key = trim_space r.header_idempotency_key;
  request_hash = sv.sha256 raw;
}

-- `buildMessage`
unfoldable pub build_message :
    Server → Request → ApiKey → SendRequest → Str → Step SendProblem NewMessage
build_message sv r key req raw = do
  sender ← lift (blame from_address (parse_address sv.unicode sv.address_parser req.from))
  to ← allowed_recipients sv req.to
  c ← content_of sv req
  scheduled_at ← λ s. (schedule sv s.now req.scheduled_at, s)
  domain ← sending_domain sender.domain
  lift (ok (message_of sv r key req raw sender to c scheduled_at domain))

unfoldable pub enabled : Server → Result Reply (Unit {0})
enabled sv =
    if sv.send_enabled
    then ok tt
    else err (
        write_error 503 (codes "sending_disabled") (codes "sending is disabled on this deployment"))

abbrev pub too_large : Reply
too_large = write_error 413 (codes "payload_too_large") (codes "the request body is too large")

unfoldable pub read_body : Option Str → Result Reply Str
read_body none = err too_large
read_body (some raw) = if ltb max_body_bytes (length raw) then err too_large else ok raw

unfoldable pub decoded : Option SendRequest → Result Reply SendRequest
decoded none =
    err (write_error 400 (codes "invalid_json") (codes "the request body could not be parsed"))
decoded (some req) = ok req

abbrev pub invalid_request : SendProblem → Reply
invalid_request p = record { status = 422; headers = []; body = invalid p }

abbrev pub as_reply : {A : Type 0} → Step SendProblem A → Step Reply A
as_reply m s = let (r, t) = m s in (blame invalid_request r, t)

abbrev pub retry_after : Str → Reply → Reply
retry_after seconds reply = record reply { headers = (codes "Retry-After", seconds) ∷ [] }

unfoldable pub below_quota : ApiKey → ℕ → Result Reply (Unit {0})
below_quota key used =
    if leb key.quota_per_hour used
    then err (
        retry_after (codes "3600") (
          write_error 429 (codes "quota_exceeded") (codes "this key has reached its hourly quota")))
    else ok tt

-- The count against the quota, if the key has one.
unfoldable pub limited : Bool → ApiKey → Step Reply (Unit {0})
limited false key = lift (ok tt)
limited true key = do
  used ← calls (λ e. internal_error) (sends_in_last_hour key.id)
  lift (below_quota key used)

unfoldable pub check_quota : ApiKey → Step Reply (Unit {0})
check_quota key = limited (ltb 0 key.quota_per_hour) key

unfoldable pub enqueue_problem : DbError → Reply
enqueue_problem idempotency_mismatch =
    write_error 422 (codes "idempotency_mismatch")
      (codes "this idempotency key was already used with a different request")
enqueue_problem idempotency_in_flight = retry_after (codes "1") (
    write_error 409 (codes "request_in_flight")
      (codes "an identical request is still being processed"))
enqueue_problem _ = internal_error

unfoldable pub accepted_reply : Accepted × Bool → Reply
accepted_reply (a, replayed) = record {
  status = 202;
  headers = if replayed then (codes "Idempotent-Replay", codes "true") ∷ [] else [];
  body = accepted a;
}

-- What `handleSend` does before it stores the message.
unfoldable pub prepare_send : Server → ApiKey → Request → Step Reply NewMessage
prepare_send sv key r = do
  lift (enabled sv)
  raw ← lift (read_body r.body)
  req ← lift (decoded (sv.json.decode_request raw))
  m ← as_reply (build_message sv r key req raw)
  check_quota key
  lift (ok m)

unfoldable pub accept_send : Server → ApiKey → Request → Step Reply Reply
accept_send sv key r = do
  m ← prepare_send sv key r
  result ← calls enqueue_problem (enqueue_message sv.unicode sv.sha256 m)
  lift (ok (accepted_reply result))

abbrev pub either : Result Reply Reply → Reply
either (ok reply) = reply
either (err reply) = reply

-- `handleSend`
unfoldable pub handle_send : Server → ApiKey → Request → Store → Reply × Store
handle_send sv key r s = let (answer, t) = accept_send sv key r s in (either answer, t)
