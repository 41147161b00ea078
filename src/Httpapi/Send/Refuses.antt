-- ===== src/Httpapi/Send/Refuses.antt =====
-- What `handleSend` of internal/httpapi/send.go leaves as it was.
use ai_email.Base.{
  ◌≡◌, refl, ◌⊎◌, inl, inr, Bool, true, false, Str, Result, ok, err, filter, length, ltb,
}
use ai_email.Httpapi.{
  internal_error, Reply, SendRequest, Request, Server, from_address, unchecked_recipients,
  recipients, html_template, text_template, subject_template, subject,
}
use ai_email.Httpapi.Send.{
  decode_recipients, blame, unless, rendered, has_content, check_reply_to, check_headers,
  check_tags, schedule, domain_problem, require_verified, Content, content_of, checked_content,
  allowed_recipients, sending_domain, build_message, enabled, read_body, decoded, as_reply, limited,
  check_quota, enqueue_problem, accepted_reply, prepare_send, accept_send, either, handle_send,
}
use ai_email.Mail.{parse_address, parse_recipients, validate_subject}
use ai_email.Store.{Store, DbError}
use ai_email.Store.Keys.{ApiKey, sent_lately, sends_in_last_hour}
use ai_email.Store.Messages.{NewMessage, Accepted, domain_by_name, enqueue_message}
use ai_email.Store.Reads.{
  Reads, Reads-trans, ReadsOnly, check-ReadsOnly, >>=-ReadsOnly, query-ReadsOnly,
  and_then-ReadsOnly, found_or-ReadsOnly, filter_suppressed-ReadsOnly, transaction-Reads,
}
use ai_email.Store.Steps.{proceed, translated, ◌>>=◌, lift, calls}
use ai_email.Store.Suppressions.{filter_suppressed}
use ai_email.Template.{render}

domain_by_name-ReadsOnly : (name : Str) → ReadsOnly (domain_by_name name)
unfolding domain_by_name
domain_by_name-ReadsOnly name = and_then-ReadsOnly _ _ (query-ReadsOnly _) found_or-ReadsOnly

pub allowed_recipients-ReadsOnly : (sv : Server) (to : Str) → ReadsOnly (allowed_recipients sv to)
unfolding allowed_recipients
allowed_recipients-ReadsOnly sv to = check-ReadsOnly (decode_recipients sv.json to) _ λ list.
    check-ReadsOnly (blame recipients (parse_recipients sv.unicode sv.address_parser list)) _
      λ wanted.
        >>=-ReadsOnly
          (calls (λ e. unchecked_recipients) (filter_suppressed sv.unicode sv.sha256 wanted)) _
          (filter_suppressed-ReadsOnly sv.unicode sv.sha256 wanted) λ parted s. (s.outage, refl)

checked_content-ReadsOnly :
    (sv : Server) (req : SendRequest) (c : Content) → ReadsOnly (checked_content sv req c)
unfolding checked_content
checked_content-ReadsOnly sv req c =
    check-ReadsOnly (unless subject (validate_subject c.subject)) _ λ _.
      check-ReadsOnly (has_content c.html c.text) _ λ _.
        check-ReadsOnly (check_reply_to sv req.reply_to) _ λ _.
          check-ReadsOnly (check_headers sv req.headers) _
            λ _. check-ReadsOnly (check_tags req.tags) _ λ _ s. (s.outage, refl)

pub content_of-ReadsOnly : (sv : Server) (req : SendRequest) → ReadsOnly (content_of sv req)
unfolding content_of
content_of-ReadsOnly sv req =
    check-ReadsOnly (rendered subject_template (render req.subject req.variables false)) _ λ line.
      check-ReadsOnly (rendered html_template (render req.html req.variables true)) _ λ html.
        check-ReadsOnly (rendered text_template (render req.text req.variables false)) _
          λ text. checked_content-ReadsOnly sv req _

sending_domain-ReadsOnly : (name : Str) → ReadsOnly (sending_domain name)
unfolding sending_domain
sending_domain-ReadsOnly name =
    >>=-ReadsOnly (calls (domain_problem name) (domain_by_name name)) _
      (domain_by_name-ReadsOnly name)
      λ domain. check-ReadsOnly (require_verified domain name) _ λ _ s. (s.outage, refl)

pub build_message-ReadsOnly :
    (sv : Server) (r : Request) (key : ApiKey) (req : SendRequest) (raw : Str)
    → ReadsOnly (build_message sv r key req raw)
unfolding build_message
build_message-ReadsOnly sv r key req raw =
    check-ReadsOnly (blame from_address (parse_address sv.unicode sv.address_parser req.from)) _
      λ sender.
        >>=-ReadsOnly (allowed_recipients sv req.to) _ (allowed_recipients-ReadsOnly sv req.to)
          λ to. >>=-ReadsOnly (content_of sv req) _ (content_of-ReadsOnly sv req) λ c.
            >>=-ReadsOnly (λ s. (schedule sv s.now req.scheduled_at, s)) _ (λ s. (s.outage, refl))
              λ at.
                >>=-ReadsOnly (sending_domain sender.domain) _
                  (sending_domain-ReadsOnly sender.domain) λ domain s. (s.outage, refl)

limited-ReadsOnly : (b : Bool) (key : ApiKey) → ReadsOnly (limited b key)
unfolding limited sends_in_last_hour
limited-ReadsOnly false key s = (s.outage, refl)
limited-ReadsOnly true key s =
    >>=-ReadsOnly (calls (λ e. internal_error) (sends_in_last_hour key.id)) _
      (query-ReadsOnly (λ t. length (filter (sent_lately t.now key.id) t.messages)))
      (λ used t. (t.outage, refl)) s

pub prepare_send-ReadsOnly :
    (sv : Server) (key : ApiKey) (r : Request) → ReadsOnly (prepare_send sv key r)
unfolding prepare_send check_quota
prepare_send-ReadsOnly sv key r = check-ReadsOnly (enabled sv) _ λ _.
    check-ReadsOnly (read_body r.body) _ λ raw.
      check-ReadsOnly (decoded (sv.json.decode_request raw)) _ λ req.
        >>=-ReadsOnly (as_reply (build_message sv r key req raw)) _
          (build_message-ReadsOnly sv r key req raw)
          λ m.
            >>=-ReadsOnly (limited (ltb 0 key.quota_per_hour) key) _
              (limited-ReadsOnly (ltb 0 key.quota_per_hour) key) λ _ s. (s.outage, refl)

-- Either the message was accepted, or no table has changed.
abbrev IsKept : Store → Result Reply Reply × Store → Type 0
IsKept s x = ((either x.0).status ≡ 202) ⊎ Reads s x.1

enqueued-IsKept :
    (r : Result DbError (Accepted × Bool)) (s t : Store)
    → ((e : DbError) → r ≡ err e → Reads s t)
    → IsKept s (proceed (translated enqueue_problem r) (λ a. lift (ok (accepted_reply a))) t)
enqueued-IsKept (err e) s t h = inr (h e refl)
enqueued-IsKept (ok (a, replayed)) s t h = inl (unfold accepted_reply in refl)

prepared-IsKept :
    (sv : Server) (r : Result Reply NewMessage) (s t : Store)
    → Reads s t
    → IsKept s (
        proceed r
          (λ m. calls enqueue_problem (enqueue_message sv.unicode sv.sha256 m) >>= λ a.
            lift (ok (accepted_reply a)))
          t)
unfolding enqueue_message
prepared-IsKept sv (err reply) s t h = inr h
prepared-IsKept sv (ok m) s t h =
    enqueued-IsKept (enqueue_message sv.unicode sv.sha256 m t).0 s
      (enqueue_message sv.unicode sv.sha256 m t).1
      (λ e q. Reads-trans s h (transaction-Reads _ t q))

-- Where the reply is not 202 Accepted, whatever the cause, every table is as it was.
pub handle_send_refuses :
    (sv : Server) (key : ApiKey) (r : Request) (s : Store)
    → ((handle_send sv key r s).0.status ≡ 202) ⊎ Reads s (handle_send sv key r s).1
unfolding handle_send accept_send
handle_send_refuses sv key r s =
    prepared-IsKept sv (prepare_send sv key r s).0 s (prepare_send sv key r s).1
      (prepare_send-ReadsOnly sv key r s)
