-- ===== src/Httpapi/Send/Accepts.antt =====
-- What `handleSend` of internal/httpapi/send.go accepts.
use ai_email.Base.{
  ℕ, ◌≤◌, ◌<◌, ◌≡◌, refl, sym, ap, ◌∙◌, subst, Option, none, some, List, Str, ok, Member, All,
  length, ok-inj,
}
use ai_email.Httpapi.{SendRequest, Request, Server, from_address}
use ai_email.Httpapi.Send.{
  blame, check_headers, schedule, Content, content_of, allowed_recipients, sending_domain,
  message_of, build_message,
}
use ai_email.Mail.{
  parse_address, parse_recipients, validate_subject, validate_custom_header, max_recipients,
}
use ai_email.Mail
use ai_email.Store.{Store, DomainStatus, DomainRow}
use ai_email.Store.Keys.{ApiKey}
use ai_email.Store.Messages.{Domain, NewMessage}
use ai_email.Store.Reads.{Reads, Reads-trans}
use ai_email.Store.Steps.{lift, >>=-made}
use ai_email.Httpapi.Send.Made.{
  IsAllowed, recipients_made, content_made, schedule_made, check_headers-All, domain_made,
  blame_made,
}
use ai_email.Httpapi.Send.Refuses.{allowed_recipients-ReadsOnly, content_of-ReadsOnly}

-- A message that may be queued for a request, by what the store holds.
pub record IsSendable (sv : Server) (s : Store) (req : SendRequest) (m : NewMessage) : Type 0 where
  pub sender : Mail.Address
  pub valid_sender : parse_address sv.unicode sv.address_parser req.from ≡ ok sender
  pub from_sender : m.from_address ≡ sender.email
  pub domain : DomainRow
  pub registered : Member domain s.domains
  pub own_domain : domain.name ≡ sender.domain
  pub linked : domain.id ≡ m.domain_id
  pub verified : domain.status ≡ DomainStatus.verified
  pub some_recipient : 0 < length m.recipients
  pub few_recipients : length m.recipients ≤ 50
  pub allowed : All (IsAllowed sv s) m.recipients
  pub valid_subject : validate_subject m.subject ≡ none
  pub valid_headers :
      All (λ (h : Str × Str). validate_custom_header sv.unicode h.0 h.1 ≡ none) req.headers
  pub not_past : (at : ℕ) → m.scheduled_at ≡ some at → s.now ≤ at

message_of-IsSendable :
    (sv : Server) (r : Request) (key : ApiKey) (req : SendRequest) (raw : Str) (s u : Store)
    (sender : Mail.Address) (to : List Str) (c : Content) (at : Option ℕ) (domain : Domain)
    → Reads s u
    → parse_address sv.unicode sv.address_parser req.from ≡ ok sender
    → (0 < length to) × (length to ≤ 50) × All (IsAllowed sv s) to
    → (validate_subject c.subject ≡ none) × (check_headers sv req.headers ≡ ok tt)
    → schedule sv u.now req.scheduled_at ≡ ok at
    → (row : DomainRow) × Member row u.domains
      × (row.name ≡ sender.domain)
      × (row.id ≡ domain.id)
      × (row.status ≡ DomainStatus.verified)
    → IsSendable sv s req (message_of sv r key req raw sender to c at domain)
message_of-IsSendable sv r key req raw s u sender to c at domain (o, reads) parsed
      (left, few, allowed) (good, headers) timed (row, m, n, i, v) =
    record {
      sender = sender;
      valid_sender = parsed;
      from_sender = refl;
      domain = row;
      registered = subst (λ (x : Store). Member row x.domains) reads m;
      own_domain = n;
      linked = i;
      verified = v;
      some_recipient = left;
      few_recipients = few;
      allowed = allowed;
      valid_subject = good;
      valid_headers = check_headers-All sv s req.headers headers;
      not_past = λ n e.
          schedule_made sv s s.now req.scheduled_at n
            (ap (λ (x : Store). schedule sv x.now req.scheduled_at) (sym reads) ∙ timed ∙ ap ok e);
    }

-- A message that `buildMessage` makes is from an address in a verified domain of the store, to 1 to
-- 50 recipients none of whom is suppressed, with a valid subject and valid headers, and is not
-- scheduled for the past.
pub build_message-IsSendable :
    (sv : Server) (r : Request) (key : ApiKey) (req : SendRequest) (raw : Str) (s : Store)
    (m : NewMessage)
    → (build_message sv r key req raw s).0 ≡ ok m
    → IsSendable sv s req m
unfolding build_message
build_message-IsSendable sv r key req raw s m h =
    let (sender, a, h, _) =
      >>=-made (lift (blame from_address (parse_address sv.unicode sv.address_parser req.from))) _ s
        h in
    let (to, b, h, _) = >>=-made (allowed_recipients sv req.to) _ s h in
    let t = (allowed_recipients sv req.to s).1 in
    let (c, d, h, _) = >>=-made (content_of sv req) _ t h in
    let u = (content_of sv req t).1 in
    let (at, e, h, _) = >>=-made (λ x. (schedule sv x.now req.scheduled_at, x)) _ u h in
    let (domain, f, h, _) = >>=-made (sending_domain sender.domain) _ u h in
    let (o, reads) =
      Reads-trans s (allowed_recipients-ReadsOnly sv req.to s) (content_of-ReadsOnly sv req t) in
    subst (IsSendable sv s req) (ok-inj h) (
      message_of-IsSendable sv r key req raw s u sender to c at domain (o, reads)
        (blame_made from_address _ a) (recipients_made sv s req.to to b)
        (content_made sv s req c t d) e (domain_made sv s sender.domain domain u f))
