-- ===== src/Worker/Tests.antt =====
-- A worker over a small database, and what the theorems on internal/worker say of it.
use ai_email.Base.{
  ℕ, ◌+◌, ◌≤◌, ◌≡◌, refl, true, none, some, [], ◌∷◌, inl, inr, codes, str_eq, join, runes,
  runes_from, decode, ok, ascii_only, trim_space, space_width, space_width_back, arith,
}
use ai_email.Delivery.{Outcome}
use ai_email.Store.{
  MessageStatus, MessageRow, EventRow, email_sent, DeliveryStatus, DeliveryRow, DomainStatus,
  DomainRow, Store, query, exec, and_then, insert_by, sort_by, update_where, truncate,
}
use ai_email.Store.Queue.{
  Claimed, claimed_of, claimable, has_id, record_event, set_status, transition, mark_failed,
  recent_dispatch, by_creation, chosen, among, claim_rows, unpack_recipients, read_claimed,
  claim_messages,
}
use ai_email.Store.Queue.Claim.{Unique}
use ai_email.Store.Queue.Marks.{dispatches}
use ai_email.Store.Domains.{
  DomainProof, signing_key_for_message, key_for_message, active_key_of, newest, found_or,
}
use ai_email.Store.Webhooks.{PendingDelivery, deliverable, mark_delivery_failed}
use ai_email.Mail.{is_control, contains_control, validate_subject}
use ai_email.Mail.Build.{write, write_set, write_unsubscribe, write_extra, write_headers, build}
use ai_email.Store.Tests.{sending_row, a_domain, a_store, a_store-Unique}
use ai_email.Dnsverify.{lookup_error, records, Resolver}
use ai_email.Webhook
use ai_email.Worker.{
  Worker, build_payload, publish, decode_headers, unsubscribe_url, sign_with, sign, fail, deliver,
  tick,
}
use ai_email.Worker.Deliver.{claimable_from, retry_at, deliver_settles}
use ai_email.Worker.Recorded.{sends_of, sends, claim_sends, tick_sends, tick_ceiling}
use ai_email.Worker.Webhooks.{Sender, settle_delivery, dispatch}
use ai_email.Worker.Webhooks.Settled.{redeliver_after, dispatch_settles}

abbrev a_worker : Worker
a_worker = record {
  sender = λ m. record { outcome = Outcome.temporary; reason = codes "engine returned 503" };
  has_keys = true;
  signer = some (λ key raw. ok raw);
  has_events = true;
  has_suppressions = true;
  unsubscribe_secret = codes "k";
  public_base_url = codes "https://b.org";
  max_per_hour = 5;
  unicode = ascii_only;
  mime = record {
    now = 0;
    format_date = λ t. codes "now";
    q_encode = λ s. s;
    quoted_printable = λ s. s;
    boundary = codes "b";
  };
  codec = record { hmac = λ k s. s; encode64 = λ s. s; decode64 = λ s. some s };
  sha256 = λ s. s;
  error_text = λ e. codes "no key";
  marshal = λ p. none;
  unmarshal_headers = λ s. none;
}

abbrev a_claimed : Claimed
a_claimed = claimed_of sending_row (codes "c@d.org" ∷ [])

-- The domain has no key, so the message fails.
abbrev failed_row : MessageRow
failed_row = record sending_row {
  status = MessageStatus.failed;
  locked_until = none;
  last_error = some (codes "could not sign message: no key");
  updated_at = 100;
}

deliver_settles_example :
    claimable 500 failed_row ≡ claimable_from (retry_at a_worker a_claimed a_store) 500
unfolding deliver sign signing_key_for_message key_for_message active_key_of newest found_or query
    and_then fail mark_failed transition exec set_status update_where has_id str_eq record_event
    publish build_payload truncate
deliver_settles_example =
    deliver_settles a_worker a_claimed a_store refl failed_row 500 (inr (inl refl)) refl

abbrev sent_at : ℕ → EventRow
sent_at t = record {
  message_id = codes "m0";
  event_type = email_sent;
  detail = codes "{}";
  occurred_at = t;
}

abbrev full_store : Store
full_store = record a_store {
  events = sent_at 1 ∷ sent_at 2 ∷ sent_at 3 ∷ sent_at 4 ∷ sent_at 5 ∷ [];
}

-- A worker whose engine accepts every message, and a store with a key to sign with and five recent
-- dispatches under a ceiling of six.
abbrev eager : Worker
eager = record a_worker {
  sender = λ m. record { outcome = Outcome.sent; reason = codes "accepted" };
  public_base_url = [];
  max_per_hour = 6;
}

abbrev keyed_store : Store
keyed_store = record full_store {
  signing_keys =
      record {
        id = 1;
        domain_id = 3;
        selector = codes "s";
        algorithm = codes "ed25519";
        wrapped_secret = codes "w";
        public_record = codes "p";
        active = true;
        created_at = 1;
      }
      ∷ [];
}

-- The engine gets the one message that waits.
one_sent : tick_sends eager keyed_store ≡ 1
unfolding tick_sends recent_dispatch claim_sends claim_messages and_then query read_claimed
    claim_rows among chosen by_creation sort_by claimable insert_by has_id str_eq unpack_recipients
    sends sends_of sign signing_key_for_message key_for_message active_key_of newest found_or
    sign_with unsubscribe_url decode_headers build validate_subject write_headers write write_set
    write_unsubscribe write_extra contains_control is_control join update_where trim_space
    space_width space_width_back runes runes_from decode
one_sent = refl

tick_ceiling_example :
    Unique (tick eager keyed_store).1.messages
    × (dispatches 100 (tick eager keyed_store).1.events
        ≡ dispatches 100 keyed_store.events + tick_sends eager keyed_store)
    × (dispatches 100 keyed_store.events + tick_sends eager keyed_store ≤ 6 + 9)
unfolding recent_dispatch
tick_ceiling_example =
    tick_ceiling eager keyed_store a_store-Unique refl (omega arith) (omega arith)

abbrev a_delivery : DeliveryRow
a_delivery = record {
  id = 4;
  endpoint_id = 1;
  event_id = codes "e";
  message_id = codes "m2";
  payload = codes "{}";
  status = DeliveryStatus.delivering;
  attempts = 8;
  next_attempt = 0;
  locked_until = some 120;
  last_error = none;
}

abbrev an_item : PendingDelivery
an_item = record {
  id = 4;
  url = codes "https://e.org";
  secret = codes "k";
  payload = codes "{}";
  attempts = 8;
}

abbrev busy : Sender
busy url secret payload = record { outcome = Webhook.retry; reason = codes "busy" }

abbrev with_delivery : Store
with_delivery = record a_store { deliveries = a_delivery ∷ [] }

dispatch_settles_example :
    deliverable 500 (record a_delivery {
      status = DeliveryStatus.failed;
      locked_until = none;
      last_error = some (codes "gave up: busy");
    })
    ≡ claimable_from (redeliver_after an_item Webhook.retry 100) 500
unfolding dispatch settle_delivery mark_delivery_failed exec update_where truncate
dispatch_settles_example =
    dispatch_settles busy an_item with_delivery refl
      (record a_delivery {
        status = DeliveryStatus.failed;
        locked_until = none;
        last_error = some (codes "gave up: busy");
      })
      500 (inl refl) refl

-- A new domain whose record is not there yet.
abbrev new_domain : DomainRow
new_domain = record a_domain { status = DomainStatus.pending; verified_at = none }

abbrev new_proof : DomainProof
new_proof = record {
  id = 3;
  name = codes "b.org";
  token = codes "tok";
  status = DomainStatus.pending;
}

abbrev no_records : Resolver
no_records name = records []

abbrev with_new : Store
with_new = record a_store { domains = new_domain ∷ [] }

abbrev down : Resolver
down name = lookup_error
