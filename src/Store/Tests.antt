-- ===== src/Store/Tests.antt =====
-- A small database, and what the theorems on internal/store say of it.
use ai_email.Base.{
  ◌≤◌, ◌≡◌, refl, ◌⊎◌, inl, inr, true, false, not, none, some, List, [], ◌∷◌, ◌++◌, filter, any,
  length, Member, Str, codes, str_eq, ok, err, if◌then◌else◌, ascii_only, arith,
}
use ai_email.Store.{
  MessageStatus, MessageRow, email_sent, EndpointRow, DomainStatus, DomainRow, SuppressionRow,
  Store, idempotency_mismatch, update_where, sort_by, insert_by,
}
use ai_email.Store.Queue.{claimable, by_creation, chosen, among, has_id, claim_rows}
use ai_email.Store.Queue.Claim.{Unique, IsClaimOf, claim_rows_sound}
use ai_email.Store.Queue.Once.{Call, claims, claims-Unique, sending_stranded}
use ai_email.Store.Webhooks.{is_delivery, enqueue_delivery}
use ai_email.Store.Webhooks.Fanout.{enqueue_delivery_again}
use ai_email.Store.Suppressions.{suppression_hash, filter_suppressed}
use ai_email.Store.Suppressions.Listed.{listed, filter_suppressed_splits}
use ai_email.Store.Messages.{NewMessage, accepted_of, row_of, pack_recipients, enqueue_message}
use ai_email.Store.Messages.Idempotent.{enqueue_twice}

abbrev pub a_row : MessageRow
a_row = record {
  id = codes "m1";
  api_key_id = 7;
  domain_id = 3;
  status = MessageStatus.queued;
  from_address = codes "a@b.org";
  recipients = codes "c@d.org" ∷ [];
  recipients_encrypted = [];
  recipients_hash = [];
  subject = codes "Hi";
  body_html = [];
  body_text = codes "text";
  headers = [];
  tags = [];
  attempts = 0;
  scheduled_at = none;
  locked_until = none;
  last_error = none;
  created_at = 5;
  updated_at = 5;
  signed_at = none;
}

abbrev pub sending_row : MessageRow
sending_row = record a_row {
  id = codes "m2";
  status = MessageStatus.sending;
  locked_until = some 20;
  created_at = 4;
}

abbrev pub an_endpoint : EndpointRow
an_endpoint = record { id = 1; url = codes "https://e.org/hook"; secret = codes "k"; active = true }

abbrev pub a_domain : DomainRow
a_domain = record {
  id = 3;
  name = codes "b.org";
  verification_token = codes "tok";
  status = DomainStatus.verified;
  verified_at = some 1;
  last_checked_at = none;
}

abbrev pub a_suppression : SuppressionRow
a_suppression = record {
  address = codes "x@d.org";
  address_hash = codes "x@d.org";
  reason = codes "manual";
  detail = [];
  message_id = none;
  created_at = 2;
}

abbrev pub a_store : Store
a_store = record {
  now = 100;
  outage = [];
  keeper = none;
  messages = a_row ∷ sending_row ∷ [];
  events = [];
  endpoints = an_endpoint ∷ [];
  deliveries = [];
  domains = a_domain ∷ [];
  suppressions = a_suppression ∷ [];
  signing_keys = [];
  idempotency = [];
  api_keys = [];
}

pub a_store-Unique : Unique a_store.messages
unfolding str_eq
a_store-Unique = ((refl, tt), (tt, tt))

claim_rows_sound_example :
    (length (claim_rows 10 300 a_store).0 ≤ 10)
    × ((c : MessageRow)
        → Member c (claim_rows 10 300 a_store).0
        → (r : MessageRow) × Member r a_store.messages × IsClaimOf 100 300 c r)
claim_rows_sound_example = claim_rows_sound 10 300 a_store a_store-Unique

abbrev two_calls : List Call
two_calls =
    record { at = 100; limit = 10; lock_for = 300 }
    ∷ record { at = 200; limit = 10; lock_for = 300 }
    ∷ []

-- The second call is made after the end of the first one's lock.
abbrev late_calls : List Call
late_calls =
    record { at = 100; limit = 10; lock_for = 5 }
    ∷ record { at = 200; limit = 10; lock_for = 5 }
    ∷ []

-- The row in the first place is handed out, once.
one_claimed : length (claims two_calls a_store).0 ≡ 1
unfolding claims claim_rows chosen by_creation sort_by insert_by claimable among has_id str_eq
    update_where
one_claimed = refl

claims-Unique_example : Unique (claims two_calls a_store).0
claims-Unique_example = claims-Unique two_calls a_store a_store-Unique ((omega arith, tt), (tt, tt))

sending_stranded_example :
    Member sending_row (claims late_calls a_store).1.messages
    × ((d : MessageRow)
        → Member d (claims late_calls a_store).0
        → str_eq d.id sending_row.id ≡ false)
sending_stranded_example =
    sending_stranded late_calls a_store sending_row a_store-Unique (inr (inl refl)) refl

abbrev m2 : Str
m2 = codes "m2"

abbrev sent_store : Store
sent_store = record a_store {
  messages =
      a_row
      ∷ record sending_row {
        status = MessageStatus.sent;
        locked_until = none;
        last_error = none;
        updated_at = 100;
      }
      ∷ [];
  events =
      record { message_id = m2; event_type = email_sent; detail = codes "{}"; occurred_at = 100 }
      ∷ [];
}

abbrev half : Store
half = record a_store { outage = false ∷ true ∷ [] }

enqueue_delivery_again_example :
    ((e : EndpointRow)
      → Member e (an_endpoint ∷ [])
      → e.active ≡ true
      → any
          (is_delivery e.id (codes "e"))
          (enqueue_delivery (codes "e") m2 (codes "{}") a_store).1.deliveries
        ≡ true)
    × (enqueue_delivery
          (codes "e")
          m2
          (codes "[]")
          (enqueue_delivery (codes "e") m2 (codes "{}") a_store).1
        ≡ (ok tt, (enqueue_delivery (codes "e") m2 (codes "{}") a_store).1))
enqueue_delivery_again_example =
    enqueue_delivery_again (codes "e") m2 (codes "{}") m2 (codes "[]") a_store refl

abbrev id_digest : Str → Str
id_digest s = s

abbrev c_address : Str
c_address = codes "C@d.org"

filter_suppressed_splits_example :
    ((filter_suppressed ascii_only id_digest (c_address ∷ codes "x@d.org" ∷ []) a_store).0
      ≡ ok (
        filter
            (λ a. not (listed ascii_only id_digest a_store a))
            (c_address ∷ codes "x@d.org" ∷ []),
        filter (listed ascii_only id_digest a_store) (c_address ∷ codes "x@d.org" ∷ []),
      ))
    ⊎ (false ≡ true)
filter_suppressed_splits_example =
    filter_suppressed_splits ascii_only id_digest (c_address ∷ codes "x@d.org" ∷ []) a_store

abbrev pub a_request : NewMessage
a_request = record {
  id = codes "m3";
  api_key_id = 7;
  domain_id = 3;
  from_address = codes "a@b.org";
  recipients = codes "c@d.org" ∷ [];
  subject = codes "Hi";
  body_html = [];
  body_text = codes "text";
  headers = [];
  tags = [];
  scheduled_at = none;
  idempotency_key = codes "key";
  request_hash = codes "h1";
}

abbrev other_request : NewMessage
other_request = record a_request {
  id = codes "m4";
  subject = codes "Ho";
  request_hash = codes "h2";
}

abbrev packed : Str × List Str × List Str
packed = ([], suppression_hash ascii_only id_digest (codes "c@d.org") ∷ [], codes "c@d.org" ∷ [])

enqueue_twice_example :
    let accepted = accepted_of (row_of a_request packed 100) in
    let (first, t) = enqueue_message ascii_only id_digest a_request a_store in
    (first ≡ ok (accepted, false))
    × (t.messages ≡ a_store.messages ++ (row_of a_request packed 100 ∷ []))
    × (enqueue_message ascii_only id_digest other_request t ≡ (
      (if str_eq (codes "h1") (codes "h2") then ok (accepted, true) else err idempotency_mismatch),
      t,
    ))
unfolding pack_recipients has_id str_eq
enqueue_twice_example =
    enqueue_twice ascii_only id_digest a_request other_request a_store b'k' (codes "ey") packed refl
      refl refl refl refl refl refl
