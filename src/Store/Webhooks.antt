-- ===== src/Store/Webhooks.antt =====
-- internal/store/webhooks.go: the endpoints and the queue of their deliveries. The foreign key of
-- `message_id`, by which a delivery for an id without a message is refused (no code deletes a
-- message), and the JSON type of the payload's column are not modelled.
pub mod Fanout
use ai_email.Base.{
  ℕ, suc, ◌+◌, Bool, true, false, ◌&&◌, Option, none, some, List, [], ◌∷◌, ◌++◌, map, filter, any,
  Str, str_eq, Result, ok, err, ltb, leb, ◌==◌, take, if◌then◌else◌,
}
use ai_email.Store.{
  EndpointRow, DeliveryStatus, DeliveryRow, Store, Db, query, exec, sort_by, update_where, truncate,
}
use ai_email.Store.Queue.{unlocked}

pub record Endpoint : Type 0 where
  pub id : ℕ
  pub url : Str
  pub secret : Str

-- The next number of a BIGSERIAL column: above all that are in use.
unfoldable pub next_id {ℓ} : {A : Type ℓ} → (A → ℕ) → List A → ℕ
next_id key [] = 1
next_id key (r ∷ rows) = let n = next_id key rows in if leb n (key r) then suc (key r) else n

-- `CreateEndpoint`
unfoldable pub create_endpoint : Str → Str → Db Endpoint
create_endpoint url secret = query λ s.
    let id = next_id (λ (e : EndpointRow). e.id) s.endpoints in
    (
      record { id = id; url = url; secret = secret },
      record s {
        endpoints =
            s.endpoints ++ (record { id = id; url = url; secret = secret; active = true } ∷ []);
      },
    )

abbrev pub is_active : EndpointRow → Bool
is_active e = e.active

-- `ActiveEndpoints`
unfoldable pub active_endpoints : Db (List Endpoint)
active_endpoints = query λ s. (
  map (λ (e : EndpointRow). record { id = e.id; url = e.url; secret = e.secret })
      (sort_by (λ (e : EndpointRow). e.id) (filter is_active s.endpoints)),
  s,
)

-- The unique key (endpoint_id, event_id).
unfoldable pub is_delivery : ℕ → Str → DeliveryRow → Bool
is_delivery endpoint event_id d = d.endpoint_id == endpoint && str_eq d.event_id event_id

-- The row that is inserted for one endpoint.
abbrev pub new_delivery : ℕ → Str → Str → Str → ℕ → ℕ → DeliveryRow
new_delivery endpoint event_id message_id payload now id = record {
  id = id;
  endpoint_id = endpoint;
  event_id = event_id;
  message_id = message_id;
  payload = payload;
  status = DeliveryStatus.pending;
  attempts = 0;
  next_attempt = now;
  locked_until = none;
  last_error = none;
}

-- One row of the INSERT … SELECT, with ON CONFLICT DO NOTHING.
unfoldable pub queue_one : Str → Str → Str → ℕ → ℕ → List DeliveryRow → List DeliveryRow
queue_one event_id message_id payload now endpoint rows =
    if any (is_delivery endpoint event_id) rows
    then rows
    else rows
      ++ (new_delivery endpoint event_id message_id payload now
            (next_id (λ (d : DeliveryRow). d.id) rows)
          ∷ [])

unfoldable pub queue_all :
    Str → Str → Str → ℕ → List EndpointRow → List DeliveryRow → List DeliveryRow
queue_all event_id message_id payload now [] rows = rows
queue_all event_id message_id payload now (e ∷ endpoints) rows =
    queue_all event_id message_id payload now endpoints
      (queue_one event_id message_id payload now e.id rows)

-- `EnqueueDelivery`
unfoldable pub enqueue_delivery : Str → Str → Str → Db (Unit {0})
enqueue_delivery event_id message_id payload = exec λ s. record s {
  deliveries =
      queue_all event_id message_id payload s.now (filter is_active s.endpoints) s.deliveries;
}

pub record PendingDelivery : Type 0 where
  pub id : ℕ
  pub url : Str
  pub secret : Str
  pub payload : Str
  pub attempts : ℕ

abbrev is_pending : DeliveryStatus → Bool
is_pending DeliveryStatus.pending = true
is_pending _ = false

-- The WHERE clause of the subquery, and its rows.
unfoldable pub deliverable : ℕ → DeliveryRow → Bool
deliverable now d = is_pending d.status && leb d.next_attempt now && unlocked now d.locked_until

unfoldable pub chosen_deliveries : ℕ → ℕ → List DeliveryRow → List DeliveryRow
chosen_deliveries now limit rows =
    take limit (sort_by (λ (d : DeliveryRow). d.next_attempt) (filter (deliverable now) rows))

abbrev pub lock_delivery : ℕ → ℕ → DeliveryRow → DeliveryRow
lock_delivery now lock_for d = record d {
  status = DeliveryStatus.delivering;
  attempts = d.attempts + 1;
  locked_until = some (now + lock_for);
}

-- What the UPDATE returns for a row: nothing where its endpoint is gone.
unfoldable pub pending_of : List EndpointRow → DeliveryRow → List PendingDelivery
pending_of [] d = []
pending_of (e ∷ endpoints) d =
    if e.id == d.endpoint_id
    then record {
      id = d.id;
      url = e.url;
      secret = e.secret;
      payload = d.payload;
      attempts = d.attempts;
    }
      ∷ []
    else pending_of endpoints d

unfoldable pub pending_all : List EndpointRow → List DeliveryRow → List PendingDelivery
pending_all endpoints [] = []
pending_all endpoints (d ∷ rows) = pending_of endpoints d ++ pending_all endpoints rows

-- The join condition and `d.id IN (…)`.
unfoldable pub taken : List EndpointRow → List DeliveryRow → DeliveryRow → Bool
taken endpoints picked d =
    any (λ (e : EndpointRow). e.id == d.endpoint_id) endpoints
    && any (λ (p : DeliveryRow). p.id == d.id) picked

-- `ClaimDeliveries`
unfoldable pub claim_deliveries : ℕ → ℕ → Db (List PendingDelivery)
claim_deliveries limit lock_for = query λ s.
    let picked = chosen_deliveries s.now limit s.deliveries in
    (
      pending_all s.endpoints
          (map (lock_delivery s.now lock_for) (filter (taken s.endpoints picked) s.deliveries)),
      record s {
        deliveries =
            update_where (taken s.endpoints picked) (lock_delivery s.now lock_for) s.deliveries;
      },
    )

abbrev pub has_delivery_id : ℕ → DeliveryRow → Bool
has_delivery_id id d = d.id == id

-- `MarkDeliverySucceeded`, `RescheduleDelivery` and `MarkDeliveryFailed`
unfoldable pub mark_delivery_succeeded : ℕ → Db (Unit {0})
mark_delivery_succeeded id = exec λ s. record s {
  deliveries =
      update_where (has_delivery_id id)
        (λ d. record d { status = DeliveryStatus.delivered; locked_until = none }) s.deliveries;
}

unfoldable pub reschedule_delivery : ℕ → ℕ → Str → Db (Unit {0})
reschedule_delivery id at reason = exec λ s. record s {
  deliveries =
      update_where (has_delivery_id id)
        (λ d. record d {
          status = DeliveryStatus.pending;
          next_attempt = at;
          locked_until = none;
          last_error = some (truncate reason 500);
        })
        s.deliveries;
}

unfoldable pub mark_delivery_failed : ℕ → Str → Db (Unit {0})
mark_delivery_failed id reason = exec λ s. record s {
  deliveries =
      update_where (has_delivery_id id)
        (λ d. record d {
          status = DeliveryStatus.failed;
          locked_until = none;
          last_error = some (truncate reason 500);
        })
        s.deliveries;
}
