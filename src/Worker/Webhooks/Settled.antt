-- ===== src/Worker/Webhooks/Settled.antt =====
-- Where the dispatcher of internal/worker/webhooks.go leaves a delivery.
use ai_email.Base.{
  ℕ, ◌+◌, ◌≡◌, refl, ap, ◌∙◌, Bool, true, false, ◌&&◌, inl, inr, List, [], Option, none, some,
  Bool-cases, clash, if◌then◌else◌, Str, leb, Member,
}
use ai_email.Store.{DeliveryRow, Store, exec, update_where}
use ai_email.Store.Queue.Claim.{mem-update_where}
use ai_email.Store.Webhooks.{
  PendingDelivery, deliverable, has_delivery_id, mark_delivery_succeeded, reschedule_delivery,
  mark_delivery_failed,
}
use ai_email.Webhook.{Outcome}
use ai_email.Worker.{backoff}
use ai_email.Worker.Deliver.{claimable_from}
use ai_email.Worker.Webhooks.{Sender, max_webhook_tries, settle_delivery, dispatch}

-- When a delivery is tried again, if ever.
unfoldable pub redeliver_after : PendingDelivery → Outcome → ℕ → Option ℕ
redeliver_after item Outcome.retry now =
    if leb max_webhook_tries item.attempts then none else some (now + backoff item.attempts)
redeliver_after item _ now = none

changed :
    (id : ℕ) (f : DeliveryRow → DeliveryRow) (r : DeliveryRow) (rows : List DeliveryRow)
    → Member r (update_where (has_delivery_id id) f rows)
    → has_delivery_id id r ≡ true
    → (q : DeliveryRow) × (r ≡ f q)
changed id f r rows m h =
    let (q, n, c) = mem-update_where (has_delivery_id id) f r rows m in
    elim c [ inl (t, e) ↦ (q, e) | inr (t, e) ↦ absurd (clash h (ap (has_delivery_id id) e ∙ t)) ]

abbrev Rows : ℕ → Option ℕ → Store → Type 0
Rows id again s =
    (r : DeliveryRow) (t : ℕ)
    → Member r s.deliveries
    → has_delivery_id id r ≡ true
    → deliverable t r ≡ claimable_from again t

failed_Rows :
    (id : ℕ) (reason : Str) (s : Store)
    → s.outage ≡ []
    → Rows id none (mark_delivery_failed id reason s).1
unfolding mark_delivery_failed exec deliverable
failed_Rows id reason s up r t m h =
    let (q, e) = changed id _ r s.deliveries (rw up at m) h in ap (deliverable t) e

succeeded_Rows :
    (id : ℕ) (s : Store) → s.outage ≡ [] → Rows id none (mark_delivery_succeeded id s).1
unfolding mark_delivery_succeeded exec deliverable
succeeded_Rows id s up r t m h =
    let (q, e) = changed id _ r s.deliveries (rw up at m) h in ap (deliverable t) e

and_true : (b : Bool) → (b && true) ≡ b
and_true true = refl
and_true false = refl

rescheduled_Rows :
    (id at : ℕ) (reason : Str) (s : Store)
    → s.outage ≡ []
    → Rows id (some at) (reschedule_delivery id at reason s).1
unfolding reschedule_delivery exec deliverable
rescheduled_Rows id at reason s up r t m h =
    let (q, e) = changed id _ r s.deliveries (rw up at m) h in
    ap (deliverable t) e ∙ and_true (leb at t)

-- Whatever the endpoint answers, the dispatcher settles the delivery while the database is up: an
-- answer that asks for a retry, before the eighth attempt, makes it due when the backoff has passed
-- and not before; in all other cases it is never tried again.
pub dispatch_settles :
    (send : Sender) (item : PendingDelivery) (s : Store)
    → s.outage ≡ []
    → (r : DeliveryRow) (t : ℕ) → Member r (dispatch send item s).deliveries
    → has_delivery_id item.id r ≡ true
    → deliverable t r
      ≡ claimable_from
          (redeliver_after item (send item.url item.secret item.payload).outcome s.now)
          t
unfolding dispatch settle_delivery redeliver_after
dispatch_settles send item s up =
    let answer = send item.url item.secret item.payload in by_outcome answer.outcome answer.reason
  where
    by_outcome :
        (outcome : Outcome) (reason : Str)
        → Rows item.id (redeliver_after item outcome s.now) (settle_delivery item outcome reason s)
    by_outcome Outcome.delivered reason = succeeded_Rows item.id s up
    by_outcome Outcome.drop reason = failed_Rows item.id reason s up
    by_outcome Outcome.retry reason = elim (Bool-cases (leb max_webhook_tries item.attempts)) [
      | inl e ↦ rw (e, Member, claimable_from) (failed_Rows item.id _ s up)
      | inr e ↦ rw (e, Member, claimable_from) (rescheduled_Rows item.id _ reason s up)
    ]
