-- ===== src/Worker/Webhooks.antt =====
-- internal/worker/webhooks.go: the dispatcher of webhook deliveries and the domain checker.
pub mod Settled
pub mod Trust
use ai_email.Base.{
  ℕ, ◌+◌, ◌*◌, Bool, true, false, Option, none, some, List, [], ◌∷◌, ◌++◌, length, Str, codes,
  Result, ok, err, leb, Unicode, if◌then◌else◌,
}
use ai_email.Dnsverify.{Failure, Resolver, verify, recheckable}
use ai_email.Store.{Store, DbError, Db, continue}
use ai_email.Store.Webhooks.{
  PendingDelivery, claim_deliveries, mark_delivery_succeeded, reschedule_delivery,
  mark_delivery_failed,
}
use ai_email.Store.Domains.{
  DomainProof, domains_due_for_recheck, mark_domain_verified, suspend_domain, touch_domain_check,
}
use ai_email.Webhook.{Outcome, Answer}
use ai_email.Worker.{minute, backoff}

abbrev pub webhook_batch : ℕ
webhook_batch = 20

abbrev pub webhook_lock : ℕ
webhook_lock = 2 * minute

abbrev pub max_webhook_tries : ℕ
max_webhook_tries = 8

-- The interface `WebhookSender`.
abbrev pub Sender : Type 0
Sender = Str → Str → Str → Answer

unfoldable pub settle_delivery : PendingDelivery → Outcome → Str → Store → Store
settle_delivery item Outcome.delivered reason s = (mark_delivery_succeeded item.id s).1
settle_delivery item Outcome.drop reason s = (mark_delivery_failed item.id reason s).1
settle_delivery item Outcome.retry reason s =
    if leb max_webhook_tries item.attempts
    then (mark_delivery_failed item.id (codes "gave up: " ++ reason) s).1
    else (reschedule_delivery item.id (s.now + backoff item.attempts) reason s).1

-- `Dispatcher.deliver` and `Dispatcher.tick`
unfoldable pub dispatch : Sender → PendingDelivery → Store → Store
dispatch send item s =
    let answer = send item.url item.secret item.payload in
    settle_delivery item answer.outcome answer.reason s

unfoldable pub dispatch_all : Sender → List PendingDelivery → Store → Store
dispatch_all send [] s = s
dispatch_all send (item ∷ claimed) s = dispatch_all send claimed (dispatch send item s)

unfoldable pub dispatch_tick : Sender → Db ℕ
dispatch_tick send s =
    let (r, s1) = claim_deliveries webhook_batch webhook_lock s in
    continue r (λ claimed t. (ok (length claimed), dispatch_all send claimed t)) (λ e t. (err e, t))
      s1

abbrev pub domain_recheck_interval : ℕ
domain_recheck_interval = 24 * (60 * minute)

abbrev pub domain_batch : ℕ
domain_batch = 50

-- The switch of `DomainChecker.tick`, for one domain.
unfoldable pub settle_domain : Option Failure → ℕ → Store → Store
settle_domain none id s = (mark_domain_verified id s).1
settle_domain (some problem) id s =
    if recheckable problem then (touch_domain_check id s).1 else (suspend_domain id s).1

unfoldable pub recheck : Unicode → Resolver → DomainProof → Store → Store
recheck u lookup domain s = settle_domain (verify u lookup domain.name domain.token) domain.id s

unfoldable pub recheck_all : Unicode → Resolver → List DomainProof → Store → Store
recheck_all u lookup [] s = s
recheck_all u lookup (d ∷ due) s = recheck_all u lookup due (recheck u lookup d s)

-- `DomainChecker.tick`
unfoldable pub domain_tick : Unicode → Resolver → Db (Unit {0})
domain_tick u lookup s =
    let (r, s1) = domains_due_for_recheck domain_recheck_interval domain_batch s in
    continue r (λ due t. (ok tt, recheck_all u lookup due t)) (λ e t. (err e, t)) s1
