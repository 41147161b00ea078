-- ===== src/Worker/Deliver.antt =====
-- Where `deliver` of internal/worker/worker.go leaves the message it was given.
use ai_email.Base.{
  ℕ, ◌+◌, ◌≡◌, refl, ap, subst, Bool, true, false, inl, inr, [], Option, none, some, Result, ok,
  err, Bool-cases, Result-cases, if◌then◌else◌, Str, leb, Member,
}
use ai_email.Delivery.{Outcome}
use ai_email.Store.{MessageRow, DbError, Store, EventType}
use ai_email.Store.Keeps.{Up, Up-Steady, mark_sent-Up, mark_failed-Up, mark_deferred-Up}
use ai_email.Store.Queue.{Claimed, claimable, has_id}
use ai_email.Store.Queue.Marks.{mark_sent_final, mark_failed_final, mark_deferred_retries}
use ai_email.Worker.{
  Worker, max_attempts, backoff, publish, message_of, sign, fail, record_sent, defer_or_give_up,
  settle, deliver,
}
use ai_email.Worker.Keeps.{publish_keeps, suppress_if_address_is_bad_keeps, sign_keeps}

-- When a message may be claimed again: never, or from a time on.
abbrev pub claimable_from : Option ℕ → ℕ → Bool
claimable_from none t = false
claimable_from (some at) t = leb at t

-- A retry is made after a temporary answer to a signed message, while attempts are left.
unfoldable pub retry_after : Worker → Claimed → Outcome → ℕ → Option ℕ
retry_after w msg Outcome.temporary now =
    if leb max_attempts msg.attempts then none else some (now + backoff msg.attempts)
retry_after w msg _ now = none

unfoldable pub retry_at : Worker → Claimed → Store → Option ℕ
retry_at w msg s = elim (sign w msg s).0 [
  | err _ ↦ none
  | ok raw ↦ retry_after w msg (w.sender (message_of w msg raw)).outcome s.now
]

abbrev Rows : Str → Option ℕ → Store → Type 0
Rows id retry s =
    (r : MessageRow) (t : ℕ)
    → Member r s.messages
    → has_id id r ≡ true
    → claimable t r ≡ claimable_from retry t

publish-Rows :
    (retry : Option ℕ) (w : Worker) (id : Str) (event : EventType) (reason : Str) (attempt : ℕ)
    (s : Store)
    → Rows id retry s
    → Rows id retry (publish w id event reason attempt s)
publish-Rows retry w id event reason attempt s h =
    publish_keeps (Rows id retry) (λ t q. q) (λ t d q. q) w id event reason attempt s h

fail-Rows :
    (w : Worker) (msg : Claimed) (reason : Str) (s : Store)
    → Up s
    → Rows msg.id none (fail w msg reason s)
unfolding fail
fail-Rows w msg reason s up =
    let done = mark_failed-Up msg.id reason s up in
    rw (ap (λ (p : Result DbError (Unit {0}) × Store). p.0) done) (
      publish-Rows none w msg.id _ reason msg.attempts _
        (mark_failed_final msg.id reason s _ done).0)

sent_Rows : (w : Worker) (msg : Claimed) (s : Store) → Up s → Rows msg.id none (record_sent w msg s)
unfolding record_sent
sent_Rows w msg s up =
    let done = mark_sent-Up msg.id s up in
    rw (ap (λ (p : Result DbError (Unit {0}) × Store). p.0) done)
      (publish-Rows none w msg.id _ [] msg.attempts _ (mark_sent_final msg.id s _ done).0)

defer_Rows :
    (w : Worker) (msg : Claimed) (reason : Str) (s : Store)
    → Up s
    → Rows msg.id (retry_after w msg Outcome.temporary s.now) (defer_or_give_up w msg reason s)
unfolding defer_or_give_up retry_after
defer_Rows w msg reason s up = elim (Bool-cases (leb max_attempts msg.attempts)) [
  | inl e ↦ rw e (fail-Rows w msg _ s up)
  | inr e ↦
      let at = s.now + backoff msg.attempts in
      let done = mark_deferred-Up msg.id at reason s up in
      rw (e, ap (λ (p : Result DbError (Unit {0}) × Store). p.0) done)
        (publish-Rows (some at) w msg.id _ reason msg.attempts _
          (mark_deferred_retries msg.id at reason s _ done).0)
]

settle-Rows :
    (w : Worker) (msg : Claimed) (outcome : Outcome) (reason : Str) (s : Store)
    → Up s
    → Rows msg.id (retry_after w msg outcome s.now) (settle w msg outcome reason s)
unfolding settle retry_after
settle-Rows w msg Outcome.sent reason s up = sent_Rows w msg s up
settle-Rows w msg Outcome.temporary reason s up = defer_Rows w msg reason s up
settle-Rows w msg Outcome.permanent reason s up =
    fail-Rows w msg reason _
      (suppress_if_address_is_bad_keeps Up Up-Steady (λ t rows q. q) w msg reason s up)

-- Whatever the signer and the engine answer, `deliver` settles the message while the database is
-- up: after a temporary answer to an attempt before the eighth it can be claimed again when the
-- backoff has passed and not before, and in all other cases never.
pub deliver_settles :
    (w : Worker) (msg : Claimed) (s : Store)
    → s.outage ≡ []
    → (r : MessageRow) (t : ℕ) → Member r (deliver w msg s).messages
    → has_id msg.id r ≡ true
    → claimable t r ≡ claimable_from (retry_at w msg s) t
unfolding deliver retry_at
deliver_settles w msg s up =
    let up1 = sign_keeps Up Up-Steady (λ t id q. q) w msg s up in
    let now1 : (sign w msg s).1.now ≡ s.now =
      sign_keeps (λ t. t.now ≡ s.now) (λ t q. q) (λ t id q. q) w msg s refl in
    elim (Result-cases (sign w msg s).0) [
      | inr (e, h) ↦ rw (h, Member, retry_at, claimable_from) (fail-Rows w msg _ _ up1)
      | inl (raw, h) ↦
          rw (h, Member, retry_at, claimable_from)
            (subst
              (λ n. Rows msg.id (retry_after w msg (w.sender (message_of w msg raw)).outcome n) (
                settle w msg (w.sender (message_of w msg raw)).outcome
                  (w.sender (message_of w msg raw)).reason (sign w msg s).1))
              now1 (settle-Rows w msg _ _ _ up1))
    ]
