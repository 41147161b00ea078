-- ===== src/Worker/Recorded.antt =====
-- What `tick` of internal/worker/worker.go hands to the engine, and that each message that the engine
-- accepts is counted by `SentInLastHour` of internal/store/queue.go.
use ai_email.Base.{
  ℕ, ◌+◌, ◌≤◌, ◌<◌, ◌≡◌, refl, ap, sym, subst, inl, inr, List, [], ◌∷◌, Result, ok, err, Bool-cases,
  Result-cases, if◌then◌else◌, Str, leb, arith,
}
use ai_email.Delivery.{Outcome}
use ai_email.Store.{
  MessageRow, EventType, email_sent, email_failed, email_deferred, EventRow, Store, DbError, exec,
  query, and_then, update_where,
}
use ai_email.Store.Keeps.{
  Up, Up-Steady, Steady, exec-Up, and_then_goes, query_moves, and_then_moves, mark_sent-Up,
  mark_failed-Up, mark_deferred-Up,
}
use ai_email.Store.Queue.{
  Claimed, has_id, is_sent, recent_dispatch, record_event, set_status, set_deferred, transition,
  mark_sent, mark_deferred, mark_failed, claim_rows, claim_messages,
}
use ai_email.Store.Queue.Claim.{Unique}
use ai_email.Store.Queue.Marks.{dispatches, one_more}
use ai_email.Worker.{
  Worker, batch_size, lock_duration, max_attempts, backoff, message_of, sign, fail, record_sent,
  defer_or_give_up, settle, deliver, deliver_all, claim_and_deliver, publish, tick,
}
use ai_email.Worker.Ceiling.{tick_up, tick_recorded}
use ai_email.Worker.Keeps.{publish_keeps, suppress_if_address_is_bad_keeps, sign_keeps}

-- The engine accepts the message: it is sent.
abbrev accepted : Outcome → ℕ
accepted Outcome.sent = 1
accepted _ = 0

-- How many messages the engine accepts, of one message that is delivered, of a batch, and of what a
-- call of `tick` claims.
unfoldable pub sends_of : Worker → Claimed → Store → ℕ
sends_of w msg s = elim (sign w msg s).0 [
  | err _ ↦ 0
  | ok raw ↦ accepted (w.sender (message_of w msg raw)).outcome
]

unfoldable pub sends : Worker → List Claimed → Store → ℕ
sends w [] s = 0
sends w (msg ∷ claimed) s = sends_of w msg s + sends w claimed (deliver w msg s)

unfoldable pub claim_sends : Worker → Store → ℕ
claim_sends w s =
    let (r, t) = claim_messages batch_size lock_duration s in
    elim r [ err _ ↦ 0 | ok claimed ↦ sends w claimed t ]

unfoldable pub tick_sends : Worker → Store → ℕ
tick_sends w s = if leb w.max_per_hour (dispatches s.now s.events) then 0 else claim_sends w s

-- The database is up, the time is `now`, and `n` dispatches are counted.
abbrev Exact : ℕ → ℕ → Store → Type 0
Exact now n s = Up s × (s.now ≡ now) × (dispatches now s.events ≡ n)

Exact-Steady : (now n : ℕ) → Steady (Exact now n)
Exact-Steady now n s (up, clock, c) = (Up-Steady s up, clock, c)

counted_as : EventType → ℕ
counted_as event = if is_sent event then 1 else 0

counted_now :
    (now : ℕ) (e : EventRow)
    → e.occurred_at ≡ now
    → (if recent_dispatch now e then 1 else 0) ≡ counted_as e.event_type
unfolding recent_dispatch counted_as
counted_now now e h = ground arith

event-Exact :
    (now n : ℕ) (id : Str) (event : EventType) (detail : Str) (s : Store)
    → Exact now n s
    → Exact now (n + counted_as event) (record_event id event detail s).1
unfolding record_event
event-Exact now n id event detail s (up, clock, c) =
    subst (λ (p : Result DbError (Unit {0}) × Store). Exact now (n + counted_as event) p.1)
      (sym (exec-Up _ s up))
      (up, clock, omega (arith, c, one_more now s.events _, counted_now now _ clock))

marked-Exact :
    (now n : ℕ) (id : Str) (f : Store → MessageRow → MessageRow) (event : EventType) (detail : Str)
    (s : Store)
    → Exact now n s
    → Exact now
        (n + counted_as event)
        (and_then
          (exec (λ t. record t { messages = update_where (has_id id) (f t) t.messages }))
          (λ _. record_event id event detail)
          s).1
marked-Exact now n id f event detail s (up, clock, c) =
    subst (λ (p : Result DbError (Unit {0}) × Store). Exact now (n + counted_as event) p.1)
      (sym (and_then_goes _ _ s (exec-Up _ s up)))
      (event-Exact now n id event detail _ (up, clock, c))

failed-Exact :
    (now n : ℕ) (id reason : Str) (s : Store)
    → Exact now n s
    → Exact now n (mark_failed id reason s).1
unfolding mark_failed transition set_status counted_as
failed-Exact now n id reason s h =
    let (up, clock, c) = marked-Exact now n id _ email_failed reason s h in
    (up, clock, omega (arith, c))

sent-Exact :
    (now n : ℕ) (id : Str) (s : Store) → Exact now n s → Exact now (n + 1) (mark_sent id s).1
unfolding mark_sent transition set_status counted_as
sent-Exact now n id s h = marked-Exact now n id _ email_sent [] s h

deferred-Exact :
    (now n : ℕ) (id : Str) (at : ℕ) (reason : Str) (s : Store)
    → Exact now n s
    → Exact now n (mark_deferred id at reason s).1
unfolding mark_deferred set_deferred counted_as
deferred-Exact now n id at reason s h =
    let (up, clock, c) = marked-Exact now n id _ email_deferred reason s h in
    (up, clock, omega (arith, c))

publish-Exact :
    (now n : ℕ) (w : Worker) (id : Str) (event : EventType) (reason : Str) (attempt : ℕ) (s : Store)
    → Exact now n s
    → Exact now n (publish w id event reason attempt s)
publish-Exact now n w id event reason attempt s h =
    publish_keeps (Exact now n) (Exact-Steady now n) (λ t rows q. q) w id event reason attempt s h

fail-Exact :
    (now n : ℕ) (w : Worker) (msg : Claimed) (reason : Str) (s : Store)
    → Exact now n s
    → Exact now n (fail w msg reason s)
unfolding fail
fail-Exact now n w msg reason s h =
    rw (ap (λ (p : Result DbError (Unit {0}) × Store). p.0) (mark_failed-Up msg.id reason s h.0))
      (publish-Exact now n w msg.id _ reason msg.attempts _ (failed-Exact now n msg.id reason s h))

record_sent-Exact :
    (now n : ℕ) (w : Worker) (msg : Claimed) (s : Store)
    → Exact now n s
    → Exact now (n + 1) (record_sent w msg s)
unfolding record_sent
record_sent-Exact now n w msg s h =
    rw (ap (λ (p : Result DbError (Unit {0}) × Store). p.0) (mark_sent-Up msg.id s h.0))
      (publish-Exact now (n + 1) w msg.id _ [] msg.attempts _ (sent-Exact now n msg.id s h))

defer-Exact :
    (now n : ℕ) (w : Worker) (msg : Claimed) (reason : Str) (s : Store)
    → Exact now n s
    → Exact now n (defer_or_give_up w msg reason s)
unfolding defer_or_give_up
defer-Exact now n w msg reason s h = elim (Bool-cases (leb max_attempts msg.attempts)) [
  | inl e ↦ rw e (fail-Exact now n w msg _ s h)
  | inr e ↦
      rw
        (
          e,
          ap (λ (p : Result DbError (Unit {0}) × Store). p.0)
              (mark_deferred-Up msg.id (s.now + backoff msg.attempts) reason s h.0),
        )
        (publish-Exact now n w msg.id _ reason msg.attempts _
          (deferred-Exact now n msg.id _ reason s h))
]

settle-Exact :
    (now n : ℕ) (w : Worker) (msg : Claimed) (outcome : Outcome) (reason : Str) (s : Store)
    → Exact now n s
    → Exact now (n + accepted outcome) (settle w msg outcome reason s)
unfolding settle
settle-Exact now n w msg Outcome.sent reason s h = record_sent-Exact now n w msg s h
settle-Exact now n w msg Outcome.temporary reason s h =
    let (up, clock, c) = defer-Exact now n w msg reason s h in (up, clock, omega (arith, c))
settle-Exact now n w msg Outcome.permanent reason s h =
    let (up, clock, c) = fail-Exact now n w msg reason _ (
      suppress_if_address_is_bad_keeps (Exact now n) (Exact-Steady now n) (λ t rows q. q) w msg
        reason s h) in
    (up, clock, omega (arith, c))

deliver-Exact :
    (now n : ℕ) (w : Worker) (msg : Claimed) (s : Store)
    → Exact now n s
    → Exact now (n + sends_of w msg s) (deliver w msg s)
unfolding deliver sends_of
deliver-Exact now n w msg s h =
    let signed = sign_keeps (Exact now n) (Exact-Steady now n) (λ t id q. q) w msg s h in
    elim (Result-cases (sign w msg s).0) [
      | inr (problem, e) ↦
          let (up, clock, c) = fail-Exact now n w msg _ _ signed in
          rw (e, deliver, sends_of) (up, clock, omega (arith, c))
      | inl (raw, e) ↦ rw (e, deliver, sends_of) (settle-Exact now n w msg _ _ _ signed)
    ]

deliver_all-Exact :
    (now n : ℕ) (w : Worker) (claimed : List Claimed) (s : Store)
    → Exact now n s
    → Exact now (n + sends w claimed s) (deliver_all w claimed s)
unfolding deliver_all sends
deliver_all-Exact now n w [] s (up, clock, c) = (up, clock, omega (arith, c))
deliver_all-Exact now n w (msg ∷ claimed) s h =
    let (up, clock, c) =
      deliver_all-Exact now (n + sends_of w msg s) w claimed _ (deliver-Exact now n w msg s h) in
    (up, clock, omega (arith, c))

claim-Exact :
    (now n limit lock_for : ℕ) (s : Store)
    → Exact now n s
    → Exact now n (claim_messages limit lock_for s).1
unfolding claim_messages claim_rows
claim-Exact now n limit lock_for s h =
    and_then_moves (Exact now n) (Exact now n) (query (claim_rows limit lock_for)) _ s
      (query_moves (Exact now n) _ s (Exact-Steady now n) (λ t q. q) h) (λ t q. q) (λ rows t q. q)

claim_and_deliver-Exact :
    (now n : ℕ) (w : Worker) (s : Store)
    → Exact now n s
    → Exact now (n + claim_sends w s) (claim_and_deliver w s).1
unfolding claim_and_deliver claim_sends
claim_and_deliver-Exact now n w s h =
    let claimed-Exact = claim-Exact now n batch_size lock_duration s h in
    let t = (claim_messages batch_size lock_duration s).1 in
    elim (Result-cases (claim_messages batch_size lock_duration s).0) [
      | inr (problem, e) ↦
          let (up, clock, c) = claimed-Exact in rw (e, claim_sends) (up, clock, omega (arith, c))
      | inl (claimed, e) ↦ rw (e, claim_sends) (deliver_all-Exact now n w claimed t claimed-Exact)
    ]

tick-Exact :
    (w : Worker) (s : Store)
    → Up s
    → 0 < w.max_per_hour
    → Exact s.now (dispatches s.now s.events + tick_sends w s) (tick w s).1
unfolding tick_sends
tick-Exact w s up some_ceiling =
    let before = dispatches s.now s.events in
    subst (λ (p : Result DbError ℕ × Store). Exact s.now (before + tick_sends w s) p.1)
      (sym (tick_up w s up some_ceiling))
      (elim (Bool-cases (leb w.max_per_hour before)) [
        | inl full ↦ rw full (up, refl, omega arith)
        | inr room ↦ rw room (claim_and_deliver-Exact s.now before w s (up, refl, refl))
      ])

-- With a ceiling, unique message ids and the database up, whatever the engine and the signer answer:
-- each message that the engine accepts in a call of `tick` is counted among the dispatches of the
-- last hour; and if at most nine more than the ceiling were counted before, what was counted before
-- and what the call sends are together at most nine more than the ceiling, and the ids are unique
-- still.
pub tick_ceiling :
    (w : Worker) (s : Store)
    → Unique s.messages
    → s.outage ≡ []
    → 0 < w.max_per_hour
    → dispatches s.now s.events ≤ w.max_per_hour + 9
    → Unique (tick w s).1.messages
      × (dispatches s.now (tick w s).1.events ≡ dispatches s.now s.events + tick_sends w s)
      × (dispatches s.now s.events + tick_sends w s ≤ w.max_per_hour + 9)
tick_ceiling w s u up some_ceiling h =
    let (v, c) = tick_recorded w s u some_ceiling h in
    let (still_up, clock, exact) = tick-Exact w s up some_ceiling in
    (v, exact, omega (arith, c, exact))
