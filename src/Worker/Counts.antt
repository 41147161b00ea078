-- ===== src/Worker/Counts.antt =====
-- How many dispatches the parts of `tick` of internal/worker/worker.go add to the last hour's.
use ai_email.Base.{
  ℕ, suc, ◌+◌, ◌≤◌, ◌≡◌, refl, ap, sym, ◌∙◌, inl, inr, List, [], ◌∷◌, length, Option, ok, ok-inj,
  err-ne-ok, Bool-cases, Result-cases, Option-cases, if◌then◌else◌, Str, leb, arith,
}
use ai_email.Delivery.{Outcome}
use ai_email.Store.{
  MessageRow, EventType, email_sent, email_failed, email_deferred, EventRow, Keeper, Store,
  next_fails, answered, query, exec, and_then, update_where,
}
use ai_email.Store.Keeps.{Steady, exec_moves, query_moves, and_then_moves, continue_moves}
use ai_email.Store.Queue.{
  Claimed, has_id, is_sent, recent_dispatch, record_event, set_status, set_deferred, transition,
  mark_sent, mark_deferred, mark_failed, unpack_recipients, read_claimed, claim_rows,
  claim_messages,
}
use ai_email.Store.Queue.Claim.{Unique, claim_rows_made}
use ai_email.Store.Queue.Once.{Unique-update_where, table_Unique}
use ai_email.Store.Queue.Marks.{dispatches, one_more}
use ai_email.Worker.{
  Worker, batch_size, lock_duration, max_attempts, sign, fail, record_sent, defer_or_give_up,
  settle, deliver, deliver_all, claim_and_deliver, publish,
}
use ai_email.Worker.Keeps.{
  publish_keeps, suppress_if_address_is_bad_keeps, sign_keeps, if_either, result_either,
}

-- The ids are still unique, and of the dispatches of the hour before `now` there are at most `k`.
abbrev pub Within : ℕ → ℕ → Store → Type 0
Within now k s = Unique s.messages × (dispatches now s.events ≤ k)

steady : (now k : ℕ) → Steady (Within now k)
steady now k s h = h

counted_as : EventType → ℕ
counted_as event = if is_sent event then 1 else 0

only_sent :
    (now : ℕ) (e : EventRow) → (if recent_dispatch now e then 1 else 0) ≤ counted_as e.event_type
unfolding recent_dispatch counted_as
only_sent now e = ground arith

event_count :
    (now k : ℕ) (id : Str) (event : EventType) (detail : Str) (s : Store)
    → Within now k s
    → Within now (k + counted_as event) (record_event id event detail s).1
unfolding record_event
event_count now k id event detail s h =
    exec_moves (Within now k) (Within now (k + counted_as event)) _ s (steady now k)
      (λ t (u, c). (u, omega (arith, c)))
      (λ t (u, c). (u, omega (arith, c, one_more now t.events _, only_sent now _))) h

-- An UPDATE by id and its event, whether the statements succeed or not.
marked_count :
    (now k : ℕ) (id : Str) (f : Store → MessageRow → MessageRow) (event : EventType) (detail : Str)
    → ((t : Store) (r : MessageRow) → (f t r).id ≡ r.id)
    → (s : Store) → Within now k s
    → Within now
        (k + counted_as event)
        (and_then
          (exec (λ t. record t { messages = update_where (has_id id) (f t) t.messages }))
          (λ _. record_event id event detail)
          s).1
marked_count now k id f event detail same s h =
    and_then_moves (Within now k) (Within now (k + counted_as event)) _ _ s
      (exec_moves (Within now k) (Within now k) _ s (steady now k) (λ t q. q)
        (λ t (u, c). (Unique-update_where (has_id id) (f t) t.messages (same t) u, c)) h)
      (λ t (u, c). (u, omega (arith, c))) (λ _ t q. event_count now k id event detail t q)

failed_count :
    (now k : ℕ) (id reason : Str) (s : Store)
    → Within now k s
    → Within now k (mark_failed id reason s).1
unfolding mark_failed transition set_status counted_as
failed_count now k id reason s h =
    let (u, c) = marked_count now k id _ email_failed reason (λ t r. refl) s h in
    (u, omega (arith, c))

sent_count :
    (now k : ℕ) (id : Str) (s : Store) → Within now k s → Within now (k + 1) (mark_sent id s).1
unfolding mark_sent transition set_status counted_as
sent_count now k id s h = marked_count now k id _ email_sent [] (λ t r. refl) s h

deferred_count :
    (now k : ℕ) (id : Str) (at : ℕ) (reason : Str) (s : Store)
    → Within now k s
    → Within now k (mark_deferred id at reason s).1
unfolding mark_deferred set_deferred counted_as
deferred_count now k id at reason s h =
    let (u, c) = marked_count now k id _ email_deferred reason (λ t r. refl) s h in
    (u, omega (arith, c))

publish_count :
    (now k : ℕ) (w : Worker) (id : Str) (event : EventType) (reason : Str) (attempt : ℕ) (s : Store)
    → Within now k s
    → Within now k (publish w id event reason attempt s)
publish_count now k w id event reason attempt s h =
    publish_keeps (Within now k) (steady now k) (λ t rows q. q) w id event reason attempt s h

fail_count :
    (now k : ℕ) (w : Worker) (msg : Claimed) (reason : Str) (s : Store)
    → Within now k s
    → Within now k (fail w msg reason s)
unfolding fail
fail_count now k w msg reason s h =
    let marked = failed_count now k msg.id reason s h in
    continue_moves (Within now k) (mark_failed msg.id reason s).0 _ _ _
      (λ _. publish_count now k w msg.id email_failed reason msg.attempts _ marked) (λ _. marked)

record_sent_count :
    (now k : ℕ) (w : Worker) (msg : Claimed) (s : Store)
    → Within now k s
    → Within now (k + 1) (record_sent w msg s)
unfolding record_sent
record_sent_count now k w msg s h =
    let marked = sent_count now k msg.id s h in
    continue_moves (Within now (k + 1)) (mark_sent msg.id s).0 _ _ _
      (λ _. publish_count now (k + 1) w msg.id email_sent [] msg.attempts _ marked) (λ _. marked)

defer_count :
    (now k : ℕ) (w : Worker) (msg : Claimed) (reason : Str) (s : Store)
    → Within now k s
    → Within now k (defer_or_give_up w msg reason s)
unfolding defer_or_give_up
defer_count now k w msg reason s h =
    let marked = deferred_count now k msg.id _ reason s h in
    if_either (Within now k) (leb max_attempts msg.attempts) (fail_count now k w msg _ s h) (
      continue_moves (Within now k) (mark_deferred msg.id _ reason s).0 _ _ _
        (λ _. publish_count now k w msg.id email_deferred reason msg.attempts _ marked)
        (λ _. marked))

settle_count :
    (now k : ℕ) (w : Worker) (msg : Claimed) (outcome : Outcome) (reason : Str) (s : Store)
    → Within now k s
    → Within now (k + 1) (settle w msg outcome reason s)
unfolding settle
settle_count now k w msg Outcome.sent reason s h = record_sent_count now k w msg s h
settle_count now k w msg Outcome.temporary reason s h =
    let (u, c) = defer_count now k w msg reason s h in (u, omega (arith, c))
settle_count now k w msg Outcome.permanent reason s h =
    let (u, c) = fail_count now k w msg reason _ (
      suppress_if_address_is_bad_keeps (Within now k) (steady now k) (λ t rows q. q) w msg reason s
        h) in
    (u, omega (arith, c))

deliver_count :
    (now k : ℕ) (w : Worker) (msg : Claimed) (s : Store)
    → Within now k s
    → Within now (k + 1) (deliver w msg s)
unfolding deliver
deliver_count now k w msg s h =
    let signed =
      sign_keeps (Within now k) (steady now k)
        (λ t id (u, c). (Unique-update_where (has_id id) _ t.messages (λ r. refl) u, c)) w msg s
        h in
    result_either (Within now (k + 1)) (sign w msg s).0
      (λ e. let (u, c) = fail_count now k w msg _ _ signed in (u, omega (arith, c)))
      (λ raw. settle_count now k w msg _ _ _ signed)

deliver_all_count :
    (now k : ℕ) (w : Worker) (claimed : List Claimed) (s : Store)
    → Within now k s
    → Within now (k + length claimed) (deliver_all w claimed s)
unfolding deliver_all
deliver_all_count now k w [] s (u, c) = (u, omega (arith, c))
deliver_all_count now k w (msg ∷ claimed) s h =
    let (u, c) = deliver_all_count now (k + 1) w claimed _ (deliver_count now k w msg s h) in
    (u, omega (arith, c))

read_claimed-length :
    (keeper : Option Keeper) (rows : List MessageRow) (out : List Claimed)
    → read_claimed keeper rows ≡ ok out
    → length out ≡ length rows
unfolding read_claimed
read_claimed-length keeper [] out h = ap length (sym (ok-inj h))
read_claimed-length keeper (r ∷ rows) out h =
    elim (Option-cases (unpack_recipients keeper r.recipients_encrypted r.recipients)) [
      | inl e ↦ absurd (err-ne-ok (rw (e, read_claimed) at h))
      | inr (recipients, e) ↦ elim (Result-cases (read_claimed keeper rows)) [
        | inr (problem, f) ↦ absurd (err-ne-ok (rw (e, f, read_claimed) at h))
        | inl (rest, f) ↦
            ap length (sym (ok-inj (rw (e, f, read_claimed) at h)))
            ∙ ap suc (read_claimed-length keeper rows rest f)
      ]
    ]

claim_rows-Within :
    (now k limit lock_for : ℕ) (s : Store)
    → Within now k s
    → Within now k (claim_rows limit lock_for s).1
unfolding claim_rows
claim_rows-Within now k limit lock_for s (u, c) = (table_Unique limit lock_for s u, c)

claim-Within :
    (now k limit lock_for : ℕ) (s : Store)
    → Within now k s
    → Within now k (claim_messages limit lock_for s).1
unfolding claim_messages
claim-Within now k limit lock_for s h =
    and_then_moves (Within now k) (Within now k) (query (claim_rows limit lock_for)) _ s
      (query_moves (Within now k) _ s (steady now k)
        (λ t q. claim_rows-Within now k limit lock_for t q) h)
      (λ t q. q) (λ rows t q. q)

claim_few :
    (limit lock_for : ℕ) (s : Store) (out : List Claimed)
    → Unique s.messages
    → (claim_messages limit lock_for s).0 ≡ ok out
    → length out ≤ limit
unfolding claim_messages and_then query
claim_few limit lock_for s out u h = elim (Bool-cases (next_fails s.outage)) [
  | inl e ↦ absurd (err-ne-ok (rw (e, query, and_then) at h))
  | inr e ↦
      let few = (claim_rows_made limit lock_for (answered s) u).0 in
      let same = read_claimed-length _ _ out (rw (e, query, and_then) at h) in
      omega (arith, few, same)
]

pub claim_and_deliver_count :
    (now k : ℕ) (w : Worker) (s : Store)
    → Within now k s
    → Within now (k + 10) (claim_and_deliver w s).1
unfolding claim_and_deliver
claim_and_deliver_count now k w s h =
    let (u, c) = claim-Within now k batch_size lock_duration s h in
    elim (Result-cases (claim_messages batch_size lock_duration s).0) [
      | inr (problem, e) ↦ rw e (u, omega (arith, c))
      | inl (claimed, e) ↦
          let few = claim_few batch_size lock_duration s claimed h.0 e in
          let (v, d) = deliver_all_count now k w claimed _ (u, c) in rw e (v, omega (arith, few, d))
    ]
