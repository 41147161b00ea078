-- ===== src/Httpapi/Send/Prepared.antt =====
-- Under which conditions `handleSend` of internal/httpapi/send.go answers 202 Accepted.
use ai_email.Base.{
  ℕ, ◌≤◌, ◌<◌, ◌≡◌, refl, sym, ap, subst, inl, inr, Bool, true, false, Option, none, some, Str,
  Result, ok, err, filter, length, arith, ok-inj, err-ne-ok, ltb,
}
use ai_email.Httpapi.{SendProblem, internal_error, accepted, Reply, SendRequest, Request, Server}
use ai_email.Httpapi.Send.{
  blame, build_message, enabled, read_body, decoded, as_reply, invalid_request, below_quota,
  limited, check_quota, enqueue_problem, accepted_reply, prepare_send, accept_send, either,
  handle_send,
}
use ai_email.Store.{
  Store, DbError, undecodable, not_found, idempotency_mismatch, idempotency_in_flight, statement,
}
use ai_email.Store.Keys.{ApiKey, sent_lately, sends_in_last_hour}
use ai_email.Store.Messages.{NewMessage, Accepted, enqueue_message}
use ai_email.Store.Reads.{Reads}
use ai_email.Store.Steps.{
  ◌>>=◌, lift, calls, >>=-made, calls_made, query_made, proceed, translated, >>=-failed,
  calls_failed,
}
use ai_email.Httpapi.Send.Made.{blame_made}
use ai_email.Httpapi.Send.Refuses.{build_message-ReadsOnly, prepare_send-ReadsOnly}
use ai_email.Httpapi.Send.Accepts.{IsSendable, build_message-IsSendable}

below_quota_made :
    (key : ApiKey) (used : ℕ) {a : Unit {0}}
    → below_quota key used ≡ ok a
    → used < key.quota_per_hour
unfolding below_quota
below_quota_made key used h = ground arith

limited_made :
    (b : Bool) (key : ApiKey) (s : Store) {a : Unit {0}}
    → (limited b key s).0 ≡ ok a
    → b ≡ true
    → length (filter (sent_lately s.now key.id) s.messages) < key.quota_per_hour
unfolding limited sends_in_last_hour
limited_made false key s h t = cc
limited_made true key s h t =
    let (used, b, h, _) =
      >>=-made (calls (λ e. internal_error) (sends_in_last_hour key.id)) _ s h in
    let (e, _) =
      query_made (λ (x : Store). (length (filter (sent_lately x.now key.id) x.messages), x)) s
        (calls_made _ (sends_in_last_hour key.id) s b) in
    subst (λ n. n < key.quota_per_hour) e (below_quota_made key used h)

-- What holds before a message is stored, by what the store held when the request came.
pub record IsPrepared (sv : Server) (key : ApiKey) (r : Request) (s : Store) (m : NewMessage)
    : Type 0 where
  pub enabled : sv.send_enabled ≡ true
  pub raw : Str
  pub read : r.body ≡ some raw
  pub short : length raw ≤ 2097152
  pub req : SendRequest
  pub decoded : sv.json.decode_request raw ≡ some req
  pub sendable : IsSendable sv s req m
  pub below_quota :
      0 < key.quota_per_hour
      → length (filter (sent_lately s.now key.id) s.messages) < key.quota_per_hour

enabled_made : (sv : Server) {a : Unit {0}} → enabled sv ≡ ok a → sv.send_enabled ≡ true
unfolding enabled
enabled_made sv h = ground arith

read_body_made :
    (body : Option Str) {raw : Str}
    → read_body body ≡ ok raw
    → (body ≡ some raw) × (length raw ≤ 2097152)
unfolding read_body
read_body_made none h = absurd (err-ne-ok h)
read_body_made (some raw) h = ground arith

decoded_made : (o : Option SendRequest) {req : SendRequest} → decoded o ≡ ok req → o ≡ some req
unfolding decoded
decoded_made none h = absurd (err-ne-ok h)
decoded_made (some req) h = ap some (ok-inj h)

quota_test : (n : ℕ) → 0 < n → ltb 0 n ≡ true
quota_test n h = ground arith

pub prepare_send-IsPrepared :
    (sv : Server) (key : ApiKey) (r : Request) (s : Store) (m : NewMessage)
    → (prepare_send sv key r s).0 ≡ ok m
    → IsPrepared sv key r s m
unfolding prepare_send check_quota
prepare_send-IsPrepared sv key r s m h =
    let (_, a, h, _) = >>=-made (lift (enabled sv)) _ s h in
    let (raw, b, h, _) = >>=-made (lift (read_body r.body)) _ s h in
    let (req, c, h, _) = >>=-made (lift (decoded (sv.json.decode_request raw))) _ s h in
    let (m', d, h, _) = >>=-made (as_reply (build_message sv r key req raw)) _ s h in
    let t = (build_message sv r key req raw s).1 in
    let (_, e, h, _) = >>=-made (limited (ltb 0 key.quota_per_hour) key) _ t h in
    let (o, reads) = build_message-ReadsOnly sv r key req raw s in
    let (read, short) = read_body_made r.body b in
    record {
      enabled = enabled_made sv a;
      raw = raw;
      read = read;
      short = short;
      req = req;
      decoded = decoded_made _ c;
      sendable =
          subst (IsSendable sv s req) (ok-inj h)
            (build_message-IsSendable sv r key req raw s m' (blame_made invalid_request _ d));
      below_quota = λ q.
          subst
            (λ (x : Store).
              length (filter (sent_lately x.now key.id) x.messages) < key.quota_per_hour)
            reads (limited_made _ key t e (quota_test key.quota_per_hour q));
    }

-- No rejection has the status 202.
abbrev IsRejection : Reply → Type 0
IsRejection reply = reply.status ≡ 202 → ⊥

rejects : {reply reply' : Reply} → reply ≡ reply' → IsRejection reply → IsRejection reply'
rejects e h = subst IsRejection e h

enabled_rejects : (sv : Server) {e : Reply} → enabled sv ≡ err e → IsRejection e
unfolding enabled
enabled_rejects sv h q = ground arith

read_body_rejects : (body : Option Str) {e : Reply} → read_body body ≡ err e → IsRejection e
unfolding read_body
read_body_rejects none h q = ground arith
read_body_rejects (some raw) h q = ground arith

decoded_rejects : (o : Option SendRequest) {e : Reply} → decoded o ≡ err e → IsRejection e
unfolding decoded
decoded_rejects none h q = ground arith
decoded_rejects (some req) h q = ground arith

blame_rejects :
    {A : Type 0} (r : Result SendProblem A) {e : Reply}
    → blame invalid_request r ≡ err e
    → IsRejection e
blame_rejects (err p) h q = ground arith
blame_rejects (ok a) h q = ground arith

below_quota_rejects :
    (key : ApiKey) (used : ℕ) {e : Reply} → below_quota key used ≡ err e → IsRejection e
unfolding below_quota
below_quota_rejects key used h q = ground arith

limited_rejects :
    (b : Bool) (key : ApiKey) (s : Store) {e : Reply} → (limited b key s).0 ≡ err e → IsRejection e
unfolding limited
limited_rejects false key s h q = ground arith
limited_rejects true key s h q =
    elim (>>=-failed (calls (λ e. internal_error) (sends_in_last_hour key.id)) _ s h) [
      | inl a ↦
          rejects (sym (calls_failed internal_error (sends_in_last_hour key.id) s a))
            (λ q. omega arith) q
      | inr (used, _, h) ↦ below_quota_rejects key used h q
    ]

prepare_send_rejects :
    (sv : Server) (key : ApiKey) (r : Request) (s : Store) {e : Reply}
    → (prepare_send sv key r s).0 ≡ err e
    → IsRejection e
unfolding prepare_send check_quota
prepare_send_rejects sv key r s h = elim (>>=-failed (lift (enabled sv)) _ s h) [
  | inl a ↦ enabled_rejects sv a
  | inr (_, _, h) ↦ elim (>>=-failed (lift (read_body r.body)) _ s h) [
    | inl a ↦ read_body_rejects r.body a
    | inr (raw, _, h) ↦ elim (>>=-failed (lift (decoded (sv.json.decode_request raw))) _ s h) [
      | inl a ↦ decoded_rejects (sv.json.decode_request raw) a
      | inr (req, _, h) ↦ elim (>>=-failed (as_reply (build_message sv r key req raw)) _ s h) [
        | inl a ↦ blame_rejects (build_message sv r key req raw s).0 a
        | inr (m, _, h) ↦
            elim (>>=-failed (limited (ltb 0 key.quota_per_hour) key) _
              (build_message sv r key req raw s).1 h) [
                | inl a ↦ limited_rejects (ltb 0 key.quota_per_hour) key _ a
                | inr (_, _, h) ↦ absurd (err-ne-ok (sym h))
              ]
      ]
    ]
  ]
]

enqueue_problem_rejects : (e : DbError) → IsRejection (enqueue_problem e)
unfolding enqueue_problem
enqueue_problem_rejects statement q = ground arith
enqueue_problem_rejects undecodable q = ground arith
enqueue_problem_rejects not_found q = ground arith
enqueue_problem_rejects idempotency_mismatch q = ground arith
enqueue_problem_rejects idempotency_in_flight q = ground arith

abbrev Answer : Type 0
Answer = Result Reply Reply × Store

-- A request was accepted: what was stored for it, and what it was answered.
abbrev pub IsAccepted : Server → NewMessage → Store → Reply → Store → Type 0
IsAccepted sv m t reply u =
    (a : Accepted) × (replayed : Bool) × (enqueue_message sv.unicode sv.sha256 m t
      ≡ (ok (a, replayed), u))
    × (reply.body ≡ accepted a)

enqueued-IsAccepted :
    (sv : Server) (m : NewMessage) (t : Store) (x : Result DbError (Accepted × Bool) × Store)
    → enqueue_message sv.unicode sv.sha256 m t ≡ x
    → (let y : Answer =
          proceed (translated enqueue_problem x.0) (λ a. lift (ok (accepted_reply a))) x.1 in
        (either y.0).status ≡ 202 → IsAccepted sv m t (either y.0) y.1)
enqueued-IsAccepted sv m t (err e, u) q h = absurd (enqueue_problem_rejects e h)
enqueued-IsAccepted sv m t (ok (a, replayed), u) q h =
    (a, replayed, q, unfold accepted_reply in refl)

-- Where a request is answered with 202 Accepted, sending is enabled, the body is within 2 MiB and
-- decodes to a request whose message may be sent, the key is below its quota if it has one, and
-- what `EnqueueMessage` returned for the message, with the store as it was, is in the answer.
pub handle_send_accepts :
    (sv : Server) (key : ApiKey) (r : Request) (s : Store)
    → (handle_send sv key r s).0.status ≡ 202
    → (m : NewMessage) × (t : Store) × IsPrepared sv key r s m
      × Reads s t
      × IsAccepted sv m t (handle_send sv key r s).0 (handle_send sv key r s).1
unfolding handle_send accept_send
handle_send_accepts sv key r s =
    prepared-case (prepare_send sv key r s).0 (prepare_send sv key r s).1 refl
      (prepare_send-ReadsOnly sv key r s)
  where
    prepared-case :
        (p : Result Reply NewMessage) (t : Store)
        → (prepare_send sv key r s).0 ≡ p
        → Reads s t
        → (let y : Answer =
              proceed p
                (λ m. calls enqueue_problem (enqueue_message sv.unicode sv.sha256 m) >>= λ a.
                  lift (ok (accepted_reply a)))
                t in
            (either y.0).status ≡ 202
            → (m : NewMessage) × (t : Store) × IsPrepared sv key r s m
              × Reads s t
              × IsAccepted sv m t (either y.0) y.1)
    prepared-case (err e) t q w h = absurd (prepare_send_rejects sv key r s q h)
    prepared-case (ok m) t q w h = (
      m,
      t,
      prepare_send-IsPrepared sv key r s m q,
      w,
      enqueued-IsAccepted sv m t (enqueue_message sv.unicode sv.sha256 m t) refl h,
    )
