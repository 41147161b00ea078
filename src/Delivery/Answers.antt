-- ===== src/Delivery/Answers.antt =====
-- What the answers of the engine mean for a message (internal/delivery/engine.go), and what the
-- worker's bounce classification makes of their reasons.
use ai_email.Base.{
  ℕ, zero, suc, ◌≤◌, ◌<◌, ◌≡◌, refl, ◌↔◌, ◌⊎◌, inl, inr, Bool, true, false, not, ◌&&◌, some, ◌++◌,
  Str, codes, ok, err, itoa, Unicode, Bool-cases, ◌==◌, Option-cases, Result-cases, arith,
}
use ai_email.Bounce.{verdict_suppresses, classify}
use ai_email.Bounce.Running.{running}
use ai_email.Delivery.{
  sent, temporary, permanent, Message, Exchange, unreachable, status, Engine, of_status,
  of_exchange, post_of, post_body, send,
}

-- Whatever status code the engine answers with: the message counts as sent exactly for 200 to 299,
-- and is tried again exactly for 429 and for 500 on.
pub of_status_exact :
    (code : ℕ)
    → (((of_status code).outcome ≡ sent) ↔ ((200 ≤ code) × (code < 300)))
      × (((of_status code).outcome ≡ temporary) ↔ ((code ≡ 429) ⊎ (500 ≤ code)))
unfolding of_status
of_status_exact code = ground arith

Exchange-cases :
    (x : Exchange) → ((why : Str) × (x ≡ unreachable why)) ⊎ ((code : ℕ) × (x ≡ status code))
Exchange-cases (unreachable why) = inl (why, refl)
Exchange-cases (status code) = inr (code, refl)

-- A message is given up as permanent only if it cannot be encoded, if no request can be built, or if
-- the engine answered its one post, which carries the message's id, with a status that is neither a
-- success nor one to retry.
pub send_permanent_cause :
    (e : Engine) (msg : Message)
    → (send e msg).outcome ≡ permanent
    → ((problem : Str) × (e.wire.marshal msg ≡ err problem))
      ⊎ ((problem : Str) × (e.wire.bad_request (e.base_url ++ codes "/api/inject/v1")
            ≡ some problem))
      ⊎ ((code : ℕ) × (body : Str) × (e.wire.marshal msg ≡ ok body)
          × (e.wire.exchange (post_of e msg body) ≡ status code)
          × ((of_status code).outcome ≡ permanent))
unfolding send post_body of_exchange
send_permanent_cause e msg h = elim (Result-cases (e.wire.marshal msg)) [
  | inr (problem, m) ↦ inl (problem, m)
  | inl (body, m) ↦
      elim (Option-cases (e.wire.bad_request (e.base_url ++ codes "/api/inject/v1"))) [
        | inr (problem, b) ↦ inr (inl (problem, b))
        | inl b ↦ elim (Exchange-cases (e.wire.exchange (post_of e msg body))) [
          | inl (why, x) ↦ ground arith
          | inr (code, x) ↦ inr (inr (code, body, m, x, ground arith))
        ]
      ]
]

all_below : ℕ → (ℕ → Bool) → Bool
all_below zero holds = true
all_below (suc last) holds = all_below last holds && holds last

all_below_sound :
    (bound : ℕ) (holds : ℕ → Bool) (at : ℕ)
    → at < bound
    → all_below bound holds ≡ true
    → holds at ≡ true
unfolding all_below
all_below_sound zero holds at below table = absurd (omega arith)
all_below_sound (suc last) holds at below table = elim (Bool-cases (at == last)) [
  | inl here ↦ let same : at ≡ last = ground (arith, here) in rw same (ground (arith, table))
  | inr there ↦ all_below_sound last holds at (ground (arith, there, below)) (ground (arith, table))
]

quiet : Unicode → ℕ → Bool
quiet u code =
    not (verdict_suppresses (classify u (codes "engine rejected the message with " ++ itoa code)))

quiet_table : (u : Unicode) → all_below 500 (quiet u) ≡ true
unfolding all_below quiet running
quiet_table u = refl

unquiet :
    (u : Unicode) (code : ℕ)
    → quiet u code ≡ true
    → verdict_suppresses (classify u (codes "engine rejected the message with " ++ itoa code))
      ≡ false
unfolding quiet
unquiet u code h = ground arith

-- When the status that the engine answered makes a message permanent, the reason that is given
-- for it never reads as a bad address.
pub engine_reason_suppresses_nobody :
    (u : Unicode) (code : ℕ)
    → (of_status code).outcome ≡ permanent
    → verdict_suppresses (classify u (of_status code).reason) ≡ false
unfolding of_status
engine_reason_suppresses_nobody u code h =
    let below : code < 500 = ground arith in
    let reason : (of_status code).reason ≡ codes "engine rejected the message with " ++ itoa code =
      ground arith in
    rw reason (unquiet u code (all_below_sound 500 (quiet u) code below (quiet_table u)))
