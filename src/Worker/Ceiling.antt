-- ===== src/Worker/Ceiling.antt =====
-- The hourly ceiling of `tick` of internal/worker/worker.go.
use ai_email.Base.{
  ℕ, ◌+◌, ◌≤◌, ◌<◌, ◌≡◌, refl, ap, sym, ◌∙◌, subst, Bool, true, false, inl, inr, ◌⊎◌, clash, Result,
  [], ok, err, Bool-cases, if◌then◌else◌, ltb, leb, arith,
}
use ai_email.Store.{DbError, statement, Store, next_fails, answered, query, continue}
use ai_email.Store.Keeps.{query-Up}
use ai_email.Store.Queue.{sent_in_last_hour}
use ai_email.Store.Queue.Claim.{Unique}
use ai_email.Store.Queue.Marks.{dispatches}
use ai_email.Worker.{Worker, claim_and_deliver, tick}
use ai_email.Worker.Counts.{Within, claim_and_deliver_count}

-- The ways of `tick` under a ceiling.
after_count : Worker → Result DbError ℕ → Store → Result DbError ℕ × Store
after_count w r t =
    continue r (λ sent t'. if leb w.max_per_hour sent then (ok 0, t') else claim_and_deliver w t')
      (λ e t'. (err e, t')) t

tick_counts :
    (w : Worker) (s : Store)
    → 0 < w.max_per_hour
    → tick w s ≡ after_count w (sent_in_last_hour s).0 (sent_in_last_hour s).1
unfolding tick after_count
tick_counts w s h = if_true (ltb 0 w.max_per_hour) _ (claim_and_deliver w s) (ground arith)
  where
    if_true : (b : Bool) (x y : Result DbError ℕ × Store) → b ≡ true → (if b then x else y) ≡ x
    if_true true x y h = refl
    if_true false x y h = absurd (clash h refl)

sent_in_last_hour_lem :
    (s : Store)
    → (sent_in_last_hour s ≡ (err statement, answered s))
      ⊎ (sent_in_last_hour s ≡ (ok (dispatches s.now s.events), answered s))
unfolding sent_in_last_hour query
sent_in_last_hour_lem s = elim (Bool-cases (next_fails s.outage)) [
  | inl e ↦ inl (rw e refl)
  | inr e ↦ inr (rw e refl)
]

count_first :
    (w : Worker) (s : Store)
    → 0 < w.max_per_hour
    → (tick w s ≡ (err statement, answered s))
      ⊎ (tick w s ≡ (
          if leb w.max_per_hour (dispatches s.now s.events)
          then (ok 0, answered s)
          else claim_and_deliver w (answered s)))
unfolding after_count
count_first w s h = elim (sent_in_last_hour_lem s) [
  | inl e ↦ inl (tick_counts w s h ∙ ap (λ (p : Result DbError ℕ × Store). after_count w p.0 p.1) e)
  | inr e ↦ inr (tick_counts w s h ∙ ap (λ (p : Result DbError ℕ × Store). after_count w p.0 p.1) e)
]

-- Under a ceiling, when as many messages as it allows were sent in the last hour, `tick` takes no
-- message and changes no row, whether the count succeeds or not.
pub tick_holds :
    (w : Worker) (s : Store)
    → 0 < w.max_per_hour
    → w.max_per_hour ≤ dispatches s.now s.events
    → (tick w s).1 ≡ answered s
tick_holds w s h full = elim (count_first w s h) [
  | inl e ↦ ap (λ (p : Result DbError ℕ × Store). p.1) e
  | inr e ↦
      let yes : leb w.max_per_hour (dispatches s.now s.events) ≡ true = ground arith in
      ap (λ (p : Result DbError ℕ × Store). p.1) (rw yes at e)
]

-- `tick` while the database is up.
pub tick_up :
    (w : Worker) (s : Store)
    → s.outage ≡ []
    → 0 < w.max_per_hour
    → tick w s ≡ (
        if leb w.max_per_hour (dispatches s.now s.events) then (ok 0, s) else claim_and_deliver w s)
unfolding after_count sent_in_last_hour
tick_up w s up h =
    tick_counts w s h
    ∙ ap (λ (p : Result DbError ℕ × Store). after_count w p.0 p.1) (query-Up _ s up)

-- With a ceiling and unique message ids: if at most nine more dispatches than the ceiling are
-- recorded for the last hour, this is so after a call of `tick` too, and the ids are unique still,
-- whatever the engine, the signer and the database answer. An acceptance whose record fails is not
-- counted here.
pub tick_recorded :
    (w : Worker) (s : Store)
    → Unique s.messages
    → 0 < w.max_per_hour
    → dispatches s.now s.events ≤ w.max_per_hour + 9
    → Unique (tick w s).1.messages × (dispatches s.now (tick w s).1.events ≤ w.max_per_hour + 9)
tick_recorded w s u some_ceiling h =
    let max = w.max_per_hour in
    elim (count_first w s some_ceiling) [
      | inl e ↦ subst (λ (p : Result DbError ℕ × Store). Within s.now (max + 9) p.1) (sym e) (u, h)
      | inr e ↦
          subst (λ (p : Result DbError ℕ × Store). Within s.now (max + 9) p.1) (sym e)
            (elim (Bool-cases (leb max (dispatches s.now s.events))) [
              | inl full ↦ rw full (u, h)
              | inr room ↦
                  let (v, c) =
                    claim_and_deliver_count s.now (dispatches s.now s.events) w (answered s)
                      (u, omega arith) in
                  let below : dispatches s.now s.events < max = ground arith in
                  rw room (v, omega (arith, c, below))
            ])
    ]
