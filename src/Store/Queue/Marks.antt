-- ===== src/Store/Queue/Marks.antt =====
-- What the `Mark` methods of internal/store/queue.go leave for later claims and for the hourly count.
use ai_email.Base.{
  ℕ, ◌+◌, ◌≡◌, refl, ap, sym, ◌∙◌, inl, inr, Bool, true, false, ◌&&◌, List, [], ◌∷◌, ◌++◌, filter,
  length, length-append, Str, Result, ok, err, ltb, leb, if◌then◌else◌, arith, Member, Bool-cases,
  err-ne-ok, subst, clash,
}
use ai_email.Store.{
  update_where, MessageRow, EventType, email_sent, email_deferred, email_failed, EventRow, Store,
  DbError, statement, Db, next_fails, answered, exec, and_then, continue,
}
use ai_email.Store.Queue.{
  is_waiting, is_sent, claimable, has_id, event_detail, record_event, set_status, set_deferred,
  transition, mark_sent, mark_deferred, mark_failed, hour, recent_dispatch,
}
use ai_email.Store.Queue.Claim.{mem-update_where}

abbrev pub Done : {A : Type 0} → A → Store → Result DbError A × Store
Done a s = (ok a, s)

abbrev pub Returns : {A : Type 0} → Result DbError A × Store → A → Store → Type 0
Returns {A} r a s = ◌≡◌ {A = Result DbError A × Store} r (ok a, s)

pub exec-ok :
    (f : Store → Store) (s s' : Store)
    → Returns (exec f s) tt s'
    → (s' ≡ f (answered s)) × (next_fails s.outage ≡ false)
unfolding exec
exec-ok f s s' h = elim (Bool-cases (next_fails s.outage)) [
  | inl e ↦
      absurd (err-ne-ok (ap (λ (p : Result DbError (Unit {0}) × Store). p.0) (rw (e, exec) at h)))
  | inr e ↦ (sym (ap (λ (p : Result DbError (Unit {0}) × Store). p.1) (rw (e, exec) at h)), e)
]

and_then-ok :
    {A B : Type 0} (m : Db A) (f : A → Db B) (s s' : Store) (b : B)
    → Returns (and_then m f s) b s'
    → (a : A) × (mid : Store) × Returns (m s) a mid × Returns (f a mid) b s'
unfolding and_then
and_then-ok {A} {B} m f s s' b h = split (m s).0 (m s).1 refl h
  where
    split :
        (r : Result DbError A) (mid : Store)
        → m s ≡ (r, mid)
        → Returns (continue r f (λ e t. (err e, t)) mid) b s'
        → (a : A) × (mid' : Store) × Returns (m s) a mid' × Returns (f a mid') b s'
    split (ok a) mid e k = (a, mid, e, k)
    split (err x) mid e k = absurd (err-ne-ok (ap (λ (p : Result DbError B × Store). p.0) k))

-- A row that an UPDATE by id leaves with this id is one that it changed.
changed :
    (id : Str) (f : MessageRow → MessageRow) (r : MessageRow) (rows : List MessageRow)
    → Member r (update_where (has_id id) f rows)
    → has_id id r ≡ true
    → (q : MessageRow) × (r ≡ f q)
changed id f r rows m h =
    let (q, n, c) = mem-update_where (has_id id) f r rows m in
    elim c [ inl (t, e) ↦ (q, e) | inr (t, e) ↦ absurd (clash h (ap (has_id id) e ∙ t)) ]

pub filter-append {ℓ} :
    {A : Type ℓ} (p : A → Bool) (xs ys : List A) → filter p (xs ++ ys) ≡ filter p xs ++ filter p ys
filter-append p [] ys = refl
filter-append p (x ∷ xs) ys = elim (Bool-cases (p x)) [
  | inl e ↦ rw (e, filter) (ap (λ zs. x ∷ zs) (filter-append p xs ys))
  | inr e ↦ rw (e, filter) (filter-append p xs ys)
]

-- How many dispatches of the last hour a list of events holds.
abbrev pub dispatches : ℕ → List EventRow → ℕ
dispatches now events = length (filter (recent_dispatch now) events)

pub one_more :
    (now : ℕ) (events : List EventRow) (e : EventRow)
    → dispatches now (events ++ (e ∷ []))
      ≡ dispatches now events + (if recent_dispatch now e then 1 else 0)
one_more now events e = rw (filter-append (recent_dispatch now) events (e ∷ [])) (
    length-append (filter (recent_dispatch now) events) (filter (recent_dispatch now) (e ∷ []))
    ∙ ap (λ n. dispatches now events + n) single)
  where
    single :
        length (filter (recent_dispatch now) (e ∷ [])) ≡ (if recent_dispatch now e then 1 else 0)
    single = elim (Bool-cases (recent_dispatch now e)) [
      | inl h ↦ rw (h, length) refl
      | inr h ↦ rw (h, length) refl
    ]

ended : (now : ℕ) (r : MessageRow) → is_waiting r.status ≡ false → claimable now r ≡ false
unfolding claimable
ended now r h = rw h refl

ltb-hour : (now : ℕ) → ltb now (now + hour) ≡ true
ltb-hour now = ground arith

just_now :
    (now : ℕ) (e : EventRow) → e.occurred_at ≡ now → recent_dispatch now e ≡ is_sent e.event_type
unfolding recent_dispatch
just_now now e h = elim (Bool-cases (is_sent e.event_type)) [
  | inl k ↦ rw (k, h) (ltb-hour now)
  | inr k ↦ rw k refl
]

-- The rows and events after an UPDATE by id and its event.
record Marked (id : Str) (f : ℕ → MessageRow → MessageRow) (event : EventType) (s s' : Store)
    : Type 0 where
  pub rows : s'.messages ≡ update_where (has_id id) (f s.now) s.messages
  pub count :
      dispatches s.now s'.events ≡ dispatches s.now s.events + (if is_sent event then 1 else 0)

marked :
    (id : Str) (f : ℕ → MessageRow → MessageRow) (event : EventType) (detail : Str) (s s' : Store)
    → Returns
        (and_then
          (exec (λ t. record t { messages = update_where (has_id id) (f t.now) t.messages }))
          (λ _. record_event id event detail)
          s)
        tt
        s'
    → Marked id f event s s'
unfolding record_event recent_dispatch
marked id f event detail s s' h =
    let (a, mid, first, second) = and_then-ok _ _ s s' tt h in
    let (e1, up1) = exec-ok _ s mid first in
    let (e2, up2) = exec-ok _ mid s' second in
    record {
      rows = ap (λ (t : Store). t.messages) e2 ∙ ap (λ (t : Store). t.messages) e1;
      count =
          ap (λ (t : Store). dispatches s.now t.events) e2
          ∙ ap
              (λ (t : Store). dispatches s.now (
                t.events
                ++ (record {
                  message_id = id;
                  event_type = event;
                  detail = event_detail detail;
                  occurred_at = t.now;
                }
                    ∷ [])))
              e1
          ∙ one_more s.now s.events _
          ∙ ap (λ (b : Bool). dispatches s.now s.events + (if b then 1 else 0))
              (just_now s.now
                (record {
                  message_id = id;
                  event_type = event;
                  detail = event_detail detail;
                  occurred_at = s.now;
                })
                refl);
    }

-- After a call of `MarkSent` that succeeds, the message is never claimed again, and the hourly
-- count has one more.
pub mark_sent_final :
    (id : Str) (s s' : Store)
    → Returns (mark_sent id s) tt s'
    → ((r : MessageRow) (t : ℕ) → Member r s'.messages → has_id id r ≡ true → claimable t r ≡ false)
      × (dispatches s.now s'.events ≡ dispatches s.now s.events + 1)
unfolding mark_sent transition set_status
mark_sent_final id s s' h =
    let m = marked id _ email_sent [] s s' h in
    (
      λ r t n i.
          let (q, e) = changed id _ r s.messages (subst (Member r) m.rows n) i in
          ended t r (ap (λ (x : MessageRow). is_waiting x.status) e),
      m.count,
    )

-- After a call of `MarkFailed` that succeeds, the message is never claimed again, and the hourly
-- count is unchanged.
pub mark_failed_final :
    (id reason : Str) (s s' : Store)
    → Returns (mark_failed id reason s) tt s'
    → ((r : MessageRow) (t : ℕ) → Member r s'.messages → has_id id r ≡ true → claimable t r ≡ false)
      × (dispatches s.now s'.events ≡ dispatches s.now s.events)
unfolding mark_failed transition set_status
mark_failed_final id reason s s' h =
    let m = marked id _ email_failed reason s s' h in
    (
      λ r t n i.
          let (q, e) = changed id _ r s.messages (subst (Member r) m.rows n) i in
          ended t r (ap (λ (x : MessageRow). is_waiting x.status) e),
      omega (arith, m.count),
    )

-- After a call of `MarkDeferred` that succeeds, the message can be claimed from `retry_at` on,
-- and not before; the hourly count is unchanged.
pub mark_deferred_retries :
    (id : Str) (retry_at : ℕ) (reason : Str) (s s' : Store)
    → Returns (mark_deferred id retry_at reason s) tt s'
    → ((r : MessageRow) (t : ℕ)
        → Member r s'.messages
        → has_id id r ≡ true
        → claimable t r ≡ leb retry_at t)
      × (dispatches s.now s'.events ≡ dispatches s.now s.events)
unfolding mark_deferred set_deferred claimable
mark_deferred_retries id retry_at reason s s' h =
    let m = marked id _ email_deferred reason s s' h in
    (
      λ r t n i.
          let (q, e) = changed id _ r s.messages (subst (Member r) m.rows n) i in
          ap (claimable t) e ∙ and_true (leb retry_at t),
      omega (arith, m.count),
    )
  where
    and_true : (b : Bool) → (b && true) ≡ b
    and_true true = refl
    and_true false = refl

-- When the database fails at the second statement of `MarkSent` but not at the first, the call
-- returns an error, the message is final all the same, and no event is there to be counted.
pub mark_sent_uncounted :
    (id : Str) (s : Store) (rest : List Bool)
    → s.outage ≡ false ∷ true ∷ rest
    → ((mark_sent id s).0 ≡ err statement)
      × ((mark_sent id s).1.events ≡ s.events)
      × ((r : MessageRow) (t : ℕ)
          → Member r (mark_sent id s).1.messages
          → has_id id r ≡ true
          → claimable t r ≡ false)
unfolding mark_sent transition set_status exec record_event and_then
mark_sent_uncounted id s rest h = rw (h) (
  refl,
  refl,
  λ r t n i.
      let (q, e) = changed id _ r s.messages n i in
      ended t r (ap (λ (x : MessageRow). is_waiting x.status) e),
)
