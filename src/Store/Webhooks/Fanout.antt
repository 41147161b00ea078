-- ===== src/Store/Webhooks/Fanout.antt =====
-- One delivery per endpoint and event, in internal/store/webhooks.go.
use ai_email.Base.{
  ℕ, ◌≤◌, ◌≡◌, refl, ap, sym, ◌∙◌, subst, Bool, true, false, ◌||◌, ◌==◌, ==_iff, ==_refl, &&_iff,
  inl, inr, List, [], ◌∷◌, ◌++◌, filter, length, length-append, any, filter-Member, ok, Bool-cases,
  clash, Str, str_eq, str_eq_refl, str_eq_sound, Member, arith,
}
use ai_email.Store.{EndpointRow, DeliveryRow, Store}
use ai_email.Store.Keeps.{exec-Up, exec_moves}
use ai_email.Store.Queue.Marks.{filter-append}
use ai_email.Store.Webhooks.{
  is_active, is_delivery, new_delivery, next_id, queue_one, queue_all, enqueue_delivery,
}

any-append :
    {A : Type 0} (p : A → Bool) (xs ys : List A) → any p (xs ++ ys) ≡ (any p xs || any p ys)
any-append p [] ys = refl
any-append p (x ∷ xs) ys = ground (arith, any-append p xs ys)

kept_append :
    {A : Type 0} (test : A → Bool) (xs ys : List A)
    → any test xs ≡ true
    → any test (xs ++ ys) ≡ true
kept_append test xs ys h = any-append test xs ys ∙ ap (λ x. x || any test ys) h

last_true : (b c : Bool) → c ≡ true → (b || (c || false)) ≡ true
last_true b c h = ground (arith, h)

module _ (event_id message_id payload : Str) (now : ℕ) where
  queue_one_keeps :
      (test : DeliveryRow → Bool) (endpoint : ℕ) (rows : List DeliveryRow)
      → any test rows ≡ true
      → any test (queue_one event_id message_id payload now endpoint rows) ≡ true
  unfolding queue_one
  queue_one_keeps test endpoint rows h =
      elim (Bool-cases (any (is_delivery endpoint event_id) rows)) [
        | inl e ↦ rw (e, any) h
        | inr e ↦ rw (e, any) (kept_append test rows _ h)
      ]

  queue_all_keeps :
      (test : DeliveryRow → Bool) (endpoints : List EndpointRow) (rows : List DeliveryRow)
      → any test rows ≡ true
      → any test (queue_all event_id message_id payload now endpoints rows) ≡ true
  unfolding queue_all
  queue_all_keeps test [] rows h = h
  queue_all_keeps test (e ∷ endpoints) rows h =
      queue_all_keeps test endpoints _ (queue_one_keeps test e.id rows h)

  is_its_delivery :
      (endpoint id : ℕ)
      → is_delivery endpoint event_id (new_delivery endpoint event_id message_id payload now id)
        ≡ true
  unfolding is_delivery
  is_its_delivery endpoint id = rw (==_refl endpoint, str_eq_refl event_id) refl

  queue_one_covers :
      (endpoint : ℕ) (rows : List DeliveryRow)
      → any
          (is_delivery endpoint event_id)
          (queue_one event_id message_id payload now endpoint rows)
        ≡ true
  unfolding queue_one
  queue_one_covers endpoint rows = elim (Bool-cases (any (is_delivery endpoint event_id) rows)) [
    | inl e ↦ rw (e, any) e
    | inr e ↦
        rw (e, any)
          (any-append (is_delivery endpoint event_id) rows _
            ∙ last_true _ _ (is_its_delivery endpoint (next_id (λ (d : DeliveryRow). d.id) rows)))
  ]

  pub queue_all_covers :
      (e : EndpointRow) (endpoints : List EndpointRow) (rows : List DeliveryRow)
      → Member e endpoints
      → any (is_delivery e.id event_id) (queue_all event_id message_id payload now endpoints rows)
        ≡ true
  unfolding queue_all
  queue_all_covers e [] rows m = absurd m
  queue_all_covers e (x ∷ endpoints) rows (inl same) =
      subst
        (λ (y : EndpointRow).
          any (is_delivery y.id event_id)
            (queue_all event_id message_id payload now (x ∷ endpoints) rows)
          ≡ true)
        (sym same)
        (queue_all_keeps (is_delivery x.id event_id) endpoints _ (queue_one_covers x.id rows))
  queue_all_covers e (x ∷ endpoints) rows (inr m) = queue_all_covers e endpoints _ m

  queue_all_noop :
      (endpoints : List EndpointRow) (rows : List DeliveryRow)
      → ((e : EndpointRow) → Member e endpoints → any (is_delivery e.id event_id) rows ≡ true)
      → queue_all event_id message_id payload now endpoints rows ≡ rows
  unfolding queue_all queue_one
  queue_all_noop [] rows h = refl
  queue_all_noop (e ∷ endpoints) rows h =
      let here = h e (inl refl) in
      rw (here, queue_all) (queue_all_noop endpoints rows (λ x m. h x (inr m)))

  none_counted :
      (test : DeliveryRow → Bool) (rows : List DeliveryRow)
      → any test rows ≡ false
      → length (filter test rows) ≡ 0
  none_counted test [] h = refl
  none_counted test (r ∷ rows) h = elim (Bool-cases (test r)) [
    | inl e ↦ absurd (clash (rw (e, any) refl) h)
    | inr e ↦ rw (e, length) (none_counted test rows (rw (e, any) at h))
  ]

  same_key :
      (endpoint : ℕ) (event : Str) (i id : ℕ) (rows : List DeliveryRow)
      → is_delivery endpoint event (new_delivery i event_id message_id payload now id) ≡ true
      → any (is_delivery i event_id) rows ≡ false
      → any (is_delivery endpoint event) rows ≡ false
  unfolding is_delivery
  same_key endpoint event i id rows k e =
      let (ids, events) = (&&_iff (i == endpoint) (str_eq event_id event)).0 k in
      subst (λ x. any (is_delivery endpoint x) rows ≡ false) (str_eq_sound event_id event events)
        (subst (λ n. any (is_delivery n event_id) rows ≡ false) ((==_iff i endpoint).0 ids) e)

  at_most :
      (test : DeliveryRow → Bool) (new : DeliveryRow) (rows : List DeliveryRow)
      → length (filter test rows) ≤ 1
      → (test new ≡ true → any test rows ≡ false)
      → length (filter test (rows ++ (new ∷ []))) ≤ 1
  at_most test new rows h other =
      rw (filter-append test rows (new ∷ []), length)
        (rw (length-append (filter test rows) (filter test (new ∷ [])), length)
          (elim (Bool-cases (test new)) [
            | inl k ↦ rw (k, length) (omega (arith, none_counted test rows (other k)))
            | inr k ↦ rw (k, length) (omega arith)
          ]))

  queue_one_once :
      (endpoint : ℕ) (event : Str) (i : ℕ) (rows : List DeliveryRow)
      → length (filter (is_delivery endpoint event) rows) ≤ 1
      → length
          (filter (is_delivery endpoint event) (queue_one event_id message_id payload now i rows))
        ≤ 1
  unfolding queue_one
  queue_one_once endpoint event i rows h = elim (Bool-cases (any (is_delivery i event_id) rows)) [
    | inl e ↦ rw (e, length) h
    | inr e ↦
        let id = next_id (λ (d : DeliveryRow). d.id) rows in
        rw (e, length)
          (at_most (is_delivery endpoint event) (new_delivery i event_id message_id payload now id)
            rows h (λ k. same_key endpoint event i id rows k e))
  ]

  queue_all_once :
      (endpoint : ℕ) (event : Str) (endpoints : List EndpointRow) (rows : List DeliveryRow)
      → length (filter (is_delivery endpoint event) rows) ≤ 1
      → length (
          filter
            (is_delivery endpoint event)
            (queue_all event_id message_id payload now endpoints rows))
        ≤ 1
  unfolding queue_all
  queue_all_once endpoint event [] rows h = h
  queue_all_once endpoint event (e ∷ endpoints) rows h =
      queue_all_once endpoint event endpoints _ (queue_one_once endpoint event e.id rows h)

-- If an endpoint has at most one delivery of an event, this is so after any call of
-- `EnqueueDelivery`, whether it succeeds or not.
pub enqueue_delivery_once :
    (event_id message_id payload : Str) (s : Store) (endpoint : ℕ) (event : Str)
    → length (filter (is_delivery endpoint event) s.deliveries) ≤ 1
    → length (
        filter
          (is_delivery endpoint event)
          (enqueue_delivery event_id message_id payload s).1.deliveries)
      ≤ 1
unfolding enqueue_delivery
enqueue_delivery_once event_id message_id payload s endpoint event h =
    exec_moves (λ t. length (filter (is_delivery endpoint event) t.deliveries) ≤ 1)
      (λ t. length (filter (is_delivery endpoint event) t.deliveries) ≤ 1) _ s (λ t q. q) (λ t q. q)
      (λ t q.
        queue_all_once event_id message_id payload t.now endpoint event
          (filter is_active t.endpoints) t.deliveries q)
      h

-- While the database is up, `EnqueueDelivery` leaves a delivery of the event for every active
-- endpoint, and a second call for the event, with whatever payload, changes nothing.
pub enqueue_delivery_again :
    (event_id message_id payload other_message other_payload : Str) (s : Store)
    → s.outage ≡ []
    → let t = (enqueue_delivery event_id message_id payload s).1 in
      ((e : EndpointRow)
        → Member e s.endpoints
        → e.active ≡ true
        → any (is_delivery e.id event_id) t.deliveries ≡ true)
      × (enqueue_delivery event_id other_message other_payload t ≡ (ok tt, t))
unfolding enqueue_delivery
enqueue_delivery_again event_id message_id payload other_message other_payload s up =
    let endpoints = filter is_active s.endpoints in
    let rows = queue_all event_id message_id payload s.now endpoints s.deliveries in
    let covers = λ (e : EndpointRow) (m : Member e endpoints).
      queue_all_covers event_id message_id payload s.now e endpoints s.deliveries m in
    let same = queue_all_noop event_id other_message other_payload s.now endpoints rows covers in
    rw (exec-Up _ s up) (
      λ e m active. covers e (filter-Member is_active e s.endpoints m active),
      exec-Up _ (record s { deliveries = rows }) up
          ∙ ap (λ d. (ok tt, record s { deliveries = d })) same,
    )
