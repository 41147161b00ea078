-- ===== src/Worker/Keeps.antt =====
-- What the parts of `deliver` of internal/worker/worker.go leave unchanged beside the message.
use ai_email.Base.{
  ℕ, Bool, true, false, List, [], ◌∷◌, Option, none, some, Result, ok, err, if◌then◌else◌, Str,
}
use ai_email.Store.{MessageRow, EventType, SuppressionRow, DeliveryRow, Store, update_where}
use ai_email.Store.Keeps.{Steady, exec_moves, query_moves, and_then_moves, continue_moves}
use ai_email.Store.Queue.{Claimed, has_id}
use ai_email.Store.Webhooks.{enqueue_delivery}
use ai_email.Store.Domains.{SigningKey, found_or, signing_key_for_message, mark_signed}
use ai_email.Store.Suppressions.{suppress}
use ai_email.Worker.{
  Worker, SignError, build_payload, event_id_of, publish, sign_with, sign, suppress_all,
  suppress_if_address_is_bad,
}

pub if_either {ℓ} :
    {B : Type ℓ} (Q : B → Type 0) (b : Bool) {x y : B} → Q x → Q y → Q (if b then x else y)
if_either Q true h k = h
if_either Q false h k = k

option_either {ℓ} :
    {A : Type 0} {B : Type ℓ} (Q : B → Type 0) (o : Option A) {x : B} {f : A → B}
    → Q x
    → ((a : A) → Q (f a))
    → Q (elim o [ none ↦ x | some a ↦ f a ])
option_either Q none h k = h
option_either Q (some a) h k = k a

pub result_either {ℓ} :
    {A E : Type 0} {B : Type ℓ} (Q : B → Type 0) (r : Result E A) {f : E → B} {g : A → B}
    → ((e : E) → Q (f e))
    → ((a : A) → Q (g a))
    → Q (elim r [ err e ↦ f e | ok a ↦ g a ])
result_either Q (err e) h k = h e
result_either Q (ok a) h k = k a

module _ (P : Store → Type 0) (steady : Steady P) where
  pub publish_keeps :
      ((s : Store) (rows : List DeliveryRow) → P s → P (record s { deliveries = rows }))
      → (w : Worker) (id : Str) (event : EventType) (reason : Str) (attempt : ℕ) (s : Store) → P s
      → P (publish w id event reason attempt s)
  unfolding publish enqueue_delivery
  publish_keeps keep w id event reason attempt s p =
      if_either P w.has_events
        (option_either P (build_payload w (event_id_of id event attempt) event id reason s.now) p
          (λ payload. exec_moves P P _ s steady (λ t q. q) (λ t q. keep t _ q) p))
        p

  suppress_all_keeps :
      ((s : Store) (rows : List SuppressionRow) → P s → P (record s { suppressions = rows }))
      → (w : Worker) (reason detail id : Str) (recipients : List Str) (s : Store) → P s
      → P (suppress_all w reason detail id recipients s)
  unfolding suppress_all suppress
  suppress_all_keeps keep w reason detail id [] s p = p
  suppress_all_keeps keep w reason detail id (r ∷ recipients) s p =
      suppress_all_keeps keep w reason detail id recipients _
        (exec_moves P P _ s steady (λ t q. q) (λ t q. keep t _ q) p)

  pub suppress_if_address_is_bad_keeps :
      ((s : Store) (rows : List SuppressionRow) → P s → P (record s { suppressions = rows }))
      → (w : Worker) (msg : Claimed) (reason : Str) (s : Store) → P s
      → P (suppress_if_address_is_bad w msg reason s)
  unfolding suppress_if_address_is_bad
  suppress_if_address_is_bad_keeps keep w msg reason s p =
      if_either P _ (suppress_all_keeps keep w _ _ msg.id msg.recipients s p) p

  abbrev Signable : Type 0
  Signable =
      (s : Store) (id : Str)
      → P s
      → P (record s {
        messages =
            update_where (has_id id) (λ (r : MessageRow). record r { signed_at = some s.now })
              s.messages;
      })

  sign_with_keeps :
      Signable
      → (w : Worker) (signer : SigningKey → Str → Result Str Str) (msg : Claimed) (key : SigningKey)
        (s : Store)
      → P s
      → P (sign_with w signer msg key s).1
  unfolding sign_with mark_signed
  sign_with_keeps keep w signer msg key s p =
      result_either (λ (b : Result SignError Str × Store). P b.1) _ (λ problem. p)
        (λ raw.
          result_either (λ (b : Result SignError Str × Store). P b.1) (signer key raw) (λ x. p)
            (λ signed. exec_moves P P _ s steady (λ t q. q) (λ t q. keep t msg.id q) p))

  found_or_keeps : {A : Type 0} (a : Option A) (s : Store) → P s → P (found_or a s).1
  unfolding found_or
  found_or_keeps none s p = p
  found_or_keeps (some a) s p = p

  asked : (id : Str) (s : Store) → P s → P (signing_key_for_message id s).1
  unfolding signing_key_for_message
  asked id s p =
      and_then_moves P P _ found_or s (query_moves P _ s steady (λ t q. q) p) (λ t q. q)
        found_or_keeps

  pub sign_keeps : Signable → (w : Worker) (msg : Claimed) (s : Store) → P s → P (sign w msg s).1
  unfolding sign
  sign_keeps keep w msg s p =
      option_either (λ (b : Result SignError Str × Store). P b.1) w.signer p
        (λ signer.
          if_either (λ (b : Result SignError Str × Store). P b.1) w.has_keys
            (continue_moves (λ (b : Result SignError Str × Store). P b.1)
              (signing_key_for_message msg.id s).0 (λ key t. sign_with w signer msg key t)
              (λ x t. (err (SignError.no_active_key x), t)) (signing_key_for_message msg.id s).1
              (λ key. sign_with_keeps keep w signer msg key _ (asked msg.id s p))
              (λ x. asked msg.id s p))
            p)
