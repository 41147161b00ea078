-- ===== src/Webhook/Guarded.antt =====
-- When `Sender.Send` of internal/webhook/sender.go gives a delivery up.
use ai_email.Base.{
  ℕ, ◌≡◌, refl, ap, ap₂, ◌∙◌, ◌↔◌, ◌⊎◌, inl, inr, none, some, [], Str, Result, ok, err, Option,
  arith,
}
use ai_email.Netguard.{Problem, Url, validate_url}
use ai_email.Netguard.Client.{webhook_hops, follow}
use ai_email.Webhook.{retry, drop, of_status, Http, of_response, attempt, send}

retry-ne-drop : retry ≡ drop → ⊥
retry-ne-drop h = cc

of_status-drop : (code : ℕ) → (of_status code).outcome ≡ drop → code ≡ 410
unfolding of_status
of_status-drop code h = ground arith

of_response-drop : (h : Http) (r : Result Problem ℕ) → (of_response h r).outcome ≡ drop → r ≡ ok 410
unfolding of_response
of_response-drop h (err e) d = absurd (retry-ne-drop d)
of_response-drop h (ok code) d = ap ok (of_status-drop code d)

attempt_drops :
    (h : Http) (url : Str) (r : Result Problem Url) (b : Option Str)
    → (attempt h url r b).1.outcome ≡ drop
    → ((e : Problem) × (r ≡ err e) × ((attempt h url r b).0 ≡ []))
      ⊎ ((u : Url) × (problem : Str) × (r ≡ ok u)
          × (b ≡ some problem)
          × ((attempt h url r b).0 ≡ []))
      ⊎ ((u : Url) × (r ≡ ok u)
          × (b ≡ none)
          × ((follow h.parser h.network webhook_hops url).1 ≡ ok 410))
unfolding attempt
attempt_drops h url (err e) b d = inl (e, refl, refl)
attempt_drops h url (ok u) (some problem) d = inr (inl (u, problem, refl, refl, refl))
attempt_drops h url (ok u) none d = inr (inr (u, refl, refl, of_response-drop h _ d))

-- The deliveries that are not tried again: a URL that is refused, a request that cannot be built, both
-- without a connection, and an endpoint whose last answer is 410.
pub data IsHopeless (h : Http) (url : Str) : Type 0 where
  refused :
      (e : Problem) → validate_url h.parser url ≡ err e → (send h url).0 ≡ [] → IsHopeless h url
  unbuilt :
      (u : Url) (problem : Str)
      → validate_url h.parser url ≡ ok u
      → h.bad_request url ≡ some problem
      → (send h url).0 ≡ []
      → IsHopeless h url
  gone :
      (u : Url)
      → validate_url h.parser url ≡ ok u
      → h.bad_request url ≡ none
      → (follow h.parser h.network webhook_hops url).1 ≡ ok 410
      → IsHopeless h url

send_drops : (h : Http) (url : Str) → (send h url).1.outcome ≡ drop → IsHopeless h url
unfolding send
send_drops h url d = elim (attempt_drops h url (validate_url h.parser url) (h.bad_request url) d) [
  | inl (e, r, none_dialled) ↦ refused e r none_dialled
  | inr (inl (u, problem, r, b, none_dialled)) ↦ unbuilt u problem r b none_dialled
  | inr (inr (u, r, b, last)) ↦ gone u r b last
]

of_response-gone : (h : Http) → (of_response h (ok 410)).outcome ≡ drop
unfolding of_response of_status
of_response-gone h = refl

hopeless_drops : (h : Http) (url : Str) → IsHopeless h url → (send h url).1.outcome ≡ drop
unfolding send attempt
hopeless_drops h url (refused e r none_dialled) =
    ap (λ x. (attempt h url x (h.bad_request url)).1.outcome) r
hopeless_drops h url (unbuilt u problem r b none_dialled) =
    ap₂ (λ x y. (attempt h url x y).1.outcome) r b
hopeless_drops h url (gone u r b last) =
    ap₂ (λ x y. (attempt h url x y).1.outcome) r b
    ∙ ap (λ x. (of_response h x).outcome) last
    ∙ of_response-gone h

-- A delivery is given up for good exactly if its URL is refused, or if no request can be built for it,
-- each without a connection, or if the URL passes and the last answer of its endpoint is 410.
pub send_drops_iff : (h : Http) (url : Str) → ((send h url).1.outcome ≡ drop) ↔ IsHopeless h url
send_drops_iff h url = (send_drops h url, hopeless_drops h url)
