-- ===== src/Httpapi/Auth/Refused.antt =====
-- Whom `requireKey` of internal/httpapi/auth.go turns away, and what they are told.
use ai_email.Base.{
  ℕ, ◌≡◌, refl, sym, ap, ◌∙◌, subst, ◌⊎◌, inl, inr, true, false, Option, none, some, Str, Result,
  ok, err, Bool-cases, Result-cases, arith, some-inj, err-ne-ok, err-inj, clash, ◌||◌,
}
use ai_email.Keys.{parse}
use ai_email.Httpapi.{Reply, Request, Server}
use ai_email.Store.Steps.{lift, calls}
use ai_email.Httpapi.Auth.{
  bearer_token, unauthorized, insufficient_scope, or_unauthorized, well_formed, admit, authorize,
  handed, require_key,
}
use ai_email.Store.Steps.{>>=-failed, calls_made, calls_failed, found_made}
use ai_email.Store.Keeps.{Up}
use ai_email.Store.Keys.Revoked.{FindsRevoked, KeyRun, revoke_lasts}
use ai_email.Store.{Store}
use ai_email.Store.Keys.{
  ApiKey, is_some, revoked, expired, has_scope, key_hashed, api_key_by_hash, revoke_api_key,
}
use ai_email.Httpapi.Auth.Granted.{or_unauthorized_made, well_formed_made, authorize_made}

-- What a rejected caller is told.
abbrev pub IsRejection : Server → Str → Request → Store → Reply → Type 0
IsRejection sv scope r s reply =
    (reply ≡ unauthorized)
    ⊎ ((reply ≡ insufficient_scope)
        × ((token : Str) × (key : ApiKey) × (bearer_token r.header_authorization ≡ some token)
            × (key_hashed (sv.sha256 token) s.api_keys ≡ some key)
            × (revoked key ≡ false)
            × (expired key s.now ≡ false)
            × (has_scope scope key.scopes ≡ false)))

or_unauthorized_failed :
    {A : Type 0} (o : Option A) {reply : Reply}
    → or_unauthorized o ≡ err reply
    → reply ≡ unauthorized
or_unauthorized_failed none h = err-inj (sym h)
or_unauthorized_failed (some a) h = absurd (err-ne-ok (sym h))

well_formed_failed :
    {E : Type 0} (secret : Str) (r : Result E (Unit {0})) {reply : Reply}
    → well_formed secret r ≡ err reply
    → reply ≡ unauthorized
well_formed_failed secret (err e) h = err-inj (sym h)
well_formed_failed secret (ok tt) h = absurd (err-ne-ok (sym h))

admit_failed :
    (scope : Str) (now : ℕ) (k : ApiKey) {reply : Reply}
    → admit scope now k ≡ err reply
    → (reply ≡ unauthorized)
      ⊎ ((reply ≡ insufficient_scope)
          × (revoked k ≡ false)
          × (expired k now ≡ false)
          × (has_scope scope k.scopes ≡ false))
unfolding admit
admit_failed scope now k h = elim (Bool-cases (revoked k || expired k now)) [
  | inl e ↦ inl (err-inj (sym (rw (e, admit) at h)))
  | inr e ↦ elim (Bool-cases (has_scope scope k.scopes)) [
    | inl f ↦ absurd (err-ne-ok (sym (rw (e, f, admit) at h)))
    | inr f ↦ inr (err-inj (sym (rw (e, f, admit) at h)), ground arith, ground arith, f)
  ]
]

-- Every rejection is the same, but where the token is that of a usable key without the scope: so a
-- caller who has no usable key learns nothing of keys.
pub authorize_refuses :
    (sv : Server) (scope : Str) (r : Request) (s : Store) (reply : Reply)
    → (authorize sv scope r s).0 ≡ err reply
    → IsRejection sv scope r s reply
unfolding authorize api_key_by_hash
authorize_refuses sv scope r s reply h =
    elim (>>=-failed (lift (or_unauthorized (bearer_token r.header_authorization))) _ s h) [
      | inl e ↦ inl (or_unauthorized_failed _ e)
      | inr (token, a, h) ↦
          elim (>>=-failed (lift (well_formed token (parse sv.unicode sv.encoding token))) _ s h) [
            | inl e ↦ inl (well_formed_failed token _ e)
            | inr (secret, b, h) ↦
                elim (>>=-failed (calls (λ e. unauthorized) (api_key_by_hash (sv.sha256 secret))) _
                  s h) [
                    | inl e ↦
                        inl (calls_failed unauthorized (api_key_by_hash (sv.sha256 secret)) s e)
                    | inr (k, c, h) ↦
                        let (e, parsed) = well_formed_made token _ b in
                        let lookup = api_key_by_hash (sv.sha256 secret) in
                        let (found, at) =
                          found_made (λ u. key_hashed (sv.sha256 secret) u.api_keys) s
                            (calls_made _ lookup s c) in
                        elim (admit_failed scope _ k h) [
                          | inl q ↦ inl q
                          | inr (q, live, fresh, bare) ↦ inr (
                            q,
                            (
                              token,
                              k,
                              or_unauthorized_made _ a,
                              ap (λ x. key_hashed (sv.sha256 x) s.api_keys) (sym e) ∙ found,
                              live,
                              subst (λ (u : Store). expired k u.now ≡ false) at fresh,
                              bare,
                            ),
                          )
                        ]
                  ]
          ]
    ]

revoked_not_live : (k : ApiKey) → revoked k ≡ true → k.revoked_at ≡ none → ⊥
unfolding revoked
revoked_not_live k h e = cc (h, ap is_some e)

revoked_unauthorized :
    (sv : Server) (scope token : Str) (r : Request) (s : Store)
    → bearer_token r.header_authorization ≡ some token
    → FindsRevoked (sv.sha256 token) s.api_keys
    → (authorize sv scope r s).0 ≡ err unauthorized
revoked_unauthorized sv scope token r s b (k, found, dead) =
    elim (Result-cases (authorize sv scope r s).0) [
      | inl (key, e) ↦
          let (token', b', _, found', usable) = authorize_made sv scope r s key e in
          let same = some-inj (sym b ∙ b') in
          let alike =
            some-inj (sym found ∙ ap (λ x. key_hashed (sv.sha256 x) s.api_keys) same ∙ found') in
          absurd (revoked_not_live key (ap revoked (sym alike) ∙ dead) usable.live)
      | inr (reply, e) ↦ elim (authorize_refuses sv scope r s reply e) [
        | inl q ↦ e ∙ ap err q
        | inr (q, (token', key, b', found', live, _, _)) ↦
            let same = some-inj (sym b ∙ b') in
            let alike =
              some-inj (sym found ∙ ap (λ x. key_hashed (sv.sha256 x) s.api_keys) same ∙ found') in
            absurd (clash dead (ap revoked alike ∙ live))
      ]
    ]

handed-unauthorized :
    (sv : Server) (next : ApiKey → Request → Store → Reply × Store) (r : Request)
    (v : Result Reply ApiKey) (s : Store)
    → v ≡ err unauthorized
    → handed sv next r v s ≡ (unauthorized, s)
unfolding handed
handed-unauthorized sv next r v s e = rw e refl

-- Once `RevokeAPIKey` has run on the key of a token while the database was up, a request with that
-- token is turned away for good, whatever happens to the keys, and its handler does not run.
pub revoked_refused :
    (sv : Server) (scope token : Str) (next : ApiKey → Request → Store → Reply × Store)
    (r : Request) (k : ApiKey) (s t : Store)
    → Up s
    → key_hashed (sv.sha256 token) s.api_keys ≡ some k
    → KeyRun (revoke_api_key k.id s).1 t
    → bearer_token r.header_authorization ≡ some token
    → require_key sv scope next r t ≡ (unauthorized, (authorize sv scope r t).1)
unfolding require_key
revoked_refused sv scope token next r k s t up found run b =
    handed-unauthorized sv next r _ _ (
      revoked_unauthorized sv scope token r t b (revoke_lasts (sv.sha256 token) k s t up found run))
