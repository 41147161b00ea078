-- ===== src/Httpapi/Auth/Granted.antt =====
-- Whom `requireKey` of internal/httpapi/auth.go lets through.
use ai_email.Base.{
  ℕ, ◌<◌, ◌≡◌, refl, sym, ap, ◌∙◌, subst, inl, inr, true, false, Option, none, some, List, [], ◌∷◌,
  Str, str_eq, str_eq_sound, Result, ok, err, Member, Bool-cases, arith, ok-inj, some-inj,
  none-ne-some, err-ne-ok, ltb, ltb→lt,
}
use ai_email.Keys.{parse}
use ai_email.Httpapi.{Request, Server}
use ai_email.Store.Steps.{lift, calls}
use ai_email.Httpapi.Auth.{
  bearer_token, unauthorized, or_unauthorized, well_formed, admit, authorize,
}
use ai_email.Store.Steps.{>>=-made, calls_made, found_made}
use ai_email.Store.{ApiKeyRow, Store}
use ai_email.Store.Keys.{
  ApiKey, is_some, revoked, expired, has_scope, key_of, hashed, key_hashed, api_key_by_hash,
}

-- The row that a hash finds.
key_hashed_row :
    (hash : Str) (rows : List ApiKeyRow) (k : ApiKey)
    → key_hashed hash rows ≡ some k
    → (row : ApiKeyRow) × Member row rows × (row.secret_hash ≡ hash) × (k ≡ key_of row)
unfolding key_hashed
key_hashed_row hash [] k h = absurd (none-ne-some h)
key_hashed_row hash (r ∷ rows) k h = elim (Bool-cases (hashed hash r)) [
  | inl e ↦ (
    r,
    inl refl,
    str_eq_sound r.secret_hash hash (unfold hashed in e),
    sym (some-inj (rw (e, key_hashed) at h)),
  )
  | inr e ↦
      let (row, m, q, w) = key_hashed_row hash rows k (rw (e, key_hashed) at h) in
      (row, inr m, q, w)
]

has_scope-Member :
    (want : Str) (scopes : List Str) → has_scope want scopes ≡ true → Member want scopes
unfolding has_scope
has_scope-Member want [] h = absurd (ground arith)
has_scope-Member want (s ∷ scopes) h = elim (Bool-cases (str_eq s want)) [
  | inl e ↦ inl (sym (str_eq_sound s want e))
  | inr e ↦ inr (has_scope-Member want scopes (ground arith))
]

-- A key that may be used for a purpose at a time.
pub record IsUsable (scope : Str) (now : ℕ) (k : ApiKey) : Type 0 where
  pub live : k.revoked_at ≡ none
  pub unexpired : now < k.expires_at
  pub scoped : Member scope k.scopes

not_some : {o : Option ℕ} → is_some o ≡ false → o ≡ none
not_some {o = none} h = refl
not_some {o = some n} h = cc

admit_made :
    (scope : Str) (now : ℕ) (k : ApiKey) {a : ApiKey}
    → admit scope now k ≡ ok a
    → (a ≡ k) × IsUsable scope now k
unfolding admit revoked expired
admit_made scope now k h =
    let live : is_some k.revoked_at ≡ false = ground arith in
    let early : ltb now k.expires_at ≡ true = ground arith in
    let scoped : has_scope scope k.scopes ≡ true = ground arith in
    (
      ground arith,
      record {
        live = not_some live;
        unexpired = ltb→lt now k.expires_at early;
        scoped = has_scope-Member scope k.scopes scoped;
      },
    )

pub or_unauthorized_made :
    {A : Type 0} (o : Option A) {a : A} → or_unauthorized o ≡ ok a → o ≡ some a
or_unauthorized_made none h = absurd (err-ne-ok h)
or_unauthorized_made (some a) h = ap some (ok-inj h)

pub well_formed_made :
    {E : Type 0} (secret : Str) (r : Result E (Unit {0})) {a : Str}
    → well_formed secret r ≡ ok a
    → (a ≡ secret) × (r ≡ ok tt)
well_formed_made secret (err e) h = absurd (err-ne-ok h)
well_formed_made secret (ok tt) h = (sym (ok-inj h), refl)

pub authorize_made :
    (sv : Server) (scope : Str) (r : Request) (s : Store) (key : ApiKey)
    → (authorize sv scope r s).0 ≡ ok key
    → (token : Str) × (bearer_token r.header_authorization ≡ some token)
      × (parse sv.unicode sv.encoding token ≡ ok tt)
      × (key_hashed (sv.sha256 token) s.api_keys ≡ some key)
      × IsUsable scope s.now key
unfolding authorize api_key_by_hash
authorize_made sv scope r s key h =
    let (token, a, h, _) =
      >>=-made (lift (or_unauthorized (bearer_token r.header_authorization))) _ s h in
    let (secret, b, h, _) =
      >>=-made (lift (well_formed token (parse sv.unicode sv.encoding token))) _ s h in
    let lookup = api_key_by_hash (sv.sha256 secret) in
    let (k, c, h, _) = >>=-made (calls (λ e. unauthorized) lookup) _ s h in
    let (e, parsed) = well_formed_made token _ b in
    let (found, at) =
      found_made (λ u. key_hashed (sv.sha256 secret) u.api_keys) s (calls_made _ lookup s c) in
    let (same, usable) = admit_made scope _ k h in
    (
      token,
      or_unauthorized_made _ a,
      parsed,
      ap (λ x. key_hashed (sv.sha256 x) s.api_keys) (sym e) ∙ found ∙ ap some (sym same),
      subst (λ (u : Store). IsUsable scope u.now key) at
          (subst (IsUsable scope _) (sym same) usable),
    )

-- Where the handler runs, the request has a bearer token of the right form, and a row holds the
-- token's hash, is not revoked, has not expired and has the scope.
pub authorize_sound :
    (sv : Server) (scope : Str) (r : Request) (s : Store) (key : ApiKey)
    → (authorize sv scope r s).0 ≡ ok key
    → (token : Str) × (row : ApiKeyRow) × (bearer_token r.header_authorization ≡ some token)
      × (parse sv.unicode sv.encoding token ≡ ok tt)
      × Member row s.api_keys
      × (row.secret_hash ≡ sv.sha256 token)
      × (key ≡ key_of row)
      × IsUsable scope s.now key
authorize_sound sv scope r s key h =
    let (token, b, parsed, found, usable) = authorize_made sv scope r s key h in
    let (row, m, q, w) = key_hashed_row (sv.sha256 token) s.api_keys key found in
    (token, row, b, parsed, m, q, w, usable)
