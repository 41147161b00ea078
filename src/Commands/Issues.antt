-- ===== src/Commands/Issues.antt =====
-- The keys that `runCreateKey` of cmd/aiemail/admin.go issues open the API of internal/httpapi.
use ai_email.Base.{
  ℕ, ◌+◌, ◌*◌, ◌≤◌, ◌<◌, ◌≡◌, refl, sym, ap, ◌∙◌, subst, true, false, ltb, some, [], ◌∷◌, ◌++◌, any,
  Str, str_eq, trim_space, Result, ok, arith, pos, ℤ, length,
}
use ai_email.Keys.{generate, lifetime, day}
use ai_email.Keys.Issued.{Decodes, parse-generate, lifetime_bounds}
use ai_email.Commands.{
  Problem, failed, days_duration, split_scopes, require_name, new_api_key, run_create_key,
}
use ai_email.Httpapi.{Reply, Request, Server}
use ai_email.Httpapi.Auth.{bearer_token, authorize}
use ai_email.Httpapi.Auth.Admitted.{authorize_admits, key_hashed-append, admit-new}
use ai_email.Store.{ApiKeyRow, Store, DbError}
use ai_email.Store.Keeps.{Up, attempt-Up}
use ai_email.Store.Keys.{
  ApiKey, NewApiKey, has_scope, key_of, new_key, next_key_id, hashed, max_integer, insert_key,
  create_api_key,
}
use ai_email.Store.Steps.{>>=-goes, lift, translated}

abbrev with_key : Store → ApiKeyRow → Store
with_key s row = record s { api_keys = s.api_keys ++ (row ∷ []) }

in_range : (quota : ℕ) → quota ≤ max_integer → ltb max_integer quota ≡ false
in_range quota h = ground arith

create_api_key-Up :
    (k : NewApiKey) (quota : ℕ) (s : Store)
    → Up s
    → k.quota_per_hour ≡ pos quota
    → quota ≤ max_integer
    → any (hashed k.secret_hash) s.api_keys ≡ false
    → create_api_key k s ≡ (
      ok (key_of (new_key k quota (next_key_id s.api_keys) s.now)),
      with_key s (new_key k quota (next_key_id s.api_keys) s.now),
    )
unfolding create_api_key
create_api_key-Up k quota s up q small free =
    attempt-Up (insert_key k k.quota_per_hour) s _ _ up
      (ap (λ x. insert_key k x s) q ∙ (unfold insert_key in rw (in_range quota small, free) refl))

require_name-ok : (name : Str) → str_eq (trim_space name) [] ≡ false → require_name name ≡ ok tt
unfolding require_name
require_name-ok name h = rw h refl

-- With a name, a quota that is not negative and fits in 32 bits, fresh key bytes and the database up, `keys create`
-- stores a key that lives for a year at most, whatever lifetime was asked for; and until its lifetime
-- ends, a request with its secret is let through for each of its scopes.
pub created_key_opens :
    (sv : Server) (raw name scopes scope : Str) (quota now : ℕ) (days : ℤ) (r : Request) (s : Store)
    → Decodes sv.encoding
    → length raw ≡ 32
    → Up s
    → str_eq (trim_space name) [] ≡ false
    → quota ≤ max_integer
    → any (hashed (generate sv.unicode sv.encoding sv.sha256 raw).hash) s.api_keys ≡ false
    → bearer_token r.header_authorization
      ≡ some (generate sv.unicode sv.encoding sv.sha256 raw).secret
    → has_scope scope (split_scopes scopes) ≡ true
    → now < s.now + lifetime (days_duration days)
    → (key : ApiKey) × ((run_create_key sv.unicode sv.encoding sv.sha256 raw name scopes
          (pos quota)
          days
          s).0
        ≡ ok key)
      × (key.expires_at ≤ s.now + 365 * day)
      × ((authorize sv scope r
            (record (run_create_key sv.unicode sv.encoding sv.sha256 raw name scopes
              (pos quota)
              days
              s).1 { now = now })).0
          ≡ ok key)
unfolding run_create_key generate
created_key_opens sv raw name scopes scope quota now days r s d l up named small free b g early =
    let k =
      new_api_key sv.unicode sv.encoding sv.sha256 raw name (split_scopes scopes) (pos quota)
        (s.now + lifetime (days_duration days)) in
    let row = new_key k quota (next_key_id s.api_keys) s.now in
    let made =
      >>=-goes (lift (require_name name)) _ s (ap (λ x. (x, s)) (require_name-ok name named))
      ∙ ap (λ (x : Result DbError ApiKey × Store). (translated failed x.0, x.1))
          (create_api_key-Up k quota s up refl small free) in
    let found = key_hashed-append k.secret_hash s.api_keys row free refl in
    let opens =
      authorize_admits sv scope (generate sv.unicode sv.encoding sv.sha256 raw).secret r
        (key_of row) (record (with_key s row) { now = now }) up b
        (parse-generate sv.unicode sv.encoding sv.sha256 raw d l) found
        (admit-new scope now k quota _ s.now early g) in
    (
      key_of row,
      ap (λ (x : Result Problem ApiKey × Store). x.0) made,
      omega (arith, lifetime_bounds (days_duration days)),
      subst
          (λ (x : Result Problem ApiKey × Store).
            (authorize sv scope r (record x.1 { now = now })).0 ≡ ok (key_of row))
          (sym made) (ap (λ (x : Result Reply ApiKey × Store). x.0) opens),
    )
