-- ===== src/Httpapi/Auth/Admitted.antt =====
-- Whom `requireKey` of internal/httpapi/auth.go lets through while the database is up.
use ai_email.Base.{
  ℕ, ◌<◌, ◌≡◌, refl, ap, ◌∙◌, subst, true, false, some, List, [], ◌∷◌, ◌++◌, any, Str, Result, ok,
  arith, ltb, str_eq, str_eq_refl,
}
use ai_email.Keys.{parse}
use ai_email.Httpapi.{Request, Server}
use ai_email.Store.Steps.{lift, calls, translated, >>=-goes}
use ai_email.Httpapi.Auth.{
  bearer_token, unauthorized, or_unauthorized, well_formed, admit, authorize,
}
use ai_email.Store.{ApiKeyRow, Store, DbError}
use ai_email.Store.Domains.{found_or}
use ai_email.Store.Keeps.{Up, query-Up, and_then_goes}
use ai_email.Store.Keys.{
  ApiKey, revoked, expired, has_scope, NewApiKey, key_of, new_key, hashed, key_hashed,
  api_key_by_hash,
}

api_key_by_hash-Up :
    (hash : Str) (k : ApiKey) (s : Store)
    → Up s
    → key_hashed hash s.api_keys ≡ some k
    → api_key_by_hash hash s ≡ (ok k, s)
unfolding api_key_by_hash
api_key_by_hash-Up hash k s up h =
    and_then_goes _ found_or s (query-Up (λ t. (key_hashed hash t.api_keys, t)) s up)
    ∙ ap (λ o. found_or o s) h
    ∙ (unfold found_or in refl)

-- While the database is up, a token of the right form whose hash finds a key that passes the tests
-- is let through with that key.
pub authorize_admits :
    (sv : Server) (scope token : Str) (r : Request) (k : ApiKey) (s : Store)
    → Up s
    → bearer_token r.header_authorization ≡ some token
    → parse sv.unicode sv.encoding token ≡ ok tt
    → key_hashed (sv.sha256 token) s.api_keys ≡ some k
    → admit scope s.now k ≡ ok k
    → authorize sv scope r s ≡ (ok k, s)
unfolding authorize
authorize_admits sv scope token r k s up b p f a =
    >>=-goes (lift (or_unauthorized (bearer_token r.header_authorization))) _ s
      (ap (λ o. (or_unauthorized o, s)) b)
    ∙ >>=-goes (lift (well_formed token (parse sv.unicode sv.encoding token))) _ s
        (ap (λ o. (well_formed token o, s)) p)
    ∙ >>=-goes (calls (λ e. unauthorized) (api_key_by_hash (sv.sha256 token))) _ s (
        ap (λ (x : Result DbError ApiKey × Store). (translated (λ e. unauthorized) x.0, x.1))
          (api_key_by_hash-Up (sv.sha256 token) k s up f))
    ∙ ap (λ x. (x, s)) a

pub key_hashed-append :
    (hash : Str) (rows : List ApiKeyRow) (r : ApiKeyRow)
    → any (hashed hash) rows ≡ false
    → r.secret_hash ≡ hash
    → key_hashed hash (rows ++ (r ∷ [])) ≡ some (key_of r)
unfolding key_hashed
key_hashed-append hash [] r h e =
    let found : hashed hash r ≡ true =
      unfold hashed in (subst (λ x. str_eq r.secret_hash x ≡ true) e (str_eq_refl r.secret_hash)) in
    rw found refl
key_hashed-append hash (q ∷ rows) r h e =
    let other : hashed hash q ≡ false = ground arith in
    rw other (key_hashed-append hash rows r (ground arith) e)

pub admit-new :
    (scope : Str) (now : ℕ) (k : NewApiKey) (q id at : ℕ)
    → now < k.expires_at
    → has_scope scope k.scopes ≡ true
    → admit scope now (key_of (new_key k q id at)) ≡ ok (key_of (new_key k q id at))
unfolding admit revoked expired
admit-new scope now k q id at h g =
    let early : ltb now k.expires_at ≡ true = ground arith in rw (early, g) refl
