-- ===== src/Store/Keys/Revoked.antt =====
-- A revoked key of internal/store/keys.go stays revoked.
use ai_email.Base.{
  ℕ, ◌≡◌, refl, ap, sym, ◌∙◌, inl, inr, Bool, true, false, ◌||◌, ltb, Option, some, List, [], ◌∷◌,
  ◌++◌, any, Str, Result, Bool-cases, if◌then◌else◌, arith, some-inj, none-ne-some, subst, pos,
  negsuc, ℤ,
}
use ai_email.Store.{ApiKeyRow, Store, DbError, update_where}
use ai_email.Store.Keeps.{
  Up, query-Up, and_then_goes, exec_moves, query_moves, attempt_moves, and_then_moves,
}
use ai_email.Store.Keys.{
  ApiKey, is_some, revoked, NewApiKey, key_of, hashed, max_integer, insert_key, create_api_key,
  key_hashed, has_key_id, used_at, touch_api_key, revocable, revoked_from, revoke_rows,
  revoke_api_key,
}

-- The key that a hash finds is revoked.
abbrev pub FindsRevoked : Str → List ApiKeyRow → Type 0
FindsRevoked hash rows = (k : ApiKey) × (key_hashed hash rows ≡ some k) × (revoked k ≡ true)

-- A row keeps its hash, and a revoked row stays so.
abbrev KeepsRevoked : (ApiKeyRow → ApiKeyRow) → Type 0
KeepsRevoked f =
    (r : ApiKeyRow)
    → ((f r).secret_hash ≡ r.secret_hash)
      × (is_some r.revoked_at ≡ true → is_some (f r).revoked_at ≡ true)

revoked_row :
    (now id : ℕ) (r : ApiKeyRow)
    → r.id ≡ id
    → is_some (if revocable id r then revoked_from now r else r).revoked_at ≡ true
unfolding revocable has_key_id
revoked_row now id r e = elim (Bool-cases (is_some r.revoked_at)) [
  | inl g ↦ ground arith
  | inr g ↦ ground arith
]

hash_kept :
    (hash : Str) (now : ℕ) (b : Bool) (r : ApiKeyRow)
    → hashed hash (if b then revoked_from now r else r) ≡ hashed hash r
unfolding hashed
hash_kept hash now true r = refl
hash_kept hash now false r = refl

module _ (hash : Str) where
  first_revoked : List ApiKeyRow → Bool
  first_revoked [] = false
  first_revoked (r ∷ rows) = if hashed hash r then is_some r.revoked_at else first_revoked rows

  first_revoked-found : (rows : List ApiKeyRow) → first_revoked rows ≡ true → FindsRevoked hash rows
  unfolding first_revoked key_hashed revoked
  first_revoked-found [] h = cc
  first_revoked-found (r ∷ rows) h = elim (Bool-cases (hashed hash r)) [
    | inl e ↦ rw e (key_of r, refl, ground arith)
    | inr e ↦ rw e (first_revoked-found rows (ground arith))
  ]

  found-first_revoked :
      (rows : List ApiKeyRow) (k : ApiKey)
      → key_hashed hash rows ≡ some k
      → revoked k ≡ true
      → first_revoked rows ≡ true
  unfolding first_revoked key_hashed revoked
  found-first_revoked [] k h g = cc
  found-first_revoked (r ∷ rows) k h g = elim (Bool-cases (hashed hash r)) [
    | inl e ↦ ground arith
    | inr e ↦ ground (arith, found-first_revoked rows k)
  ]

  first_revoked-append :
      (rows more : List ApiKeyRow) → first_revoked rows ≡ true → first_revoked (rows ++ more) ≡ true
  unfolding first_revoked
  first_revoked-append [] more h = cc
  first_revoked-append (r ∷ rows) more h = ground (arith, first_revoked-append rows more)

  first_revoked-update :
      (test : ApiKeyRow → Bool) (f : ApiKeyRow → ApiKeyRow) (rows : List ApiKeyRow)
      → KeepsRevoked f
      → first_revoked rows ≡ true
      → first_revoked (update_where test f rows) ≡ true
  unfolding first_revoked update_where hashed
  first_revoked-update test f [] keeps h = cc
  first_revoked-update test f (r ∷ rows) keeps h = elim (Bool-cases (test r)) [
    | inl e ↦
        rw (e, (keeps r).0) (ground (arith, (keeps r).1, first_revoked-update test f rows keeps))
    | inr e ↦ rw e (ground (arith, first_revoked-update test f rows keeps))
  ]

  first_revoked-revoke :
      (now : ℕ) (rows : List ApiKeyRow) (k : ApiKey)
      → key_hashed hash rows ≡ some k
      → first_revoked (update_where (revocable k.id) (revoked_from now) rows) ≡ true
  unfolding first_revoked key_hashed update_where revocable has_key_id hashed
  first_revoked-revoke now [] k h = cc
  first_revoked-revoke now (r ∷ rows) k h = elim (Bool-cases (hashed hash r)) [
    | inl e ↦
        let same : key_of r ≡ k = some-inj (rw (e, key_hashed) at h) in
        rw (hash_kept hash now (revocable k.id r) r ∙ e)
          (revoked_row now k.id r (ap (λ (x : ApiKey). x.id) same))
    | inr e ↦
        let later : key_hashed hash rows ≡ some k = rw (e, key_hashed) at h in
        rw (hash_kept hash now (revocable k.id r) r ∙ e) (first_revoked-revoke now rows k later)
  ]

-- What may happen to the keys: the operations of the package, with any outage, as time passes.
pub data KeyStep : Store → Store → Type 0 where
  creates : (s : Store) (k : NewApiKey) → KeyStep s (create_api_key k s).1
  touches : (s : Store) (id : ℕ) (ip : Option Str) → KeyStep s (touch_api_key id ip s).1
  revokes : (s : Store) (id : ℕ) → KeyStep s (revoke_api_key id s).1
  passes :
      (s : Store) (now : ℕ) (outage : List Bool)
      → KeyStep s (record s { now = now; outage = outage })

pub data KeyRun (s : Store) : Store → Type 0 where
  here : KeyRun s s
  next : {t u : Store} → KeyRun s t → KeyStep t u → KeyRun s u

module _ (hash : Str) where
  abbrev Kept : Store → Type 0
  Kept s = first_revoked hash s.api_keys ≡ true

  revoke_api_key-Kept : (id : ℕ) (s : Store) → Kept s → Kept (revoke_api_key id s).1
  unfolding revoke_api_key revoke_rows
  revoke_api_key-Kept id s h =
      and_then_moves Kept Kept (revoke_rows id) _ s
        (query_moves Kept _ s (λ t g. g)
          (λ t g.
            first_revoked-update hash (revocable id) (revoked_from t.now) t.api_keys
              (λ r. (refl, λ _. refl)) g)
          h)
        (λ t g. g) (λ affected t g. g)

  insert_key-Kept :
      (k : NewApiKey) (quota : ℤ) (s t : Store) (a : ApiKey)
      → Kept s
      → insert_key k quota s ≡ some (a, t)
      → Kept t
  unfolding insert_key
  insert_key-Kept k (negsuc n) s t a h e = absurd (none-ne-some e)
  insert_key-Kept k (pos n) s t a h e =
      elim (Bool-cases (ltb max_integer n || any (hashed k.secret_hash) s.api_keys)) [
        | inl b ↦ absurd (none-ne-some (rw (b, insert_key) at e))
        | inr b ↦
            let made = some-inj (rw (b, insert_key) at e) in
            subst Kept (ap (λ (p : ApiKey × Store). p.1) made)
              (first_revoked-append hash s.api_keys _ h)
      ]

  KeyStep-Kept : {s t : Store} → KeyStep s t → Kept s → Kept t
  unfolding create_api_key touch_api_key
  KeyStep-Kept (creates s k) h =
      attempt_moves Kept (insert_key k k.quota_per_hour) s (λ t g. g)
        (λ t u a g e. insert_key-Kept k k.quota_per_hour t u a g e) h
  KeyStep-Kept (touches s id ip) h =
      exec_moves Kept Kept _ s (λ t g. g) (λ t g. g)
        (λ t g.
          first_revoked-update hash (has_key_id id) (used_at t.now ip) t.api_keys
            (λ r. (refl, λ q. q)) g)
        h
  KeyStep-Kept (revokes s id) h = revoke_api_key-Kept id s h
  KeyStep-Kept (passes s now outage) h = h

  KeyRun-Kept : {s t : Store} → KeyRun s t → Kept s → Kept t
  KeyRun-Kept here h = h
  KeyRun-Kept (next r st) h = KeyStep-Kept st (KeyRun-Kept r h)

-- While the database is up, revoking the key that a hash finds works for good: whatever happens to
-- the keys afterwards, that hash finds a revoked key.
pub revoke_lasts :
    (hash : Str) (k : ApiKey) (s t : Store)
    → Up s
    → key_hashed hash s.api_keys ≡ some k
    → KeyRun (revoke_api_key k.id s).1 t
    → FindsRevoked hash t.api_keys
unfolding revoke_api_key revoke_rows
revoke_lasts hash k s t up e run =
    let goes =
      query-Up
        (λ (x : Store). (
          any (revocable k.id) x.api_keys,
          record x { api_keys = update_where (revocable k.id) (revoked_from x.now) x.api_keys },
        ))
        s up in
    first_revoked-found hash t.api_keys (
      KeyRun-Kept hash run (
        subst (Kept hash)
          (sym (
            ap (λ (p : Result DbError (Unit {0}) × Store). p.1)
              (and_then_goes (revoke_rows k.id) _ s goes)))
          (first_revoked-revoke hash s.now s.api_keys k e)))
