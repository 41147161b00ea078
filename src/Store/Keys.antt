-- ===== src/Store/Keys.antt =====
-- internal/store/keys.go: API keys, and the count of a key's messages.
pub mod Revoked
use ai_email.Base.{
  ℕ, suc, ◌+◌, ◌-◌, ◌*◌, Bool, true, false, not, ◌&&◌, ◌||◌, Option, none, some, List, [], ◌∷◌,
  ◌++◌, any, filter, length, Str, str_eq, Result, ok, err, ltb, leb, ◌==◌, ℤ, pos, negsuc,
  if◌then◌else◌,
}
use ai_email.Store.{
  MessageRow, ApiKeyRow, Store, DbError, not_found, Db, query, exec, attempt, and_then,
  update_where,
}
use ai_email.Store.Domains.{found_or}

pub record ApiKey : Type 0 where
  pub id : ℕ
  pub name : Str
  pub prefix : Str
  pub scopes : List Str
  pub quota_per_hour : ℕ
  pub expires_at : ℕ
  pub revoked_at : Option ℕ
  pub last_used_at : Option ℕ

-- `HasScope`
unfoldable pub has_scope : Str → List Str → Bool
has_scope want [] = false
has_scope want (s ∷ scopes) = str_eq s want || has_scope want scopes

abbrev pub is_some : {A : Type 0} → Option A → Bool
is_some none = false
is_some (some _) = true

-- `Revoked`
unfoldable pub revoked : ApiKey → Bool
revoked k = is_some k.revoked_at

-- `Expired`
unfoldable pub expired : ApiKey → ℕ → Bool
expired k now = not (ltb now k.expires_at)

pub record NewApiKey : Type 0 where
  pub name : Str
  pub prefix : Str
  pub secret_hash : Str
  pub scopes : List Str
  pub quota_per_hour : ℤ
  pub expires_at : ℕ

abbrev pub key_of : ApiKeyRow → ApiKey
key_of r = record {
  id = r.id;
  name = r.name;
  prefix = r.prefix;
  scopes = r.scopes;
  quota_per_hour = r.quota_per_hour;
  expires_at = r.expires_at;
  revoked_at = r.revoked_at;
  last_used_at = r.last_used_at;
}

unfoldable pub next_key_id : List ApiKeyRow → ℕ
next_key_id [] = 1
next_key_id (r ∷ rows) = let n = next_key_id rows in if ltb r.id n then n else r.id + 1

abbrev pub new_key : NewApiKey → ℕ → ℕ → ℕ → ApiKeyRow
new_key k quota id now = record {
  id = id;
  name = k.name;
  prefix = k.prefix;
  secret_hash = k.secret_hash;
  scopes = k.scopes;
  quota_per_hour = quota;
  expires_at = k.expires_at;
  revoked_at = none;
  last_used_at = none;
  last_used_ip = none;
  created_at = now;
}

unfoldable pub hashed : Str → ApiKeyRow → Bool
hashed hash r = str_eq r.secret_hash hash

-- The INSERT, which the CHECK and the type INTEGER of the quota and the UNIQUE hash can refuse.
abbrev pub max_integer : ℕ
max_integer = 2147483647

unfoldable pub insert_key : NewApiKey → ℤ → Store → Option (ApiKey × Store)
insert_key k (negsuc _) s = none
insert_key k (pos quota) s =
    if ltb max_integer quota || any (hashed k.secret_hash) s.api_keys
    then none
    else (let r = new_key k quota (next_key_id s.api_keys) s.now in
        some (key_of r, record s { api_keys = s.api_keys ++ (r ∷ []) }))

-- `CreateAPIKey`
unfoldable pub create_api_key : NewApiKey → Db ApiKey
create_api_key k = attempt (insert_key k k.quota_per_hour)

unfoldable pub key_hashed : Str → List ApiKeyRow → Option ApiKey
key_hashed hash [] = none
key_hashed hash (r ∷ rows) = if hashed hash r then some (key_of r) else key_hashed hash rows

-- `APIKeyByHash`
unfoldable pub api_key_by_hash : Str → Db ApiKey
api_key_by_hash hash = and_then (query (λ s. (key_hashed hash s.api_keys, s))) found_or

unfoldable pub has_key_id : ℕ → ApiKeyRow → Bool
has_key_id id r = r.id == id

abbrev pub used_at : ℕ → Option Str → ApiKeyRow → ApiKeyRow
used_at now ip r = record r { last_used_at = some now; last_used_ip = ip }

-- `TouchAPIKey`, with the address as text, if it is valid.
unfoldable pub touch_api_key : ℕ → Option Str → Db (Unit {0})
touch_api_key id ip =
    exec λ s. record s { api_keys = update_where (has_key_id id) (used_at s.now ip) s.api_keys }

unfoldable pub revocable : ℕ → ApiKeyRow → Bool
revocable id r = has_key_id id r && not (is_some r.revoked_at)

abbrev pub revoked_from : ℕ → ApiKeyRow → ApiKeyRow
revoked_from now r = record r { revoked_at = some now }

-- The UPDATE, and whether a row was affected.
unfoldable pub revoke_rows : ℕ → Db Bool
revoke_rows id = query λ s. (
  any (revocable id) s.api_keys,
  record s { api_keys = update_where (revocable id) (revoked_from s.now) s.api_keys },
)

-- `RevokeAPIKey`
unfoldable pub revoke_api_key : ℕ → Db (Unit {0})
revoke_api_key id =
    and_then (revoke_rows id) (λ affected t. (if affected then ok tt else err not_found, t))

abbrev pub hour : ℕ
hour = 3600 * 1000000000

unfoldable pub sent_lately : ℕ → ℕ → MessageRow → Bool
sent_lately now key_id r = r.api_key_id == key_id && ltb now (r.created_at + hour)

-- `SendsInLastHour`
unfoldable pub sends_in_last_hour : ℕ → Db ℕ
sends_in_last_hour key_id = query λ s. (length (filter (sent_lately s.now key_id) s.messages), s)
