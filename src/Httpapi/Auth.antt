-- ===== src/Httpapi/Auth.antt =====
-- internal/httpapi/auth.go: authentication by API key. `recordKeyUse` runs beside the handler; here it
-- runs before it, and its error is dropped, as there.
pub mod Granted
pub mod Refused
pub mod Admitted
use ai_email.Base.{
  ℕ, ◌+◌, Bool, true, false, not, ◌&&◌, ◌||◌, Option, none, some, List, [], ◌∷◌, map, Str, codes,
  str_eq, Result, ok, err, ◌==◌, if◌then◌else◌, take, drop, cut, trim_space, trim_last, lower_byte,
  length,
}
use ai_email.Httpapi.{Reply, write_error, Request, Server, failure}
use ai_email.Store.Steps.{Step, ◌>>=◌, ◌>>◌, lift, calls}
use ai_email.Keys.{Encoding, parse}
use ai_email.Keys
use ai_email.Mail.{last_index}
use ai_email.Store.{Store}
use ai_email.Store.Keys.{ApiKey, has_scope, revoked, expired, api_key_by_hash, touch_api_key}

-- `strings.EqualFold(scheme, "bearer")`: no character beyond ASCII folds into one of this word.
unfoldable pub is_bearer : Str → Bool
is_bearer scheme = str_eq (map lower_byte scheme) (codes "bearer")

abbrev pub nonempty : Str → Option Str
nonempty [] = none
nonempty (c ∷ s) = some (c ∷ s)

unfoldable pub of_scheme : Option (Str × Str) → Option Str
of_scheme none = none
of_scheme (some (scheme, token)) = if is_bearer scheme then nonempty (trim_space token) else none

-- `bearerToken`
unfoldable pub bearer_token : Str → Option Str
bearer_token raw = of_scheme (cut b' ' raw)

-- `unauthorized`
abbrev pub unauthorized : Reply
unauthorized = record {
  status = 401;
  headers = (codes "WWW-Authenticate", codes "Bearer realm=\"aiemail\"") ∷ [];
  body =
      failure (codes "unauthorized") (codes "the API key is missing, invalid, or no longer usable");
}

abbrev pub insufficient_scope : Reply
insufficient_scope =
    write_error 403 (codes "insufficient_scope")
      (codes "this key is not permitted to perform that action")

abbrev pub or_unauthorized : {A : Type 0} → Option A → Result Reply A
or_unauthorized none = err unauthorized
or_unauthorized (some a) = ok a

abbrev pub well_formed : {E : Type 0} → Str → Result E (Unit {0}) → Result Reply Str
well_formed secret (err _) = err unauthorized
well_formed secret (ok _) = ok secret

-- The tests of a key that was found.
unfoldable pub admit : Str → ℕ → ApiKey → Result Reply ApiKey
admit scope now key =
    if revoked key || expired key now
    then err unauthorized
    else if not (has_scope scope key.scopes)
    then err insufficient_scope
    else ok key

-- `requireKey` up to the call of the handler.
unfoldable pub authorize : Server → Str → Request → Step Reply ApiKey
authorize sv scope r = do
  token ← lift (or_unauthorized (bearer_token r.header_authorization))
  secret ← lift (well_formed token (parse sv.unicode sv.encoding token))
  key ← calls (λ e. unauthorized) (api_key_by_hash (sv.sha256 secret))
  λ s. (admit scope s.now key, s)

-- `strings.TrimPrefix(…, "[")`
abbrev pub without_bracket : Str → Str
without_bracket [] = []
without_bracket (c ∷ s) = if c == b'[' then s else c ∷ s

-- `splitHostPort`: the host, if there is a port.
unfoldable pub split_host_port : Str → Option Str
split_host_port hostport = elim (last_index b':' hostport) [
  | none ↦ none
  | some i ↦ some (trim_last b']' (without_bracket (take i hostport)))
]

-- `clientAddr`, as text; `none` for the invalid address.
unfoldable pub client_addr : Server → Str → Option Str
client_addr sv remote_addr = elim (split_host_port remote_addr) [
  | none ↦ sv.parse_addr remote_addr
  | some host ↦ sv.parse_addr host
]

-- Either the rejection is written, or the use is recorded and the handler runs.
unfoldable pub handed :
    Server
    → (ApiKey → Request → Store → Reply × Store)
    → Request
    → Result Reply ApiKey
    → Store
    → Reply × Store
handed sv next r (err reply) s = (reply, s)
handed sv next r (ok key) s = next key r (touch_api_key key.id (client_addr sv r.remote_addr) s).1

-- `requireKey`
unfoldable pub require_key :
    Server → Str → (ApiKey → Request → Store → Reply × Store) → Request → Store → Reply × Store
require_key sv scope next r s = let (v, t) = authorize sv scope r s in handed sv next r v t
