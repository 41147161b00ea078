-- ===== src/Console.antt =====
-- internal/console: auth.go, the password and the sessions of the operator, and the requests of
-- console.go that change something. A map of sessions is an association list; the pages, whose
-- handlers only read, and log lines are not modelled. Random tokens and salts are arguments.
pub mod Guarded
pub mod Ended
pub mod Alive
pub mod Password
mod Tests
use ai_email.Base.{
  ℕ, ◌+◌, ◌*◌, Bool, true, false, not, Option, none, some, List, [], ◌∷◌, ◌++◌, Str, codes, str_eq,
  Result, ok, err, ltb, if◌then◌else◌, filter, length, lookup, split, Unicode, ℤ, pos, negsuc,
  parse_int,
}
use ai_email.Store.{Store, Db, query}
use ai_email.Store.Keys.{revoke_api_key}
use ai_email.Store.Suppressions.{Digest, unsuppress}

-- `argon2.IDKey` with the parameters of the source, by password and salt, and base64 without padding.
pub record Hashing : Type 0 where
  pub id_key : Str → Str → Str
  pub encode64 : Str → Str
  pub decode64 : Str → Option Str

pub data Problem : Type 0 where
  short_password wrong_format bad_salt bad_hash : Problem

pub record PasswordHash : Type 0 where
  pub salt : Str
  pub hash : Str

abbrev pub scheme : Str
scheme = codes "argon2id"

-- `HashPassword`
unfoldable pub hash_password : Hashing → Str → Str → Result Problem Str
hash_password g salt password =
    if ltb (length password) 12
    then err short_password
    else ok (scheme ++ (b'$' ∷ (g.encode64 salt ++ (b'$' ∷ g.encode64 (g.id_key password salt)))))

unfoldable pub of_decoded : Option Str → Option Str → Result Problem PasswordHash
of_decoded none _ = err bad_salt
of_decoded (some salt) none = err bad_hash
of_decoded (some salt) (some hash) = ok (record { salt = salt; hash = hash })

unfoldable pub of_parts : Hashing → List Str → Result Problem PasswordHash
of_parts g (name ∷ salt ∷ hash ∷ []) =
    if str_eq name scheme then of_decoded (g.decode64 salt) (g.decode64 hash) else err wrong_format
of_parts g _ = err wrong_format

-- `ParsePasswordHash`
unfoldable pub parse_password_hash : Hashing → Str → Result Problem PasswordHash
parse_password_hash g encoded = of_parts g (split b'$' encoded)

-- `PasswordHash.Verify`
unfoldable pub verify : Hashing → PasswordHash → Str → Bool
verify g p password = str_eq (g.id_key password p.salt) p.hash

abbrev pub session_ttl : ℕ
session_ttl = 2 * (3600 * 1000000000)

pub record Session : Type 0 where
  pub csrf : Str
  pub expires : ℕ

abbrev pub Sessions : Type 0
Sessions = List (Str × Session)

abbrev pub is_other : Str → Str × Session → Bool
is_other id (j, _) = not (str_eq j id)

-- `destroy`, and `delete` of the map.
unfoldable pub destroy : Str → Sessions → Sessions
destroy id live = filter (is_other id) live

abbrev pub is_live : ℕ → Str × Session → Bool
is_live now (_, session) = not (ltb session.expires now)

-- `prune`
unfoldable pub prune : ℕ → Sessions → Sessions
prune now live = filter (is_live now) live

-- `create`, with its two random tokens.
unfoldable pub create : ℕ → Str → Str → Sessions → Sessions
create now id csrf live =
    (id, record { csrf = csrf; expires = now + session_ttl }) ∷ destroy id (prune now live)

unfoldable pub of_found : ℕ → Str → Sessions → Option Session → Option Session × Sessions
of_found now id live none = (none, destroy id live)
of_found now id live (some session) =
    if ltb session.expires now then (none, destroy id live) else (some session, live)

-- `get`
unfoldable pub get : ℕ → Str → Sessions → Option Session × Sessions
get now id live = of_found now id live (lookup id live)

-- The cookie of a request, and the values of its form if `ParseForm` could read it.
pub record Form : Type 0 where
  pub csrf : Str
  pub password : Str
  pub address : Str
  pub id : Str

pub record Request : Type 0 where
  pub cookie : Option Str
  pub form : Option Form

pub data Reply : Type 0 where
  see_other : Str → Reply
  failure : ℕ → Str → Reply
  login_page : Str → Reply

-- What the answer does to the cookie.
pub data Cookie : Type 0 where
  kept cleared : Cookie
  set_to : Str → Cookie

pub record Answer : Type 0 where
  pub reply : Reply
  pub cookie : Cookie

pub record State : Type 0 where
  pub store : Store
  pub live : Sessions

abbrev pub replied : Reply → Answer
replied reply = record { reply = reply; cookie = kept }

abbrev pub to_login : Answer
to_login = replied (see_other (codes "/console/login"))

-- `currentSession`
unfoldable pub current_session : ℕ → Option Str → Sessions → Option Session × Sessions
current_session now none live = (none, live)
current_session now (some id) live = get now id live

-- The rest of `guardPost`, by the session and by the form.
unfoldable pub guarded :
    (Form → Request → State → Answer × State)
    → Request
    → Option Form
    → Option Session
    → State
    → Answer × State
guarded handler r form none s = (to_login, s)
guarded handler r none (some session) s = (replied (failure 400 (codes "bad request")), s)
guarded handler r (some form) (some session) s =
    if str_eq session.csrf form.csrf
    then handler form r s
    else (replied (failure 403 (codes "invalid request token")), s)

-- `guardPost`
unfoldable pub guard_post :
    (Form → Request → State → Answer × State) → Request → State → Answer × State
guard_post handler r s =
    let (session, live) = current_session s.store.now r.cookie s.live in
    guarded handler r r.form session (record s { live = live })

-- `login`, with the tokens of the new session if they could be made.
unfoldable pub started : Option (Str × Str) → State → Answer × State
started none s = (replied (failure 500 (codes "could not start a session")), s)
started (some (id, csrf)) s = (
  record { reply = see_other (codes "/console"); cookie = set_to id },
  record s { live = create s.store.now id csrf s.live },
)

unfoldable pub login_with :
    Hashing → PasswordHash → Option (Str × Str) → Option Form → State → Answer × State
login_with g p tokens none s = (replied (failure 400 (codes "bad request")), s)
login_with g p tokens (some form) s =
    if verify g p form.password
    then started tokens s
    else (replied (login_page (codes "That password is not correct.")), s)

unfoldable pub login :
    Hashing → PasswordHash → Option (Str × Str) → Request → State → Answer × State
login g p tokens r s = login_with g p tokens r.form s

unfoldable pub without : Option Str → Sessions → Sessions
without none live = live
without (some id) live = destroy id live

-- `logout`
unfoldable pub logout : Form → Request → State → Answer × State
logout form r s = (
  record { reply = see_other (codes "/console/login"); cookie = cleared },
  record s { live = without r.cookie s.live },
)

-- `unsuppress`: an error of the store is only logged.
unfoldable pub unsuppress_address : Unicode → Digest → Form → Request → State → Answer × State
unsuppress_address u sha256 form r s =
    if str_eq form.address [] then (replied (failure 400 (codes "no address given")), s) else (
      replied (see_other (codes "/console/suppressions")),
      record s { store = (unsuppress u sha256 form.address s.store).1 },
    )

-- No key has a negative id: that UPDATE affects no row.
unfoldable pub revoke_id : ℤ → Store → Store
revoke_id (pos id) s = (revoke_api_key id s).1
revoke_id (negsuc _) s = (query (λ t. (false, t)) s).1

unfoldable pub revoked_by : Option ℤ → State → Answer × State
revoked_by none s = (replied (failure 400 (codes "bad key id")), s)
revoked_by (some id) s =
    (replied (see_other (codes "/console/keys")), record s { store = revoke_id id s.store })

-- `revokeKey`
unfoldable pub revoke_key : Form → Request → State → Answer × State
revoke_key form r s = revoked_by (parse_int form.id) s
