-- ===== src/Store.antt =====
-- internal/store: the database as the service uses it, with the tables of migrations/.
-- A statement runs alone and completely, at the time `now`; or it fails and changes nothing, as
-- `outage` says of the statements to come: its head is true if the next one fails, and beyond its
-- end all succeed. Times are in nanoseconds. The order of the rows is the order of insertion.
pub mod Queue
pub mod Webhooks
pub mod Domains
pub mod Suppressions
pub mod Messages
pub mod Keys
pub mod Steps
pub mod Reads
pub mod Keeps
pub mod Tests
use ai_email.Base.{
  ℕ, Bool, true, false, Option, none, some, List, [], ◌∷◌, Str, codes, Result, ok, err, ltb, length,
  take, if◌then◌else◌,
}

pub data MessageStatus : Type 0 where
  queued sending sent delivered deferred bounced failed cancelled : MessageStatus

pub record MessageRow : Type 0 where
  pub id : Str
  pub api_key_id : ℕ
  pub domain_id : ℕ
  pub status : MessageStatus
  pub from_address : Str
  pub recipients : List Str
  pub recipients_encrypted : Str
  pub recipients_hash : List Str
  pub subject : Str
  pub body_html : Str
  pub body_text : Str
  pub headers : Str
  pub tags : Str
  pub attempts : ℕ
  pub scheduled_at : Option ℕ
  pub locked_until : Option ℕ
  pub last_error : Option Str
  pub created_at : ℕ
  pub updated_at : ℕ
  pub signed_at : Option ℕ

-- The event types that the package writes.
pub data EventType : Type 0 where
  email_sent email_deferred email_failed : EventType

unfoldable pub event_name : EventType → Str
event_name email_sent = codes "email.sent"
event_name email_deferred = codes "email.deferred"
event_name email_failed = codes "email.failed"

pub record EventRow : Type 0 where
  pub message_id : Str
  pub event_type : EventType
  pub detail : Str
  pub occurred_at : ℕ

pub record EndpointRow : Type 0 where
  pub id : ℕ
  pub url : Str
  pub secret : Str
  pub active : Bool

pub data DeliveryStatus : Type 0 where
  pending delivering delivered failed : DeliveryStatus

pub record DeliveryRow : Type 0 where
  pub id : ℕ
  pub endpoint_id : ℕ
  pub event_id : Str
  pub message_id : Str
  pub payload : Str
  pub status : DeliveryStatus
  pub attempts : ℕ
  pub next_attempt : ℕ
  pub locked_until : Option ℕ
  pub last_error : Option Str

pub data DomainStatus : Type 0 where
  pending verified suspended : DomainStatus

pub record DomainRow : Type 0 where
  pub id : ℕ
  pub name : Str
  pub verification_token : Str
  pub status : DomainStatus
  pub verified_at : Option ℕ
  pub last_checked_at : Option ℕ

pub record SuppressionRow : Type 0 where
  pub address : Str
  pub address_hash : Str
  pub reason : Str
  pub detail : Str
  pub message_id : Option Str
  pub created_at : ℕ

pub record SigningKeyRow : Type 0 where
  pub id : ℕ
  pub domain_id : ℕ
  pub selector : Str
  pub algorithm : Str
  pub wrapped_secret : Str
  pub public_record : Str
  pub active : Bool
  pub created_at : ℕ

pub record IdempotencyRow : Type 0 where
  pub api_key_id : ℕ
  pub key : Str
  pub request_hash : Str
  pub message_id : Option Str
  pub expires_at : ℕ

pub record ApiKeyRow : Type 0 where
  pub id : ℕ
  pub name : Str
  pub prefix : Str
  pub secret_hash : Str
  pub scopes : List Str
  pub quota_per_hour : ℕ
  pub expires_at : ℕ
  pub revoked_at : Option ℕ
  pub last_used_at : Option ℕ
  pub last_used_ip : Option Str
  pub created_at : ℕ

-- The envelope encryption of recipient lists, with their JSON form: `Wrap` and `Unwrap` of
-- internal/crypto over `encoding/json`.
pub record Keeper : Type 0 where
  pub seal : List Str → Option Str
  pub unseal : Str → Option (List Str)

pub record Store : Type 0 where
  pub now : ℕ
  pub outage : List Bool
  pub keeper : Option Keeper
  pub messages : List MessageRow
  pub events : List EventRow
  pub endpoints : List EndpointRow
  pub deliveries : List DeliveryRow
  pub domains : List DomainRow
  pub suppressions : List SuppressionRow
  pub signing_keys : List SigningKeyRow
  pub idempotency : List IdempotencyRow
  pub api_keys : List ApiKeyRow

-- `statement` stands for the driver's error.
pub data DbError : Type 0 where
  statement undecodable not_found idempotency_mismatch idempotency_in_flight : DbError

abbrev pub Db : Type 0 → Type 0
Db A = Store → Result DbError A × Store

abbrev pub next_fails : List Bool → Bool
next_fails [] = false
next_fails (fails ∷ _) = fails

abbrev pub later : List Bool → List Bool
later [] = []
later (_ ∷ rest) = rest

-- One round trip to the database.
abbrev pub answered : Store → Store
answered s = record s { outage = later s.outage }

unfoldable pub query : {A : Type 0} → (Store → A × Store) → Db A
query f s =
    if next_fails s.outage
    then (err statement, answered s)
    else (let (a, s') = f (answered s) in (ok a, s'))

unfoldable pub exec : (Store → Store) → Db (Unit {0})
exec f s = if next_fails s.outage then (err statement, answered s) else (ok tt, f (answered s))

abbrev pub continue {ℓ} :
    {A : Type 0} {B : Type ℓ}
    → Result DbError A
    → (A → Store → B)
    → (DbError → Store → B)
    → Store
    → B
continue (ok a) f g s = f a s
continue (err e) f g s = g e s

-- `if err != nil { return err }`; then the rest.
unfoldable pub and_then : {A B : Type 0} → Db A → (A → Db B) → Db B
and_then m f s = let (r, s') = m s in continue r f (λ e t. (err e, t)) s'

-- A statement that a constraint of a table may refuse: then it changes nothing.
unfoldable pub attempt : {A : Type 0} → (Store → Option (A × Store)) → Db A
attempt f s =
    if next_fails s.outage
    then (err statement, answered s)
    else elim (f (answered s)) [ none ↦ (err statement, answered s) | some (a, s') ↦ (ok a, s') ]

-- `ORDER BY` a number.
unfoldable pub insert_by {ℓ} : {A : Type ℓ} → (A → ℕ) → A → List A → List A
insert_by key r [] = r ∷ []
insert_by key r (q ∷ rows) = if ltb (key q) (key r) then q ∷ insert_by key r rows else r ∷ q ∷ rows

unfoldable pub sort_by {ℓ} : {A : Type ℓ} → (A → ℕ) → List A → List A
sort_by key [] = []
sort_by key (r ∷ rows) = insert_by key r (sort_by key rows)

-- An UPDATE of the rows that a test selects.
unfoldable pub update_where {ℓ} : {A : Type ℓ} → (A → Bool) → (A → A) → List A → List A
update_where test f [] = []
update_where test f (r ∷ rows) = (if test r then f r else r) ∷ update_where test f rows

-- `truncate`, by bytes. That PostgreSQL refuses a text whose last rune is cut in two is not modelled.
unfoldable pub truncate : Str → ℕ → Str
truncate s n = if ltb n (length s) then take n s else s
