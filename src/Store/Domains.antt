-- ===== src/Store/Domains.antt =====
-- internal/store/webhooks.go, from line 128 on, and dkim.go: the proofs and the signing keys of the
-- sending domains.
use ai_email.Base.{
  ℕ, zero, suc, ◌+◌, Bool, true, false, ◌&&◌, Option, none, some, List, [], ◌∷◌, map, filter, any,
  not, ◌||◌, ◌++◌, codes, Str, str_eq, ok, err, ltb, leb, ◌==◌, take, if◌then◌else◌,
}
use ai_email.Store.{
  MessageRow, DomainStatus, DomainRow, SigningKeyRow, not_found, Db, query, exec, attempt, and_then,
  sort_by, update_where,
}
use ai_email.Store.Queue.{has_id}
use ai_email.Store.Webhooks.{next_id}

pub record DomainProof : Type 0 where
  pub id : ℕ
  pub name : Str
  pub token : Str
  pub status : DomainStatus

abbrev pub is_rechecked : DomainStatus → Bool
is_rechecked DomainStatus.suspended = false
is_rechecked _ = true

-- `last_checked_at IS NULL OR last_checked_at < now() - $1`
abbrev pub stale : ℕ → ℕ → Option ℕ → Bool
stale now older_than none = true
stale now older_than (some at) = ltb (at + older_than) now

-- `ORDER BY last_checked_at NULLS FIRST`
abbrev pub check_order : DomainRow → ℕ
check_order d = elim d.last_checked_at [ none ↦ zero | some at ↦ suc at ]

abbrev proof_of : DomainRow → DomainProof
proof_of d = record { id = d.id; name = d.name; token = d.verification_token; status = d.status }

-- `DomainsDueForRecheck`
unfoldable pub domains_due_for_recheck : ℕ → ℕ → Db (List DomainProof)
domains_due_for_recheck older_than limit = query λ s. (
  map proof_of (
      take limit (
        sort_by check_order (
          filter
            (λ (d : DomainRow). is_rechecked d.status && stale s.now older_than d.last_checked_at)
            s.domains))),
  s,
)

abbrev pub has_domain_id : ℕ → DomainRow → Bool
has_domain_id id d = d.id == id

-- `coalesce(verified_at, now())`
abbrev pub coalesce : Option ℕ → ℕ → ℕ
coalesce none now = now
coalesce (some at) now = at

unfoldable pub update_domain : ℕ → (ℕ → DomainRow → DomainRow) → Db (Unit {0})
update_domain id f =
    exec (λ s. record s { domains = update_where (has_domain_id id) (f s.now) s.domains })

-- `MarkDomainVerified`, `SuspendDomain` and `TouchDomainCheck`
unfoldable pub mark_domain_verified : ℕ → Db (Unit {0})
mark_domain_verified id = update_domain id (λ now d. record d {
  status = DomainStatus.verified;
  verified_at = some (coalesce d.verified_at now);
  last_checked_at = some now;
})

unfoldable pub suspend_domain : ℕ → Db (Unit {0})
suspend_domain id =
    update_domain id
      (λ now d. record d { status = DomainStatus.suspended; last_checked_at = some now })

unfoldable pub touch_domain_check : ℕ → Db (Unit {0})
touch_domain_check id = update_domain id (λ now d. record d { last_checked_at = some now })

-- A signing key with its domain's name.
pub record SigningKey : Type 0 where
  pub id : ℕ
  pub domain_id : ℕ
  pub domain : Str
  pub selector : Str
  pub algorithm : Str
  pub wrapped : Str
  pub dns_record : Str

-- The first of the joined rows in the order `created_at DESC`.
unfoldable pub newest : List SigningKeyRow → Option SigningKeyRow
newest [] = none
newest (k ∷ keys) = elim (newest keys) [
  | none ↦ some k
  | some best ↦ if leb best.created_at k.created_at then some k else some best
]

abbrev pub key_of : Str → SigningKeyRow → SigningKey
key_of domain k = record {
  id = k.id;
  domain_id = k.domain_id;
  domain = domain;
  selector = k.selector;
  algorithm = k.algorithm;
  wrapped = k.wrapped_secret;
  dns_record = k.public_record;
}

-- The unique key (domain_id, selector).
unfoldable pub is_key : ℕ → Str → SigningKeyRow → Bool
is_key domain_id selector k = k.domain_id == domain_id && str_eq k.selector selector

abbrev pub new_key : ℕ → ℕ → Str → Str → Str → Str → ℕ → SigningKeyRow
new_key id domain_id selector algorithm wrapped dns_record now = record {
  id = id;
  domain_id = domain_id;
  selector = selector;
  algorithm = algorithm;
  wrapped_secret = wrapped;
  public_record = dns_record;
  active = true;
  created_at = now;
}

-- `CHECK (algorithm IN ('ed25519', 'rsa'))`
abbrev pub is_algorithm : Str → Bool
is_algorithm a = str_eq a (codes "ed25519") || str_eq a (codes "rsa")

-- `CreateSigningKey`: the key that is returned has no domain name.
unfoldable pub create_signing_key : ℕ → Str → Str → Str → Str → Db SigningKey
create_signing_key domain_id selector algorithm wrapped dns_record = attempt λ s.
    if any (is_key domain_id selector) s.signing_keys
      || not (any (has_domain_id domain_id) s.domains)
      || not (is_algorithm algorithm)
    then none
    else (let k =
          new_key (next_id (λ (r : SigningKeyRow). r.id) s.signing_keys) domain_id selector
            algorithm wrapped dns_record s.now in
        some (key_of [] k, record s { signing_keys = s.signing_keys ++ (k ∷ []) }))

-- The domain with an id, and its newest active key.
unfoldable pub active_key_of : ℕ → List DomainRow → List SigningKeyRow → Option SigningKey
active_key_of id [] keys = none
active_key_of id (d ∷ domains) keys =
    if d.id == id
    then elim (newest (filter (λ (k : SigningKeyRow). k.domain_id == d.id && k.active) keys)) [
      | none ↦ none
      | some k ↦ some (key_of d.name k)
    ]
    else active_key_of id domains keys

unfoldable pub key_for_message :
    Str → List MessageRow → List DomainRow → List SigningKeyRow → Option SigningKey
key_for_message id [] domains keys = none
key_for_message id (m ∷ messages) domains keys =
    if has_id id m
    then active_key_of m.domain_id domains keys
    else key_for_message id messages domains keys

unfoldable pub found_or : {A : Type 0} → Option A → Db A
found_or none s = (err not_found, s)
found_or (some a) s = (ok a, s)

-- `ActiveSigningKey` and `SigningKeyForMessage`
unfoldable pub active_signing_key : ℕ → Db SigningKey
active_signing_key domain_id =
    and_then (query (λ s. (active_key_of domain_id s.domains s.signing_keys, s))) found_or

unfoldable pub signing_key_for_message : Str → Db SigningKey
signing_key_for_message id =
    and_then (query (λ s. (key_for_message id s.messages s.domains s.signing_keys, s))) found_or

-- `MarkSigned`
unfoldable pub mark_signed : Str → Db (Unit {0})
mark_signed id = exec λ s. record s {
  messages =
      update_where (has_id id) (λ (r : MessageRow). record r { signed_at = some s.now }) s.messages;
}
