-- ===== src/Commands.antt =====
-- cmd/aiemail/admin.go: the commands that issue credentials. The flags that were parsed and random bytes
-- are arguments; opening the database, the migration and the printing are left
-- out.
pub mod Issues
pub mod Registers
mod Tests
use ai_email.Base.{
  ℕ, suc, ◌+◌, ◌-◌, ◌*◌, ◌%◌, ◌^◌, Bool, true, false, Option, none, some, List, [], ◌∷◌, ◌++◌, Str,
  codes, str_eq, Result, ok, err, ltb, if◌then◌else◌, ◌==◌, length, Unicode, to_lower, trim_space,
  split, trimmed_parts, any, ℤ, pos, negsuc,
}
use ai_email.Crypto.{Aead}
use ai_email.Dkim.{KeyPair, Keeper, new_envelope_keeper}
use ai_email.Dkim
use ai_email.Keys.{Encoding, generate, lifetime, day}
use ai_email.Store.{Store, DbError, Db, DomainStatus, DomainRow, query, update_where}
use ai_email.Store.Domains.{SigningKey, create_signing_key}
use ai_email.Store.Keys.{ApiKey, NewApiKey, create_api_key}
use ai_email.Store.Steps.{Step, ◌>>=◌, ◌>>◌, lift, calls}
use ai_email.Store.Suppressions.{Digest}

pub data Problem : Type 0 where
  missing_name : Problem
  failed : DbError → Problem
  missing_master_key : Problem
  no_key_pair : Dkim.Problem → Problem

-- An int64 from its bits.
unfoldable pub wrap64 : ℕ → ℤ
wrap64 n =
    let bits = n % 2 ^ 64 in if ltb bits (2 ^ 63) then pos bits else negsuc (2 ^ 64 - 1 - bits)

-- `time.Duration(*days) * 24 * time.Hour`, which wraps around.
unfoldable pub days_duration : ℤ → ℤ
days_duration (pos n) = wrap64 (n * day)
days_duration (negsuc n) = wrap64 (2 ^ 64 - suc n * day % 2 ^ 64)

-- `splitScopes`
unfoldable pub split_scopes : Str → List Str
split_scopes raw = trimmed_parts (split b',' raw)

unfoldable pub require_name : Str → Result Problem (Unit {0})
require_name name = if str_eq (trim_space name) [] then err missing_name else ok tt

abbrev pub new_api_key : Unicode → Encoding → Digest → Str → Str → List Str → ℤ → ℕ → NewApiKey
new_api_key u e sha256 raw name scopes quota expires_at = record {
  name = name;
  prefix = (generate u e sha256 raw).prefix;
  secret_hash = (generate u e sha256 raw).hash;
  scopes = scopes;
  quota_per_hour = quota;
  expires_at = expires_at;
}

-- `runCreateKey`: the stored key; the secret that is printed is that of `generate`.
unfoldable pub run_create_key :
    Unicode → Encoding → Digest → Str → Str → Str → ℤ → ℤ → Step Problem ApiKey
run_create_key u e sha256 raw name scopes quota days = do
  lift (require_name name)
  λ s.
      calls failed
        (create_api_key (
          new_api_key u e sha256 raw name (split_scopes scopes) quota
            (s.now + lifetime (days_duration days))))
        s

abbrev verification_prefix : Str
verification_prefix = codes "aiemail-verify="

-- `verificationToken`, from the bytes that `rand.Read` gave.
unfoldable pub verification_token : Unicode → Encoding → Str → Str
verification_token u e raw = verification_prefix ++ to_lower u (e.encode32 raw)

unfoldable pub is_named : Str → DomainRow → Bool
is_named name d = str_eq d.name name

unfoldable pub next_domain_id : List DomainRow → ℕ
next_domain_id [] = 1
next_domain_id (d ∷ domains) = let n = next_domain_id domains in if ltb d.id n then n else d.id + 1

abbrev pub new_domain : ℕ → Str → Str → DomainRow
new_domain id name token = record {
  id = id;
  name = name;
  verification_token = token;
  status = DomainStatus.pending;
  verified_at = none;
  last_checked_at = none;
}

unfoldable pub id_of_name : Str → List DomainRow → ℕ
id_of_name name [] = 0
id_of_name name (d ∷ domains) = if is_named name d then d.id else id_of_name name domains

-- The INSERT … ON CONFLICT (name) DO UPDATE SET verification_token … RETURNING id.
unfoldable pub put_domain : Str → Str → Db ℕ
put_domain name token = query λ s.
    if any (is_named name) s.domains
    then (
      id_of_name name s.domains,
      record s {
        domains =
            update_where (is_named name)
              (λ (d : DomainRow). record d { verification_token = token }) s.domains;
      },
    )
    else (
      next_domain_id s.domains,
      record s { domains = s.domains ++ (new_domain (next_domain_id s.domains) name token ∷ []) },
    )

-- What `runAddDomain` uses of the configuration and of internal/dkim: `made` are the keys that the
-- generator gave, and `selector` is the month.
pub record Minting : Type 0 where
  pub cipher : Str → Option Aead
  pub encode64 : Str → Str
  pub master_key : Str
  pub nonce : Str
  pub selector : Str
  pub made : Option (Str × Str)

abbrev pub blamed : {A : Type 0} → Result Dkim.Problem A → Result Problem A
blamed (err e) = err (no_key_pair e)
blamed (ok a) = ok a

unfoldable pub with_keeper : Minting → Result Dkim.Problem Keeper → Result Dkim.Problem KeyPair
with_keeper g (err e) = err e
with_keeper g (ok keeper) = Dkim.generate g.encode64 keeper g.selector g.made

-- The key pair of `runAddDomain`.
unfoldable pub mint : Minting → Result Problem KeyPair
mint g =
    if length g.master_key == 0
    then err missing_master_key
    else blamed (with_keeper g (new_envelope_keeper g.cipher g.nonce g.master_key))

-- `runAddDomain`
unfoldable pub run_add_domain : Unicode → Encoding → Minting → Str → Str → Step Problem SigningKey
run_add_domain u e g raw name = do
  lift (require_name name)
  id ← calls failed (put_domain (to_lower u (trim_space name)) (verification_token u e raw))
  p ← lift (mint g)
  calls failed (create_signing_key id p.selector p.algorithm p.wrapped_secret p.public_record)
