-- ===== src/Commands/Registers.antt =====
-- The signing key that `runAddDomain` of cmd/aiemail/admin.go stores is the one that internal/dkim
-- unwraps to sign.
use ai_email.Base.{
  ℕ, ◌≡◌, refl, sym, ap, ap₂, ◌∙◌, subst, Bool, true, false, Option, none, some, List, [], ◌∷◌,
  ◌++◌, Member, inl, inr, Str, Result, ok, err, err-ne-ok, ok-inj, none-ne-some, some-inj,
  if◌then◌else◌, ◌==◌, length, to_lower, trim_space, Unicode,
}
use ai_email.Commands.{
  Problem, Minting, missing_master_key, failed, blamed, with_keeper, mint, require_name, put_domain,
  verification_token, run_add_domain,
}
use ai_email.Crypto.{Aead}
use ai_email.Crypto.Kept.{Opens}
use ai_email.Dkim.{
  Keeper, KeyPair, KeySigner, ed25519_signer, private_key_size, bad_master_key, keeper_with,
  envelope_keeper, new_envelope_keeper, generate, unwrap_signer,
}
use ai_email.Dkim
use ai_email.Dkim.Custody.{unwrap_signer-generate}
use ai_email.Keys.{Encoding}
use ai_email.Store.{Store, SigningKeyRow, answered}
use ai_email.Store.Domains.{SigningKey, new_key, key_of, create_signing_key}
use ai_email.Store.Keeps.{attempt_made}
use ai_email.Store.Steps.{lift, calls, >>=-made, calls_made}
use ai_email.Store.Webhooks.{next_id}

opened_under :
    (g : Minting) (b : Bool) (o : Option Aead) (a : Aead) (p : KeyPair)
    → o ≡ some a
    → with_keeper g (if b then keeper_with g.nonce o else err bad_master_key) ≡ ok p
    → generate g.encode64 (envelope_keeper g.nonce a) g.selector g.made ≡ ok p
unfolding with_keeper
opened_under g false o a p e h = absurd (err-ne-ok h)
opened_under g true none a p e h = absurd (none-ne-some e)
opened_under g true (some c) a p e h =
    ap (λ d. generate g.encode64 (envelope_keeper g.nonce d) g.selector g.made) (sym (some-inj e))
    ∙ h

blamed_made : {A : Type 0} (r : Result Dkim.Problem A) (a : A) → blamed r ≡ ok a → r ≡ ok a
blamed_made (err e) a h = absurd (err-ne-ok h)
blamed_made (ok b) a h = ap ok (ok-inj h)

has_master_key :
    (b : Bool) (r : Result Problem KeyPair) (p : KeyPair)
    → (if b then err missing_master_key else r) ≡ ok p
    → r ≡ ok p
has_master_key true r p h = absurd (err-ne-ok h)
has_master_key false r p h = h

mint_made :
    (g : Minting) (a : Aead) (p : KeyPair)
    → g.cipher g.master_key ≡ some a
    → mint g ≡ ok p
    → generate g.encode64 (envelope_keeper g.nonce a) g.selector g.made ≡ ok p
unfolding mint new_envelope_keeper
mint_made g a p e h =
    opened_under g (length g.master_key == 32) (g.cipher g.master_key) a p e
      (blamed_made _ p (has_master_key (length g.master_key == 0) _ p h))

-- A row of the table of signing keys that was added for a key.
pub record IsStored (algorithm wrapped : Str) (before later : List SigningKeyRow) (k : SigningKey)
    : Type 0 where
  pub row : SigningKeyRow
  pub added : later ≡ before ++ (row ∷ [])
  pub same_id : row.id ≡ k.id
  pub same_algorithm : row.algorithm ≡ algorithm
  pub same_secret : row.wrapped_secret ≡ wrapped

row_kept :
    (b : Bool) (row : SigningKeyRow) (s t : Store) (k : SigningKey)
    → ◌≡◌ {A = Option (SigningKey × Store)}
        (if b
          then none
          else some (key_of [] row, record s { signing_keys = s.signing_keys ++ (row ∷ []) }))
        (some (k, t))
    → IsStored row.algorithm row.wrapped_secret s.signing_keys t.signing_keys k
row_kept true row s t k h = absurd (none-ne-some h)
row_kept false row s t k h = record {
  row = row;
  added = sym (ap (λ q. q.1.signing_keys) (some-inj h));
  same_id = ap (λ q. q.0.id) (some-inj h);
  same_algorithm = refl;
  same_secret = refl;
}

create_signing_key-IsStored :
    (domain_id : ℕ) (selector algorithm wrapped dns_record : Str) (s : Store) (k : SigningKey)
    → (create_signing_key domain_id selector algorithm wrapped dns_record s).0 ≡ ok k
    → IsStored algorithm wrapped s.signing_keys
        (create_signing_key domain_id selector algorithm wrapped dns_record s).1.signing_keys
        k
unfolding create_signing_key
create_signing_key-IsStored domain_id selector algorithm wrapped dns_record s k h =
    row_kept _
      (new_key (next_id (λ (r : SigningKeyRow). r.id) s.signing_keys) domain_id selector algorithm
        wrapped dns_record s.now)
      (answered s) _ k
      (attempt_made _ s _ k
        (ap (λ r. (r, (create_signing_key domain_id selector algorithm wrapped dns_record s).1)) h))

-- A row whose secret is unwrapped to a private key.
pub record IsUsable (parse : Str → Option Str) (keeper : Keeper) (private : Str) (t : Store)
    (k : SigningKey) : Type 0 where
  pub row : SigningKeyRow
  pub stored : Member row t.signing_keys
  pub same_id : row.id ≡ k.id
  pub unwrapped :
      unwrap_signer parse keeper row.algorithm row.wrapped_secret ≡ ok (ed25519_signer private)

last_Member : (r : SigningKeyRow) (rows : List SigningKeyRow) → Member r (rows ++ (r ∷ []))
last_Member r [] = inl refl
last_Member r (q ∷ rows) = inr (last_Member r rows)

usable :
    (algorithm wrapped : Str) (before : List SigningKeyRow) (t : Store) (k : SigningKey)
    (parse : Str → Option Str) (keeper : Keeper) (private : Str)
    → IsStored algorithm wrapped before t.signing_keys k
    → unwrap_signer parse keeper algorithm wrapped ≡ ok (ed25519_signer private)
    → IsUsable parse keeper private t k
usable algorithm wrapped before t k parse keeper private i h = record {
  row = i.row;
  stored = subst (λ rows. Member i.row rows) (sym i.added) (last_Member i.row before);
  same_id = i.same_id;
  unwrapped = ap₂ (λ a w. unwrap_signer parse keeper a w) i.same_algorithm i.same_secret ∙ h;
}

-- Over a cipher that opens what it sealed under a nonce of its size: where `domains add` returns a
-- signing key, the table has a row for it, and with the same master key its secret is unwrapped to
-- the private key that was generated, if that has 64 bytes.
pub added_domain_signs :
    (u : Unicode) (e : Encoding) (g : Minting) (raw name later public private : Str)
    (parse : Str → Option Str) (a : Aead) (s : Store) (k : SigningKey)
    → g.made ≡ some (public, private)
    → length private ≡ private_key_size
    → g.cipher g.master_key ≡ some a
    → Opens a
    → length g.nonce ≡ a.nonce_size
    → (run_add_domain u e g raw name s).0 ≡ ok k
    → IsUsable parse (envelope_keeper later a) private (run_add_domain u e g raw name s).1 k
unfolding run_add_domain
added_domain_signs u e g raw name later public private parse a s k made size c o n h =
    let put = put_domain (to_lower u (trim_space name)) (verification_token u e raw) in
    let (_, a1, h1, t1) = >>=-made (lift (require_name name)) _ s h in
    let (id, a2, h2, t2) = >>=-made (calls failed put) _ s h1 in
    let s2 = (put s).1 in
    let (p, m, h3, t3) = >>=-made (lift (mint g)) _ s2 h2 in
    let create = create_signing_key id p.selector p.algorithm p.wrapped_secret p.public_record in
    let i =
      create_signing_key-IsStored id p.selector p.algorithm p.wrapped_secret p.public_record s2 k
        (calls_made failed create s2 h3) in
    let opened =
      unwrap_signer-generate g.encode64 parse a g.nonce later g.selector public private p o n size (
        ap (λ x. generate g.encode64 (envelope_keeper g.nonce a) g.selector x) (sym made)
        ∙ mint_made g a p c m) in
    subst (λ (t : Store). IsUsable parse (envelope_keeper later a) private t k) (sym (t1 ∙ t2 ∙ t3))
      (usable p.algorithm p.wrapped_secret s2.signing_keys (create s2).1 k parse
        (envelope_keeper later a) private i opened)
