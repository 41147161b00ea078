-- ===== src/Config/Safe.antt =====
-- What a configuration that internal/config/config.go loads is sure to have.
use ai_email.Base.{
  ℕ, ◌≡◌, ◌≢◌, refl, sym, ◌∙◌, subst, ◌⊎◌, inl, inr, Bool, true, false, ◌&&◌, some, Str, codes,
  str_eq_iff, ok, arith, ◌==◌, length, has_prefix,
}
use ai_email.Config.{
  Config, env_production, Url, Outside, is_production, is_positive, read_config, load,
}
use ai_email.Config.Checked.{
  IsHttp, load_read, validate-IsValid, sendable_parts, engine_IsHttp, database_problems-IsDatabase,
  read_key_size, unequal,
}

-- What a configuration needs before it may send: a ceiling, a master key of 32 bytes, an engine.
pub record CanSend (o : Outside) (c : Config) : Type 0 where
  pub ceiling : is_positive c.max_send_per_hour ≡ true
  pub key_size : length c.dkim_master_key ≡ 32
  pub engine : IsHttp o c.engine_url

not_empty : (n : ℕ) → (n ≡ 0) ⊎ (n ≡ 32) → (n == 0) ≡ false → n ≡ 32
not_empty n (inl e) h = absurd (ground arith)
not_empty n (inr e) h = e

-- A configuration that is loaded with sending switched on has a positive hourly ceiling, a master
-- key of exactly 32 bytes, and an engine URL that parses, is http or https and names a host.
pub load_sends : (o : Outside) (c : Config) → load o ≡ ok c → c.send_enabled ≡ true → CanSend o c
load_sends o c h on =
    let (e, v) = load_read o c h in
    let (a, b, n) = sendable_parts o c on (validate-IsValid o c v).sending in
    record {
      ceiling = b;
      key_size =
          not_empty _
            (subst (λ d. (length d.dkim_master_key ≡ 0) ⊎ (length d.dkim_master_key ≡ 32)) (sym e)
              (read_key_size o))
            n;
      engine = engine_IsHttp o c a;
    }

is_production_lem : (env : Str) → env ≡ env_production → is_production env ≡ true
unfolding is_production
is_production_lem env h = (str_eq_iff env env_production).1 h

-- What a configuration for production has: a database URL for PostgreSQL that does not switch encryption off, an
-- address to listen on that does not begin with `0.0.0.0:`, cookies for HTTPS only.
pub record IsGuarded (o : Outside) (c : Config) : Type 0 where
  pub url : Url
  pub database : o.parse_url c.database_url ≡ some url
  pub postgres : (url.scheme ≡ codes "postgres") ⊎ (url.scheme ≡ codes "postgresql")
  pub encrypted : url.sslmode ≢ codes "disable"
  pub narrow : has_prefix c.listen_addr (codes "0.0.0.0:") ≡ false
  pub secure : c.console_secure_cookies ≡ true

second_false : (a b : Bool) → a ≡ true → (a && b) ≡ false → b ≡ false
second_false a b h n = ground arith

read_secure :
    (o : Outside) → let c = (read_config o).0 in c.console_secure_cookies ≡ is_production c.env
unfolding read_config
read_secure o = refl

-- A configuration that is loaded for production has a database URL that parses, has a scheme of
-- PostgreSQL and does not switch encryption off, an address to listen on that does not begin with `0.0.0.0:`, and secure cookies.
pub load_guards :
    (o : Outside) (c : Config) → load o ≡ ok c → c.env ≡ env_production → IsGuarded o c
load_guards o c h live =
    let (e, v) = load_read o c h in
    let valid = validate-IsValid o c v in
    let d = database_problems-IsDatabase o c valid.database in
    let p = is_production_lem c.env live in
    record {
      url = d.url;
      database = d.parsed;
      postgres = d.postgres;
      encrypted = unequal _ _ (second_false _ _ p d.encrypted);
      narrow = second_false _ _ p valid.narrow;
      secure =
          subst (λ d. d.console_secure_cookies ≡ is_production d.env) (sym e) (read_secure o) ∙ p;
    }
