-- ===== src/Config.antt =====
-- internal/config/config.go: the configuration of a deployment. The environment is a function from
-- names; `url.Parse` and `base64` are arguments. The messages of the problems are kept as kinds.
pub mod Checked
pub mod Safe
pub mod Tests
use ai_email.Base.{
  ℕ, ◌+◌, ◌*◌, Bool, true, false, not, ◌&&◌, ◌||◌, Option, none, some, List, [], ◌∷◌, ◌++◌, Str,
  codes, str_eq, Result, ok, err, ltb, leb, ◌==◌, if◌then◌else◌, length, any, trim_space, trim_last,
  has_prefix, split, trimmed_parts, ℤ, pos, negsuc, parse_int,
}

abbrev pub env_development : Str
env_development = codes "development"

abbrev pub env_production : Str
env_production = codes "production"

pub record Config : Type 0 where
  pub env : Str
  pub listen_addr : Str
  pub database_url : Str
  pub log_level : Str
  pub send_enabled : Bool
  pub engine_url : Str
  pub max_send_per_hour : ℤ
  pub dkim_master_key : Str
  pub mtasts_hosts : List Str
  pub mtasts_mode : Str
  pub mtasts_max_age : ℤ
  pub security_contact : Str
  pub security_policy_url : Str
  pub public_base_url : Str
  pub console_password_hash : Str
  pub console_secure_cookies : Bool
  pub shutdown_grace : ℕ

-- What a message of `ValidationError` is about.
pub data Problem : Type 0 where
  not_a_boolean not_an_integer : Str → Problem
  key_not_base64 key_wrong_length : Problem
  unknown_env unknown_log_level : Problem
  no_database bad_database_url not_postgres unencrypted_database : Problem
  no_listen_addr negative_ceiling : Problem
  unknown_mtasts_mode bad_mtasts_max_age : Problem
  no_engine bad_engine_url not_http no_engine_host : Problem
  no_ceiling no_master_key : Problem
  every_interface : Problem

-- What is used of a parsed URL: its scheme, its host, and the first value of `sslmode` in its query.
pub record Url : Type 0 where
  pub scheme : Str
  pub host : Str
  pub sslmode : Str

pub record Outside : Type 0 where
  pub getenv : Str → Str
  pub parse_url : Str → Option Url
  pub decode64 : Str → Option Str

unfoldable pub one_of : Str → List Str → Bool
one_of s [] = false
one_of s (t ∷ ts) = str_eq s t || one_of s ts

-- `IsProduction`
unfoldable pub is_production : Str → Bool
is_production env = str_eq env env_production

unfoldable pub database_url_problems : Str → Option Url → List Problem
database_url_problems env none = bad_database_url ∷ []
database_url_problems env (some u) =
    if not (str_eq u.scheme (codes "postgres")) && not (str_eq u.scheme (codes "postgresql"))
    then not_postgres ∷ []
    else if is_production env && str_eq u.sslmode (codes "disable")
    then unencrypted_database ∷ []
    else []

unfoldable pub engine_url_problems : Option Url → List Problem
engine_url_problems none = bad_engine_url ∷ []
engine_url_problems (some u) =
    if not (str_eq u.scheme (codes "http")) && not (str_eq u.scheme (codes "https"))
    then not_http ∷ []
    else if str_eq u.host []
    then no_engine_host ∷ []
    else []

abbrev pub found_if : Bool → Problem → List Problem
found_if true p = p ∷ []
found_if false p = []

unfoldable pub database_problems : Outside → Config → List Problem
database_problems o c =
    if str_eq c.database_url []
    then no_database ∷ []
    else database_url_problems c.env (o.parse_url c.database_url)

abbrev pub is_negative : ℤ → Bool
is_negative (pos _) = false
is_negative (negsuc _) = true

-- `age < 86400 || age > 31557600`
abbrev pub outside_ages : ℤ → Bool
outside_ages (negsuc _) = true
outside_ages (pos age) = ltb age 86400 || ltb 31557600 age

abbrev pub is_positive : ℤ → Bool
is_positive (pos n) = ltb 0 n
is_positive (negsuc _) = false

unfoldable pub mtasts_problems : Config → List Problem
mtasts_problems c =
    if length c.mtasts_hosts == 0
    then []
    else found_if
        (not (one_of c.mtasts_mode (codes "testing" ∷ codes "enforce" ∷ codes "none" ∷ [])))
        unknown_mtasts_mode
      ++ found_if (outside_ages c.mtasts_max_age) bad_mtasts_max_age

unfoldable pub engine_problems : Outside → Config → List Problem
engine_problems o c =
    if str_eq c.engine_url []
    then no_engine ∷ []
    else engine_url_problems (o.parse_url c.engine_url)

unfoldable pub sending_problems : Outside → Config → List Problem
sending_problems o c =
    if c.send_enabled
    then engine_problems o c
      ++ (found_if (not (is_positive c.max_send_per_hour)) no_ceiling
          ++ found_if (length c.dkim_master_key == 0) no_master_key)
    else []

-- `validate`
unfoldable pub validate : Outside → Config → List Problem
validate o c =
    found_if (not (one_of c.env (env_development ∷ env_production ∷ []))) unknown_env
    ++ (found_if
          (not
            (one_of c.log_level (codes "debug" ∷ codes "info" ∷ codes "warn" ∷ codes "error" ∷ [])))
          unknown_log_level
        ++ (database_problems o c
            ++ (found_if (str_eq c.listen_addr []) no_listen_addr
                ++ (found_if (is_negative c.max_send_per_hour) negative_ceiling
                    ++ (mtasts_problems c
                        ++ (sending_problems o c
                            ++ found_if
                                (is_production c.env && has_prefix c.listen_addr (codes "0.0.0.0:"))
                                every_interface))))))

-- `splitList`
unfoldable pub split_list : Str → List Str
split_list raw = trimmed_parts (split b',' raw)

abbrev pub or_fallback : Str → Str → Str
or_fallback [] fallback = fallback
or_fallback (c ∷ s) fallback = c ∷ s

-- `envOr`
unfoldable pub env_or : Outside → Str → Str → Str
env_or o key fallback = or_fallback (trim_space (o.getenv key)) fallback

-- `strconv.ParseBool`
unfoldable pub parse_bool : Str → Option Bool
parse_bool s =
    if one_of s
      (codes "1" ∷ codes "t" ∷ codes "T" ∷ codes "true" ∷ codes "TRUE" ∷ codes "True" ∷ [])
    then some true
    else if one_of s
        (codes "0" ∷ codes "f" ∷ codes "F" ∷ codes "false" ∷ codes "FALSE" ∷ codes "False" ∷ [])
    then some false
    else none

-- The value and the problems of `envBool` and of `envInt`; `strconv.Atoi` is `ParseInt`.
abbrev pub or_problem : {A : Type 0} → A → Problem → Option A → A × List Problem
or_problem fallback p none = (fallback, p ∷ [])
or_problem fallback p (some a) = (a, [])

unfoldable pub read_bool : Str → Str → Bool → Bool × List Problem
read_bool key [] fallback = (fallback, [])
read_bool key (c ∷ raw) fallback = or_problem fallback (not_a_boolean key) (parse_bool (c ∷ raw))

unfoldable pub env_bool : Outside → Str → Bool → Bool × List Problem
env_bool o key fallback = read_bool key (trim_space (o.getenv key)) fallback

unfoldable pub read_int : Str → Str → ℤ → ℤ × List Problem
read_int key [] fallback = (fallback, [])
read_int key (c ∷ raw) fallback = or_problem fallback (not_an_integer key) (parse_int (c ∷ raw))

unfoldable pub env_int : Outside → Str → ℤ → ℤ × List Problem
env_int o key fallback = read_int key (trim_space (o.getenv key)) fallback

unfoldable pub of_length : Option Str → Str × List Problem
of_length none = ([], key_not_base64 ∷ [])
of_length (some key) = if length key == 32 then (key, []) else ([], key_wrong_length ∷ [])

-- The master key: no key where the variable is blank.
unfoldable pub master_key : Outside → Str → Str × List Problem
master_key o [] = ([], [])
master_key o (c ∷ raw) = of_length (o.decode64 (c ∷ raw))

abbrev pub second : ℕ
second = 1000000000

-- What `Load` reads, and the problems of reading it.
unfoldable pub read_config : Outside → Config × List Problem
read_config o =
    let (send_enabled, a) = env_bool o (codes "AIEMAIL_SEND_ENABLED") false in
    let (ceiling, b) = env_int o (codes "AIEMAIL_MAX_SEND_PER_HOUR") (pos 0) in
    let (key, c) = master_key o (trim_space (o.getenv (codes "AIEMAIL_DKIM_MASTER_KEY"))) in
    let (age, d) = env_int o (codes "AIEMAIL_MTA_STS_MAX_AGE") (pos 604800) in
    (
      record {
        env = env_or o (codes "AIEMAIL_ENV") env_development;
        listen_addr = env_or o (codes "AIEMAIL_LISTEN_ADDR") (codes "127.0.0.1:8080");
        database_url = o.getenv (codes "AIEMAIL_DATABASE_URL");
        log_level = env_or o (codes "AIEMAIL_LOG_LEVEL") (codes "info");
        send_enabled = send_enabled;
        engine_url = o.getenv (codes "AIEMAIL_ENGINE_URL");
        max_send_per_hour = ceiling;
        dkim_master_key = key;
        mtasts_hosts = split_list (o.getenv (codes "AIEMAIL_MTA_STS_HOSTS"));
        mtasts_mode = env_or o (codes "AIEMAIL_MTA_STS_MODE") (codes "testing");
        mtasts_max_age = age;
        security_contact = trim_space (o.getenv (codes "AIEMAIL_SECURITY_CONTACT"));
        security_policy_url = trim_space (o.getenv (codes "AIEMAIL_SECURITY_POLICY_URL"));
        public_base_url = trim_last b'/' (trim_space (o.getenv (codes "AIEMAIL_PUBLIC_BASE_URL")));
        console_password_hash = trim_space (o.getenv (codes "AIEMAIL_CONSOLE_PASSWORD_HASH"));
        console_secure_cookies = is_production (env_or o (codes "AIEMAIL_ENV") env_development);
        shutdown_grace = 30 * second;
      },
      a ++ (b ++ (c ++ d)),
    )

abbrev pub unless_any : Config → List Problem → Result (List Problem) Config
unless_any c [] = ok c
unless_any c (p ∷ ps) = err (p ∷ ps)

-- `Load`
unfoldable pub load : Outside → Result (List Problem) Config
load o = let (c, problems) = read_config o in unless_any c (problems ++ validate o c)
