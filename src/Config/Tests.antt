-- ===== src/Config/Tests.antt =====
-- Tests of internal/config/config.go: a configuration that may send, in production.
use ai_email.Base.{
  split, first_field, cut, trimmed_parts, trim_space, trim_start, reverse_onto, space_width,
  space_width_back, trim_last, parse_int, parse_digits, digits, has_prefix, refl, ◌≡◌, true, Option,
  some, none, List, [], ◌∷◌, ok, err, Str, codes, str_eq, if◌then◌else◌, pos,
}
use ai_email.Config.{
  Outside, Url, Config, load, no_database, read_config, validate, env_or, env_bool, env_int,
  read_bool, read_int, master_key, of_length, split_list, parse_bool, one_of, is_production,
  database_problems, database_url_problems, engine_problems, engine_url_problems, mtasts_problems,
  sending_problems,
}
use ai_email.Config.Safe.{CanSend, IsGuarded, load_sends, load_guards}

abbrev named : List (Str × Str) → Str → Str
named [] k = []
named ((j, v) ∷ m) k = if str_eq j k then v else named m k

abbrev urls : Str → Option Url
urls s =
    if str_eq s (codes "postgres://db/mail")
    then some (record { scheme = codes "postgres"; host = codes "db"; sslmode = [] })
    else if str_eq s (codes "http://engine:4000")
    then some (record { scheme = codes "http"; host = codes "engine:4000"; sslmode = [] })
    else none

abbrev settings : List (Str × Str)
settings =
    (codes "AIEMAIL_ENV", codes "production")
    ∷ (codes "AIEMAIL_DATABASE_URL", codes "postgres://db/mail")
    ∷ (codes "AIEMAIL_SEND_ENABLED", codes "true")
    ∷ (codes "AIEMAIL_ENGINE_URL", codes "http://engine:4000")
    ∷ (codes "AIEMAIL_MAX_SEND_PER_HOUR", codes " 100 ")
    ∷ (codes "AIEMAIL_DKIM_MASTER_KEY", codes "0123456789abcdef0123456789abcdef")
    ∷ []

abbrev outside : Outside
outside = record { getenv = named settings; parse_url = urls; decode64 = some }

abbrev loaded : Config
loaded = record {
  env = codes "production";
  listen_addr = codes "127.0.0.1:8080";
  database_url = codes "postgres://db/mail";
  log_level = codes "info";
  send_enabled = true;
  engine_url = codes "http://engine:4000";
  max_send_per_hour = pos 100;
  dkim_master_key = codes "0123456789abcdef0123456789abcdef";
  mtasts_hosts = [];
  mtasts_mode = codes "testing";
  mtasts_max_age = pos 604800;
  security_contact = [];
  security_policy_url = [];
  public_base_url = [];
  console_password_hash = [];
  console_secure_cookies = true;
  shutdown_grace = 30000000000;
}

load_runs : load outside ≡ ok loaded
unfolding load read_config validate env_or env_bool env_int read_bool read_int master_key of_length
    split_list parse_bool one_of is_production database_problems database_url_problems
    engine_problems engine_url_problems mtasts_problems sending_problems split first_field cut
    trimmed_parts trim_space trim_start reverse_onto space_width space_width_back trim_last
    parse_int parse_digits digits has_prefix str_eq
load_runs = refl

load_sends_example : CanSend outside loaded
load_sends_example = load_sends outside loaded load_runs refl

load_guards_example : IsGuarded outside loaded
load_guards_example = load_guards outside loaded load_runs refl

-- Nothing is set: only the missing database is a problem.
load_unset : load (record outside { getenv = λ k. [] }) ≡ err (no_database ∷ [])
unfolding load read_config validate env_or env_bool env_int read_bool read_int master_key of_length
    split_list parse_bool one_of is_production database_problems database_url_problems
    engine_problems engine_url_problems mtasts_problems sending_problems split first_field cut
    trimmed_parts trim_space trim_start reverse_onto space_width space_width_back trim_last
    parse_int parse_digits digits has_prefix str_eq
load_unset = refl

-- Another spelling of every interface passes in production.
abbrev exposed : Outside
exposed = record outside {
  getenv = named ((codes "AIEMAIL_LISTEN_ADDR", codes ":8080") ∷ settings);
}

every_interface_loads : load exposed ≡ ok (record loaded { listen_addr = codes ":8080" })
unfolding load read_config validate env_or env_bool env_int read_bool read_int master_key of_length
    split_list parse_bool one_of is_production database_problems database_url_problems
    engine_problems engine_url_problems mtasts_problems sending_problems split first_field cut
    trimmed_parts trim_space trim_start reverse_onto space_width space_width_back trim_last
    parse_int parse_digits digits has_prefix str_eq
every_interface_loads = refl
