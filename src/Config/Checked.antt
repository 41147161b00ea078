-- ===== src/Config/Checked.antt =====
-- What the checks of internal/config/config.go find of a configuration without problems.
use ai_email.Base.{
  ℕ, ◌≡◌, ◌≢◌, refl, sym, ap, subst, ◌⊎◌, inl, inr, Bool, true, false, not, ◌&&◌, Option, none,
  some, List, [], ◌∷◌, ◌++◌, Str, codes, str_eq, str_eq_sound, str_eq_refl, ok, arith, ◌==◌,
  if◌then◌else◌, length, has_prefix, ok-inj, err-ne-ok, trim_space,
}
use ai_email.Config.{
  Config, env_production, env_development, Problem, Url, Outside, one_of, is_production,
  database_url_problems, engine_url_problems, found_if, no_database, unencrypted_database,
  database_problems, is_positive, is_negative, mtasts_problems, unknown_env, unknown_log_level,
  no_listen_addr, negative_ceiling, every_interface, engine_problems, sending_problems, validate,
  of_length, master_key, read_config, unless_any, load, no_engine, no_ceiling, no_master_key,
  key_wrong_length, not_http, no_engine_host, not_postgres, engine_url_problems,
}

nil_parts : {A : Type 0} (xs ys : List A) → xs ++ ys ≡ [] → (xs ≡ []) × (ys ≡ [])
nil_parts [] ys h = (refl, h)
nil_parts (x ∷ xs) ys h = absurd (ground arith)

found_none : (b : Bool) (p : Problem) → found_if b p ≡ [] → b ≡ false
found_none true p h = absurd (ground arith)
found_none false p h = refl

unless_any-ok : (c c' : Config) (ps : List Problem) → unless_any c ps ≡ ok c' → (c ≡ c') × (ps ≡ [])
unless_any-ok c c' [] h = (ok-inj h, refl)
unless_any-ok c c' (p ∷ ps) h = absurd (err-ne-ok h)

-- What `validate` has found in order.
pub record IsValid (o : Outside) (c : Config) : Type 0 where
  pub known_env : one_of c.env (env_development ∷ env_production ∷ []) ≡ true
  pub database : database_problems o c ≡ []
  pub sending : sending_problems o c ≡ []
  pub narrow : (is_production c.env && has_prefix c.listen_addr (codes "0.0.0.0:")) ≡ false

not-false : (b : Bool) → not b ≡ false → b ≡ true
not-false true h = refl
not-false false h = absurd (ground arith)

found_rest :
    (b : Bool) (p : Problem) (rest : List Problem)
    → found_if b p ++ rest ≡ []
    → (b ≡ false) × (rest ≡ [])
found_rest true p rest h = absurd (ground arith)
found_rest false p rest h = (refl, h)

pub validate-IsValid : (o : Outside) (c : Config) → validate o c ≡ [] → IsValid o c
unfolding validate
validate-IsValid o c h =
    let (a, h1) =
      found_rest (not (one_of c.env (env_development ∷ env_production ∷ []))) unknown_env _ h in
    let (_, h2) = found_rest _ unknown_log_level _ h1 in
    let (b, h3) = nil_parts (database_problems o c) _ h2 in
    let (_, h4) = found_rest (str_eq c.listen_addr []) no_listen_addr _ h3 in
    let (_, h5) = found_rest (is_negative c.max_send_per_hour) negative_ceiling _ h4 in
    let (_, h6) = nil_parts (mtasts_problems c) _ h5 in
    let (d, h7) = nil_parts (sending_problems o c) _ h6 in
    record {
      known_env = not-false _ a;
      database = b;
      sending = d;
      narrow =
          found_none (is_production c.env && has_prefix c.listen_addr (codes "0.0.0.0:"))
            every_interface h7;
    }

ends-nil : (xs ys : List Problem) → xs ++ ys ≡ [] → ys ≡ []
ends-nil xs ys h = (nil_parts xs ys h).1

pub load_read :
    (o : Outside) (c : Config) → load o ≡ ok c → (c ≡ (read_config o).0) × (validate o c ≡ [])
unfolding load
load_read o c h =
    let (e, v) = unless_any-ok _ c _ h in
    (sym e, subst (λ d. validate o d ≡ []) e (ends-nil ((read_config o).1) _ v))

==-sound : (a b : ℕ) → (a == b) ≡ true → a ≡ b
==-sound a b h = ground arith

sized :
    (k : Str) (b : Bool)
    → (length k == 32) ≡ b
    → let s : Str × List Problem = if b then (k, []) else ([], key_wrong_length ∷ []) in
      (length s.0 ≡ 0) ⊎ (length s.0 ≡ 32)
sized k true h = inr (==-sound _ _ h)
sized k false h = inl refl

of_length_size : (k : Option Str) → (length (of_length k).0 ≡ 0) ⊎ (length ((of_length k).0) ≡ 32)
unfolding of_length
of_length_size none = inl refl
of_length_size (some k) = sized k (length k == 32) refl

master_key_size :
    (o : Outside) (s : Str) → (length ((master_key o s).0) ≡ 0) ⊎ (length ((master_key o s).0) ≡ 32)
unfolding master_key
master_key_size o [] = inl refl
master_key_size o (c ∷ s) = of_length_size (o.decode64 (c ∷ s))

pub read_key_size :
    (o : Outside) → let k = ((read_config o).0).dkim_master_key in (length k ≡ 0) ⊎ (length k ≡ 32)
unfolding read_config
read_key_size o = master_key_size o (trim_space (o.getenv (codes "AIEMAIL_DKIM_MASTER_KEY")))

if_on : (b : Bool) (xs : List Problem) → b ≡ true → (if b then xs else []) ≡ [] → xs ≡ []
if_on true xs on h = h
if_on false xs on h = absurd (ground arith)

pub sendable_parts :
    (o : Outside) (c : Config)
    → c.send_enabled ≡ true
    → sending_problems o c ≡ []
    → (engine_problems o c ≡ [])
      × (is_positive c.max_send_per_hour ≡ true)
      × ((length c.dkim_master_key == 0) ≡ false)
unfolding sending_problems
sendable_parts o c on h =
    let (a, h1) = nil_parts (engine_problems o c) _ (if_on c.send_enabled _ on h) in
    let (b, h2) = found_rest (not (is_positive c.max_send_per_hour)) no_ceiling _ h1 in
    (a, not-false _ b, found_none (length c.dkim_master_key == 0) no_master_key h2)

-- An engine that a configuration can send through.
pub record IsHttp (o : Outside) (raw : Str) : Type 0 where
  pub url : Url
  pub parsed : o.parse_url raw ≡ some url
  pub web : (url.scheme ≡ codes "http") ⊎ (url.scheme ≡ codes "https")
  pub hosted : url.host ≢ []

either_then :
    (a b c : Bool) (p q : Problem)
    → (if not a && not b then p ∷ [] else if c then q ∷ [] else []) ≡ []
    → ((a ≡ true) ⊎ (b ≡ true)) × (c ≡ false)
either_then true b true p q h = absurd (ground arith)
either_then true b false p q h = (inl refl, refl)
either_then false true true p q h = absurd (ground arith)
either_then false true false p q h = (inr refl, refl)
either_then false false c p q h = absurd (ground arith)

one_equal : (s t u : Str) → (str_eq s t ≡ true) ⊎ (str_eq s u ≡ true) → (s ≡ t) ⊎ (s ≡ u)
one_equal s t u (inl h) = inl (str_eq_sound s t h)
one_equal s t u (inr h) = inr (str_eq_sound s u h)

pub unequal : (s t : Str) → str_eq s t ≡ false → s ≢ t
unequal s t h e = cc (h, ap (str_eq s) e, str_eq_refl s)

engine_url_problems_none :
    (o : Outside) (raw : Str) (u : Option Url)
    → o.parse_url raw ≡ u
    → engine_url_problems u ≡ []
    → IsHttp o raw
unfolding engine_url_problems
engine_url_problems_none o raw none e h = absurd (ground arith)
engine_url_problems_none o raw (some u) e h =
    let (w, n) =
      either_then (str_eq u.scheme (codes "http")) (str_eq u.scheme (codes "https"))
        (str_eq u.host []) not_http no_engine_host h in
    record { url = u; parsed = e; web = one_equal _ _ _ w; hosted = unequal _ _ n }

engine_found :
    (o : Outside) (raw : Str) (b : Bool)
    → (if b then no_engine ∷ [] else engine_url_problems (o.parse_url raw)) ≡ []
    → IsHttp o raw
engine_found o raw true h = absurd (ground arith)
engine_found o raw false h = engine_url_problems_none o raw (o.parse_url raw) refl h

pub engine_IsHttp : (o : Outside) (c : Config) → engine_problems o c ≡ [] → IsHttp o c.engine_url
unfolding engine_problems
engine_IsHttp o c h = engine_found o c.engine_url (str_eq c.engine_url []) h

-- A database that a configuration can use: in production, not one with encryption off.
pub record IsDatabase (o : Outside) (env raw : Str) : Type 0 where
  pub url : Url
  pub parsed : o.parse_url raw ≡ some url
  pub postgres : (url.scheme ≡ codes "postgres") ⊎ (url.scheme ≡ codes "postgresql")
  pub encrypted : (is_production env && str_eq url.sslmode (codes "disable")) ≡ false

database_url_problems_none :
    (o : Outside) (env raw : Str) (u : Option Url)
    → o.parse_url raw ≡ u
    → database_url_problems env u ≡ []
    → IsDatabase o env raw
unfolding database_url_problems
database_url_problems_none o env raw none e h = absurd (ground arith)
database_url_problems_none o env raw (some u) e h =
    let (w, n) =
      either_then (str_eq u.scheme (codes "postgres")) (str_eq u.scheme (codes "postgresql")) _
        not_postgres unencrypted_database h in
    record { url = u; parsed = e; postgres = one_equal _ _ _ w; encrypted = n }

url_checked :
    (o : Outside) (env raw : Str) (b : Bool)
    → (if b then no_database ∷ [] else database_url_problems env (o.parse_url raw)) ≡ []
    → IsDatabase o env raw
url_checked o env raw true h = absurd (ground arith)
url_checked o env raw false h = database_url_problems_none o env raw (o.parse_url raw) refl h

pub database_problems-IsDatabase :
    (o : Outside) (c : Config) → database_problems o c ≡ [] → IsDatabase o c.env c.database_url
unfolding database_problems
database_problems-IsDatabase o c h = url_checked o c.env c.database_url (str_eq c.database_url []) h
