-- ===== src/Httpapi/Tests.antt =====
-- A server with a key, and requests to it.
use ai_email.Base.{
  ◌≡◌, refl, true, none, some, [], ◌∷◌, ◌++◌, Str, codes, str_eq, Result, ok, err, Member,
  ascii_only, ap, cut, lower_byte, trim_space, trim_start, reverse_onto, space_width,
  space_width_back, to_lower, is_ascii,
}
use ai_email.Httpapi.{Reply, Json, Request, Server}
use ai_email.Httpapi.Auth.{bearer_token, unauthorized, authorize, require_key, of_scheme, is_bearer}
use ai_email.Keys.{generate, parse}
use ai_email.Keys.Tests.{unary_encoding, unary_encoding-Decodes, key_bytes}
use ai_email.Store.{ApiKeyRow, Store}
use ai_email.Keys.Issued.{parse-generate}
use ai_email.Keys.Tests.{unary, marks}
use ai_email.Httpapi.{page}
use ai_email.Httpapi.Auth.{admit}
use ai_email.Httpapi.Auth.Admitted.{authorize_admits}
use ai_email.Httpapi.Auth.Granted.{IsUsable, authorize_sound}
use ai_email.Httpapi.Auth.Refused.{revoked_refused}
use ai_email.Store.Keys.{
  ApiKey, key_of, key_hashed, hashed, revoked, expired, has_scope, revoke_api_key,
}
use ai_email.Store.Keys.Revoked.{next, here, passes}
use ai_email.Store.Tests.{a_store}

abbrev pub sample_json : Json
sample_json = record {
  decode_request = λ raw. some (record {
    from = codes "a@b.org";
    to = codes "c@d.org";
    subject = codes "Hello {{who}}";
    html = [];
    text = codes "Hi";
    reply_to = [];
    headers = [];
    tags = [];
    scheduled_at = [];
    variables = (codes "who", codes "you") ∷ [];
  });
  decode_string = λ raw. some raw;
  decode_strings = λ raw. none;
  encode_map = λ m. codes "{}";
}

abbrev pub sample_server : Server
sample_server = record {
  send_enabled = true;
  unicode = ascii_only;
  address_parser = λ s. some ([], s);
  sha256 = λ s. s;
  encoding = unary_encoding;
  json = sample_json;
  codec = record { hmac = λ k s. k ++ s; encode64 = λ s. s; decode64 = λ s. some s };
  unsubscribe_secret = codes "k";
  parse_addr = λ s. some s;
  parse_time = λ s. none;
  new_id = codes "01NEW";
}

abbrev pub secret : Str
secret = (generate ascii_only unary_encoding (λ s. s) key_bytes).secret

abbrev pub sample_key : ApiKeyRow
sample_key = record {
  id = 4;
  name = codes "ci";
  prefix = [];
  secret_hash = secret;
  scopes = codes "emails:send" ∷ [];
  quota_per_hour = 10;
  expires_at = 1000;
  revoked_at = none;
  last_used_at = none;
  last_used_ip = none;
  created_at = 1;
}

abbrev pub keyed_store : Store
keyed_store = record a_store { api_keys = sample_key ∷ [] }

abbrev pub sample_request : Request
sample_request = record {
  header_authorization = codes "Bearer " ++ secret;
  header_idempotency_key = [];
  remote_addr = codes "192.0.2.1:80";
  body = some (codes "{}");
  token = [];
}

pub sample_request-token : bearer_token sample_request.header_authorization ≡ some secret
unfolding bearer_token of_scheme is_bearer cut str_eq lower_byte trim_space trim_start reverse_onto
    space_width space_width_back generate to_lower is_ascii unary marks
sample_request-token = refl

pub sample_key_found : key_hashed secret keyed_store.api_keys ≡ some (key_of sample_key)
unfolding key_hashed hashed str_eq generate to_lower is_ascii lower_byte unary marks
sample_key_found = refl

sample_admitted :
    authorize sample_server (codes "emails:send") sample_request keyed_store
    ≡ (ok (key_of sample_key), keyed_store)
sample_admitted =
    authorize_admits sample_server (codes "emails:send") secret sample_request (key_of sample_key)
      keyed_store refl sample_request-token
      (parse-generate ascii_only unary_encoding (λ s. s) key_bytes unary_encoding-Decodes refl)
      sample_key_found (unfold admit revoked expired has_scope str_eq in refl)

authorize_sound_example :
    (token : Str) × (row : ApiKeyRow) × (bearer_token sample_request.header_authorization
      ≡ some token)
    × (parse sample_server.unicode sample_server.encoding token ≡ ok tt)
    × Member row keyed_store.api_keys
    × (row.secret_hash ≡ sample_server.sha256 token)
    × (key_of sample_key ≡ key_of row)
    × IsUsable (codes "emails:send") keyed_store.now (key_of sample_key)
authorize_sound_example =
    authorize_sound sample_server (codes "emails:send") sample_request keyed_store
      (key_of sample_key) (ap (λ (x : Result Reply ApiKey × Store). x.0) sample_admitted)

abbrev bare_request : Request
bare_request = record sample_request { header_authorization = codes "Basic x" }

bare_refused :
    (authorize sample_server (codes "emails:send") bare_request keyed_store).0 ≡ err unauthorized
unfolding authorize bearer_token of_scheme is_bearer cut str_eq lower_byte
bare_refused = refl

abbrev echo : ApiKey → Request → Store → Reply × Store
echo key r s = (record { status = 200; headers = []; body = page key.name }, s)

abbrev later_store : Store
later_store = record (revoke_api_key 4 keyed_store).1 { now = 5000; outage = [] }

revoked_refused_example :
    require_key sample_server (codes "emails:send") echo sample_request later_store
    ≡ (unauthorized, (authorize sample_server (codes "emails:send") sample_request later_store).1)
revoked_refused_example =
    revoked_refused sample_server (codes "emails:send") secret echo sample_request
      (key_of sample_key) keyed_store later_store refl sample_key_found
      (next here (passes (revoke_api_key 4 keyed_store).1 5000 [])) sample_request-token
