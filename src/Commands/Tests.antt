-- ===== src/Commands/Tests.antt =====
-- The first key of a deployment.
use ai_email.Base.{
  ◌+◌, ◌*◌, ◌≤◌, ◌≡◌, refl, some, [], ◌++◌, ascii_only, to_lower, is_ascii, lower_byte, ok, Str,
  codes, pos, arith, str_eq, split, trim_space, trim_start, reverse_onto, space_width,
  space_width_back, first_field, trimmed_parts,
}
use ai_email.Commands.{
  Minting, run_add_domain, require_name, put_domain, next_domain_id, id_of_name, is_named, mint,
  with_keeper, run_create_key, split_scopes, days_duration, wrap64,
}
use ai_email.Commands.Issues.{created_key_opens}
use ai_email.Commands.Registers.{IsUsable, added_domain_signs}
use ai_email.Crypto.Tests.{shifting, shifting-Opens}
use ai_email.Dkim.{envelope_keeper, new_envelope_keeper, generate, wrap, ed25519_name}
use ai_email.Dkim.Tests.{private_bytes}
use ai_email.Httpapi.Auth.{authorize}
use ai_email.Httpapi.Tests.{sample_server, sample_request, sample_request-token}
use ai_email.Keys.{day, lifetime}
use ai_email.Keys.Tests.{unary_encoding-Decodes, key_bytes}
use ai_email.Store.Keys.{ApiKey, has_scope}
use ai_email.Store.{query, attempt}
use ai_email.Store.Domains.{SigningKey, key_of, new_key, is_key, create_signing_key}
use ai_email.Store.Tests.{a_store}
use ai_email.Store.Webhooks.{next_id}

abbrev scopes : Str
scopes = codes "emails:send, emails:read"

created_key_opens_example :
    (key : ApiKey) × ((run_create_key sample_server.unicode sample_server.encoding
        sample_server.sha256 key_bytes
        (codes "ci")
        scopes
        (pos 10)
        (pos 30)
        a_store).0
      ≡ ok key)
    × (key.expires_at ≤ a_store.now + 365 * day)
    × ((authorize sample_server
          (codes "emails:read")
          sample_request
          (record (run_create_key sample_server.unicode sample_server.encoding sample_server.sha256
            key_bytes
            (codes "ci")
            scopes
            (pos 10)
            (pos 30)
            a_store).1 { now = 500 })).0
        ≡ ok key)
unfolding has_scope str_eq split_scopes split first_field trimmed_parts trim_space trim_start
    reverse_onto space_width space_width_back lifetime days_duration wrap64
created_key_opens_example =
    created_key_opens sample_server key_bytes (codes "ci") scopes (codes "emails:read") 10 500
      (pos 30) sample_request a_store unary_encoding-Decodes refl refl refl (omega arith) refl
      sample_request-token refl (omega arith)

abbrev minting : Minting
minting = record {
  cipher = λ key. some shifting;
  encode64 = λ s. s;
  master_key = codes "0123456789abcdef0123456789abcdef";
  nonce = codes "no";
  selector = codes "202601";
  made = some (codes "pub", private_bytes);
}

abbrev added : SigningKey
added = key_of [] (
    new_key 1 4 (codes "202601") ed25519_name (codes "no" ++ shifting.seal [] private_bytes)
      (codes "v=DKIM1; k=ed25519; p=pub") 100)

added_domain_signs_example :
    IsUsable some
      (envelope_keeper (codes "xy") shifting)
      private_bytes
      (run_add_domain ascii_only sample_server.encoding minting
        (codes "r")
        (codes " New.org")
        a_store).1
      added
unfolding run_add_domain require_name put_domain query next_domain_id is_named id_of_name mint
    with_keeper new_envelope_keeper generate wrap create_signing_key attempt is_key next_id str_eq
    trim_space trim_start reverse_onto space_width space_width_back to_lower is_ascii lower_byte
added_domain_signs_example =
    added_domain_signs ascii_only sample_server.encoding minting (codes "r") (codes " New.org")
      (codes "xy") (codes "pub") private_bytes some shifting a_store added refl refl refl
      shifting-Opens refl refl
