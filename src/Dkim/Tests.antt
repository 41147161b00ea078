-- ===== src/Dkim/Tests.antt =====
-- Tests of internal/dkim, with the cipher of the tests of Crypto and a library that writes a header.
use ai_email.Base.{
  ◌≡◌, refl, Option, some, [], ◌++◌, Str, codes, ok, err, str_eq, ascii_only, index, has_prefix,
  to_lower, is_ascii, lower_byte, trim_space, trim_start, reverse_onto, space_width,
  space_width_back, split, first_field,
}
use ai_email.Crypto.Tests.{shifting}
use ai_email.Dkim.{
  Key, KeyPair, SignOptions, Keeper, body_length_tag, ed25519_name, unwrap, envelope_keeper,
  signer_of, unwrap_signer, header_of, lines, is_signature, is_length_tag, is_limited,
  assert_no_body_length_tag, sign,
}

abbrev pub private_bytes : Str
private_bytes = codes "0123456789abcdef0123456789abcdef0123456789abcdef0123456789abcdef"

abbrev pub keeper : Keeper
keeper = envelope_keeper (codes "no") shifting

abbrev pair : KeyPair
pair = record {
  selector = codes "202601";
  algorithm = ed25519_name;
  wrapped_secret = codes "no" ++ shifting.seal [] private_bytes;
  public_record = codes "v=DKIM1; k=ed25519; p=pub";
}

abbrev key : Key
key = record {
  domain = codes "b.org";
  selector = pair.selector;
  algorithm = pair.algorithm;
  wrapped = pair.wrapped_secret;
}

abbrev limited : SignOptions → Str → Option Str
limited options message = some (codes "dkim-signature: v=1; l=5\r\n" ++ message)

limit_refused :
    sign ascii_only some limited keeper key (codes "a: b\r\n\r\nbody") 7 ≡ err body_length_tag
unfolding sign unwrap_signer unwrap signer_of str_eq assert_no_body_length_tag header_of lines
    is_limited is_signature is_length_tag index has_prefix to_lower is_ascii lower_byte trim_space
    trim_start reverse_onto space_width space_width_back split first_field
limit_refused = refl

-- Only the first line of a field is examined: the same tag on a folded line passes.
abbrev folded : Str
folded = codes "DKIM-Signature: v=1;\r\n l=5\r\na: b\r\n\r\nbody"

fold_passes :
    sign ascii_only some (λ options message. some folded) keeper key (codes "a: b\r\n\r\nbody") 7
    ≡ ok folded
unfolding sign unwrap_signer unwrap signer_of str_eq assert_no_body_length_tag header_of lines
    is_limited is_signature is_length_tag index has_prefix to_lower is_ascii lower_byte trim_space
    trim_start reverse_onto space_width space_width_back split first_field
fold_passes = refl
