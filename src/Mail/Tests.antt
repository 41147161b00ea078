-- ===== src/Mail/Tests.antt =====
-- A message, a list of recipients and a header.
use ai_email.Base.{
  ◌≡◌, ◌↔◌, refl, none, some, List, [], ◌∷◌, ◌++◌, All, Str, codes, str_eq, ascii_only, trim_space,
  trim_start, reverse_onto, space_width, space_width_back, runes, runes_from, decode, to_upper,
  upper_byte, has_prefix, join,
}
use ai_email.Mail.{
  AddressParser, is_control, contains_control, validate_subject, validate_custom_header,
  illegal_in_name,
}
use ai_email.Mail.Fields.{IsClean, IsCustomName, validate_custom_header-exact}
use ai_email.Mail.Build.{
  Envelope, Mime, write, write_set, write_unsubscribe, write_extra, write_headers, content, build,
}
use ai_email.Mail.Build.Headers.{IsLine, render, lines_of, build_headers}

validate_custom_header-exact_example :
    (validate_custom_header ascii_only (codes "x-id") (codes "7") ≡ none)
    ↔ (IsCustomName (codes "x-id") × IsClean (codes "7"))
validate_custom_header-exact_example =
    validate_custom_header-exact ascii_only (codes "x-id") (codes "7")

abbrev plain_parser : AddressParser
plain_parser s = some ([], s)

abbrev two_spellings : List Str
two_spellings = codes "a@b.org" ∷ codes "A@B.org" ∷ []

abbrev an_envelope : Envelope
an_envelope = record {
  message_id = codes "m1@b.org";
  from = codes "a@b.org";
  to = codes "c@d.org" ∷ codes "e@d.org" ∷ [];
  subject = codes "Hi";
  html = [];
  text = codes "text";
  reply_to = [];
  extra = (codes "X-Id", codes "7") ∷ [];
  date = none;
  unsubscribe_url = codes "https://b.org/u/t";
}

abbrev a_mime : Mime
a_mime = record {
  now = 100;
  format_date = λ t. codes "now";
  q_encode = λ s. s;
  quoted_printable = λ s. s;
  boundary = codes "b";
}

abbrev built : Str
built = render (lines_of a_mime an_envelope) ++ content a_mime an_envelope

build_headers_example :
    (built ≡ render (lines_of a_mime an_envelope) ++ content a_mime an_envelope)
    × All IsLine (lines_of a_mime an_envelope)
unfolding build validate_subject write_headers write write_set write_unsubscribe write_extra
    validate_custom_header illegal_in_name contains_control is_control str_eq join to_upper
    upper_byte has_prefix runes runes_from decode trim_space trim_start reverse_onto space_width
    space_width_back
build_headers_example = build_headers ascii_only a_mime an_envelope built refl
