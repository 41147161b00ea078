-- ===== src/Mail/Build.antt =====
-- internal/mail/build.go and qp.go: assembling an RFC 5322 message.
-- The encoders of the standard library (Q-encoding, quoted-printable, the multipart boundary, the
-- date format) are the parameter `Mime`. The extra headers are in the order in which the map is
-- ranged over.
pub mod Headers
use ai_email.Base.{
  ℕ, Bool, true, false, ◌&&◌, ◌||◌, Option, none, some, List, [], ◌∷◌, ◌++◌, Str, codes, str_eq,
  Result, ok, err, ◌>>=◌, if◌then◌else◌, leb, ◌==◌, Unicode, trim_space, runes, encode_all,
  fields_by, join, length,
}
use ai_email.Mail.{
  Problem, control_character, no_recipient, contains_control, validate_subject,
  validate_custom_header,
}

pub record Envelope : Type 0 where
  pub message_id : Str
  pub from : Str
  pub to : List Str
  pub subject : Str
  pub html : Str
  pub text : Str
  pub reply_to : Str
  pub extra : List (Str × Str)
  pub date : Option ℕ
  pub unsubscribe_url : Str

pub record Mime : Type 0 where
  pub now : ℕ
  pub format_date : ℕ → Str
  pub q_encode : Str → Str
  pub quoted_printable : Str → Str
  pub boundary : Str

abbrev pub crlf : Str
crlf = 13 ∷ 10 ∷ []

-- One header line.
abbrev pub line : Str → Str → Str
line name value = name ++ (codes ": " ++ (value ++ crlf))

-- The closure `write`, over the buffer.
unfoldable pub write : Str → Str → Str → Result Problem Str
write name value buf =
    if contains_control value then err control_character else ok (buf ++ line name value)

-- A write that is made only where `value` is not empty.
unfoldable pub write_set : Str → Str → Str → Result Problem Str
write_set name value buf = if str_eq value [] then ok buf else write name value buf

unfoldable pub write_unsubscribe : Str → Str → Result Problem Str
write_unsubscribe url buf = if str_eq url [] then ok buf else (do
  buf1 ← write (codes "List-Unsubscribe") (codes "<" ++ (url ++ codes ">")) buf
  write (codes "List-Unsubscribe-Post") (codes "List-Unsubscribe=One-Click") buf1)

unfoldable pub write_extra : Unicode → List (Str × Str) → Str → Result Problem Str
write_extra u [] buf = ok buf
write_extra u ((name, value) ∷ extra) buf = elim (validate_custom_header u name value) [
  | some p ↦ err p
  | none ↦ write name value buf >>= write_extra u extra
]

abbrev pub date_of : Mime → Envelope → ℕ
date_of m e = elim e.date [ some d ↦ d | none ↦ m.now ]

-- The header writes of `Build`, in their order.
unfoldable pub write_headers : Unicode → Mime → Envelope → Result Problem Str
write_headers u m e = do
  buf1 ← write (codes "From") e.from []
  buf2 ← write (codes "To") (join (codes ", ") e.to) buf1
  buf3 ← write_set (codes "Reply-To") e.reply_to buf2
  buf4 ← write (codes "Subject") (m.q_encode e.subject) buf3
  buf5 ← write (codes "Message-ID") (codes "<" ++ (e.message_id ++ codes ">")) buf4
  buf6 ← write (codes "Date") (m.format_date (date_of m e)) buf5
  buf7 ← write (codes "MIME-Version") (codes "1.0") buf6
  buf8 ← write_unsubscribe e.unsubscribe_url buf7
  write_extra u e.extra buf8

-- The loop of `PlainTextFrom`, over runes.
unfoldable pub strip_tags : Bool → List ℕ → List ℕ
strip_tags in_tag [] = []
strip_tags in_tag (r ∷ rs) =
    if r == b'<'
    then strip_tags true rs
    else if r == b'>'
    then 32 ∷ strip_tags false rs
    else if in_tag
    then strip_tags in_tag rs
    else r ∷ strip_tags in_tag rs

-- `unicode.IsSpace`
unfoldable pub is_space : ℕ → Bool
is_space r =
    (leb 9 r && leb r 13)
    || r == 0x20
    || r == 0x85
    || r == 0xA0
    || r == 0x1680
    || (leb 0x2000 r && leb r 0x200A)
    || r == 0x2028
    || r == 0x2029
    || r == 0x202F
    || r == 0x205F
    || r == 0x3000

-- `PlainTextFrom`: the runes outside tags, with runs of spaces made one.
unfoldable pub plain_text_from : Str → Str
plain_text_from html =
    trim_space (encode_all (join (32 ∷ []) (fields_by is_space (strip_tags false (runes html)))))

abbrev pub text_of : Envelope → Str
text_of e = if str_eq (trim_space e.text) [] then plain_text_from e.html else e.text

abbrev transfer_encoding : Str
transfer_encoding = codes "Content-Transfer-Encoding: quoted-printable"

-- One part of the multipart writer; its headers are written in alphabetical order.
abbrev part : Mime → Str → Str → Str
part m content_type body =
    codes "--"
    ++ (m.boundary
        ++ (crlf
            ++ (transfer_encoding
                ++ (crlf
                    ++ (codes "Content-Type: "
                        ++ (content_type ++ (crlf ++ (crlf ++ m.quoted_printable body))))))))

-- What follows the header lines: one text part, or text and HTML as alternatives.
unfoldable pub content : Mime → Envelope → Str
content m e =
    if str_eq (trim_space e.html) []
    then codes "Content-Type: text/plain; charset=utf-8"
      ++ (crlf ++ (transfer_encoding ++ (crlf ++ (crlf ++ m.quoted_printable (text_of e)))))
    else codes "Content-Type: multipart/alternative; boundary="
      ++ ((b'"' ∷ m.boundary)
          ++ ((b'"' ∷ [])
              ++ (crlf
                  ++ (crlf
                      ++ (part m (codes "text/plain; charset=utf-8") (text_of e)
                          ++ (crlf
                              ++ (part m (codes "text/html; charset=utf-8") e.html
                                  ++ (crlf
                                      ++ (codes "--"
                                          ++ (m.boundary ++ (codes "--" ++ crlf)))))))))))

-- `Build`
unfoldable pub build : Unicode → Mime → Envelope → Result Problem Str
build u m e = elim (validate_subject e.subject) [
  | some p ↦ err p
  | none ↦
      if length e.to == 0
      then err no_recipient
      else write_headers u m e >>= λ buf. ok (buf ++ content m e)
]
