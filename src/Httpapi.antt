-- ===== src/Httpapi.antt =====
-- internal/httpapi: what the handlers of server.go, send.go and unsubscribe.go share. A handler is a
-- step on the store with a reply; a reply has its status, the headers that depend on the outcome, and
-- its body. The request's id, which every error repeats, and log lines are not modelled.
pub mod Auth
pub mod Send
pub mod Unsubscribing
pub mod Tests
use ai_email.Base.{
  ℕ, Bool, true, false, Option, none, some, List, [], ◌∷◌, Str, codes, Result, ok, err, Unicode,
}
use ai_email.Keys.{Encoding}
use ai_email.Mail.{AddressParser}
use ai_email.Mail
use ai_email.Store.{Store, DbError, Db, continue}
use ai_email.Store.Messages.{Accepted}
use ai_email.Store.Suppressions.{Digest}
use ai_email.Template
use ai_email.Unsubscribe.{Codec}

-- What `buildMessage` finds wrong; the texts are made from it.
pub data SendProblem : Type 0 where
  from_address : Mail.Problem → SendProblem
  no_recipients undecodable_recipients : SendProblem
  recipients : Mail.Problem → SendProblem
  unchecked_recipients : SendProblem
  all_suppressed : List Str → SendProblem
  subject_template html_template text_template : Template.Problem → SendProblem
  subject : Mail.Problem → SendProblem
  no_content : SendProblem
  reply_to : Mail.Problem → SendProblem
  header : Mail.Problem → SendProblem
  tag_control : Str → SendProblem
  unreadable_schedule past_schedule : SendProblem
  unregistered_domain : Str → SendProblem
  unverifiable_domain : SendProblem
  unverified_domain : Str → SendProblem

pub data Body : Type 0 where
  failure : Str → Str → Body
  invalid : SendProblem → Body
  accepted : Accepted → Body
  page : Str → Body

pub record Reply : Type 0 where
  pub status : ℕ
  pub headers : List (Str × Str)
  pub body : Body

-- `writeError`
abbrev pub write_error : ℕ → Str → Str → Reply
write_error status kind message = record {
  status = status;
  headers = [];
  body = failure kind message;
}

-- `internalError`
abbrev pub internal_error : Reply
internal_error =
    write_error 500 (codes "internal_error") (codes "the request could not be completed")

pub record SendRequest : Type 0 where
  pub from : Str
  pub to : Str
  pub subject : Str
  pub html : Str
  pub text : Str
  pub reply_to : Str
  pub headers : List (Str × Str)
  pub tags : List (Str × Str)
  pub scheduled_at : Str
  pub variables : List (Str × Str)

-- `encoding/json`: the decoder of requests, without unknown fields, `Unmarshal` into a string and
-- into strings, and `Marshal` of a map.
pub record Json : Type 0 where
  pub decode_request : Str → Option SendRequest
  pub decode_string : Str → Option Str
  pub decode_strings : Str → Option (List Str)
  pub encode_map : List (Str × Str) → Str

-- The fields of a request that the handlers read. `body` is what reading gave, `none` if it failed;
-- the two `header_` fields are the values of Authorization and Idempotency-Key.
pub record Request : Type 0 where
  pub header_authorization : Str
  pub header_idempotency_key : Str
  pub remote_addr : Str
  pub body : Option Str
  pub token : Str

-- The configuration and the code outside the repository: `parse_addr` is `netip.ParseAddr` with
-- `String`, `parse_time` reads RFC 3339, `new_id` is the ULID made for the request.
pub record Server : Type 0 where
  pub send_enabled : Bool
  pub unicode : Unicode
  pub address_parser : AddressParser
  pub sha256 : Digest
  pub encoding : Encoding
  pub json : Json
  pub codec : Codec
  pub unsubscribe_secret : Str
  pub parse_addr : Str → Option Str
  pub parse_time : Str → Option ℕ
  pub new_id : Str
