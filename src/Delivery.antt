-- ===== src/Delivery.antt =====
-- internal/delivery/engine.go: handing one message to the sending engine over HTTP.
-- JSON encoding, request building and the network are the parameter `Wire`.
pub mod Answers
mod Tests
use ai_email.Base.{
  ℕ, Bool, ◌&&◌, ◌||◌, Option, none, some, List, ◌++◌, Str, codes, Result, ok, err, itoa, ltb, leb,
  ◌==◌, if◌then◌else◌,
}

-- `Result`: what the engine said of the message.
pub data Outcome : Type 0 where
  sent temporary permanent : Outcome

pub record Response : Type 0 where
  pub outcome : Outcome
  pub reason : Str

pub record Message : Type 0 where
  pub id : Str
  pub from : Str
  pub to : List Str
  pub subject : Str
  pub html : Str
  pub text : Str
  pub headers : List (Str × Str)
  pub raw : Str

pub record Post : Type 0 where
  pub url : Str
  pub content_type : Str
  pub idempotency_key : Str
  pub body : Str

-- An answer has a status code; anything else is an error of the client.
pub data Exchange : Type 0 where
  unreachable : Str → Exchange
  status : ℕ → Exchange

-- `json.Marshal`, `http.NewRequestWithContext` (an error, or nothing) and `client.Do`.
pub record Wire : Type 0 where
  pub marshal : Message → Result Str Str
  pub bad_request : Str → Option Str
  pub exchange : Post → Exchange

pub record Engine : Type 0 where
  pub base_url : Str
  pub wire : Wire

-- The switch on `resp.StatusCode`.
unfoldable pub of_status : ℕ → Response
of_status code =
    if leb 200 code && ltb code 300
    then record { outcome = sent; reason = codes "" }
    else if code == 429 || leb 500 code
    then record { outcome = temporary; reason = codes "engine returned " ++ itoa code }
    else record {
      outcome = permanent;
      reason = codes "engine rejected the message with " ++ itoa code;
    }

unfoldable pub of_exchange : Exchange → Response
of_exchange (unreachable e) = record {
  outcome = temporary;
  reason = codes "engine unreachable: " ++ e;
}
of_exchange (status code) = of_status code

abbrev refused : Str → Response
refused reason = record { outcome = permanent; reason = reason }

abbrev pub post_of : Engine → Message → Str → Post
post_of e msg body = record {
  url = e.base_url ++ codes "/api/inject/v1";
  content_type = codes "application/json";
  idempotency_key = msg.id;
  body = body;
}

unfoldable pub post_body : Engine → Message → Str → Response
post_body e msg body = elim (e.wire.bad_request (e.base_url ++ codes "/api/inject/v1")) [
  | some problem ↦ refused (codes "building request: " ++ problem)
  | none ↦ of_exchange (e.wire.exchange (post_of e msg body))
]

-- `Engine.Send`
unfoldable pub send : Engine → Message → Response
send e msg = elim (e.wire.marshal msg) [
  | err problem ↦ refused (codes "encoding message: " ++ problem)
  | ok body ↦ post_body e msg body
]
