-- ===== src/Webhook.antt =====
-- internal/webhook/sender.go: one attempt at a webhook delivery, through the guarded client.
-- The headers that are set, with those of `Sign` among them, are no output of this model.
pub mod Sign
pub mod Guarded
mod Tests
use ai_email.Base.{
  ℕ, ◌&&◌, ◌||◌, Option, none, some, List, [], ◌++◌, Str, codes, Result, ok, err, ltb, leb, ◌==◌,
  itoa, if◌then◌else◌,
}
use ai_email.Netguard.{Addr, Problem, Url, Parser, validate_url}
use ai_email.Netguard.Client.{Network, webhook_hops, follow}

pub data Outcome : Type 0 where
  delivered retry drop : Outcome

pub record Answer : Type 0 where
  pub outcome : Outcome
  pub reason : Str

-- The switch on `resp.StatusCode`.
unfoldable pub of_status : ℕ → Answer
of_status code =
    if leb 200 code && ltb code 300
    then record { outcome = delivered; reason = codes "" }
    else if code == 429 || leb 500 code
    then record { outcome = retry; reason = codes "endpoint returned " ++ itoa code }
    else if code == 410
    then record { outcome = drop; reason = codes "endpoint reported it is gone" }
    else record { outcome = retry; reason = codes "endpoint returned " ++ itoa code }

-- `http.NewRequestWithContext` (an error, or nothing), and `Error()` of the errors of netguard.
pub record Http : Type 0 where
  pub parser : Parser
  pub network : Network
  pub bad_request : Str → Option Str
  pub error_text : Problem → Str

abbrev dropped : Str → Answer
dropped reason = record { outcome = drop; reason = reason }

-- What the client returned.
unfoldable pub of_response : Http → Result Problem ℕ → Answer
of_response h (err e) = record {
  outcome = retry;
  reason = codes "request failed: " ++ h.error_text e;
}
of_response h (ok code) = of_status code

-- The rest of `Sender.Send`, by what `ValidateURL` and `http.NewRequestWithContext` answered.
unfoldable pub attempt : Http → Str → Result Problem Url → Option Str → List Addr × Answer
attempt h url (err e) _ = ([], dropped (h.error_text e))
attempt h url (ok _) (some problem) = ([], dropped (codes "building request: " ++ problem))
attempt h url (ok _) none =
    let (dialled, r) = follow h.parser h.network webhook_hops url in (dialled, of_response h r)

-- `Sender.Send`: the addresses that were connected to, and the result.
unfoldable pub send : Http → Str → List Addr × Answer
send h url = attempt h url (validate_url h.parser url) (h.bad_request url)
