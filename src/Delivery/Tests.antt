-- ===== src/Delivery/Tests.antt =====
-- An engine that answers 403, and one reason of its.
use ai_email.Base.{◌≡◌, refl, false, none, [], codes, ok, ascii_only}
use ai_email.Bounce.{classify, verdict_suppresses}
use ai_email.Delivery.{Message, status, Engine, of_status}
use ai_email.Delivery.Answers.{engine_reason_suppresses_nobody}

abbrev refusing : Engine
refusing = record {
  base_url = codes "http://engine";
  wire = record {
    marshal = λ m. ok (codes "{}");
    bad_request = λ u. none;
    exchange = λ p. status 403;
  };
}

abbrev a_message : Message
a_message = record {
  id = codes "m1";
  from = codes "a@b.org";
  to = [];
  subject = [];
  html = [];
  text = [];
  headers = [];
  raw = [];
}

engine_reason_suppresses_nobody_example :
    verdict_suppresses (classify ascii_only (of_status 403).reason) ≡ false
unfolding of_status
engine_reason_suppresses_nobody_example = engine_reason_suppresses_nobody ascii_only 403 refl
