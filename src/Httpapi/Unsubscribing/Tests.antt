-- ===== src/Httpapi/Unsubscribing/Tests.antt =====
-- A recipient who follows a link.
use ai_email.Base.{
  ◌≡◌, refl, ap, true, some, Str, codes, to_lower, lower_byte, trim_space, trim_start, reverse_onto,
  space_width, space_width_back, ascii_only, arith,
}
use ai_email.Httpapi.{Request, Server}
use ai_email.Httpapi.Unsubscribing.{handle_unsubscribe}
use ai_email.Httpapi.Unsubscribing.Stops.{unsubscribe_stops}
use ai_email.Httpapi.Tests.{sample_server, sample_request}
use ai_email.Store.Suppressions.{suppression_hash}
use ai_email.Store.Suppressions.Listed.{listed}
use ai_email.Store.Tests.{a_store}
use ai_email.Unsubscribe.{sign}
use ai_email.Unsubscribe.Tests.{shifting, shifted_back, no_dot, key}

abbrev server : Server
server = record sample_server { codec = shifting; unsubscribe_secret = key }

abbrev follows : Request
follows = record sample_request {
  token = sign ascii_only shifting key (codes "m1") (codes " A@b ") 5;
}

unsubscribe_stops_example :
    ((handle_unsubscribe server follows a_store).0.status ≡ 200)
    × ((b : Str)
        → suppression_hash ascii_only (λ s. s) (to_lower ascii_only (trim_space (codes " A@b ")))
          ≡ suppression_hash ascii_only (λ s. s) b
        → listed ascii_only (λ s. s) (handle_unsubscribe server follows a_store).1 b ≡ true)
unfolding to_lower lower_byte trim_space trim_start reverse_onto space_width space_width_back
unsubscribe_stops_example =
    unsubscribe_stops server (codes "m1") (codes " A@b ") 5 follows a_store
      (λ s. ap some (shifted_back s)) no_dot refl refl (omega arith) (omega arith) refl refl
