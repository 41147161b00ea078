-- ===== src/Webhook/Tests.antt =====
-- An endpoint that is gone, and one behind a blocked address.
use ai_email.Base.{◌≡◌, ◌↔◌, none, some, [], ◌∷◌, Str, codes}
use ai_email.Netguard.{v4}
use ai_email.Netguard.Client.{final}
use ai_email.Webhook.{drop, Http, send}
use ai_email.Webhook.Guarded.{IsHopeless, send_drops_iff}

abbrev hook : Str
hook = codes "https://h.org/hook"

abbrev gone : Http
gone = record {
  parser = record {
    parse_url = λ s. some (record {
      scheme = codes "https";
      host = codes "h.org";
      port = codes "";
      hostname = codes "h.org";
    });
    parse_addr = λ s. none;
  };
  network = record {
    host_port = λ u. some (codes "h.org", codes "443");
    lookup_ip = λ host. some (v4 93 184 216 34 ∷ []);
    exchange = λ ip port url. some (final 410);
  };
  bad_request = λ u. none;
  error_text = λ e. codes "refused";
}

send_drops_iff_example : ((send gone hook).1.outcome ≡ drop) ↔ IsHopeless gone hook
send_drops_iff_example = send_drops_iff gone hook
