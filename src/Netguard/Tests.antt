-- ===== src/Netguard/Tests.antt =====
-- Two addresses, a URL, and a network with one redirect.
use ai_email.Base.{ℕ, ◌≡◌, none, some, [], ◌∷◌, any, codes, str_eq, arith, if◌then◌else◌}
use ai_email.Netguard.{v4, is_blocked, Url, Parser}
use ai_email.Netguard.Ranges.{number_v4, in_block, blocked_v4, is_blocked-v4}
use ai_email.Netguard.Client.{redirect, Network, follow}
use ai_email.Netguard.Client.Dials.{KeepsOpen, follow-open}

is_blocked-v4_example :
    is_blocked (v4 100 64 0 1) ≡ any (in_block (number_v4 100 64 0 1)) blocked_v4
is_blocked-v4_example =
    is_blocked-v4 100 64 0 1 (omega arith) (omega arith) (omega arith) (omega arith)

abbrev unique_local : ℕ
unique_local = 0xfd12345678900000

abbrev a_url : Url
a_url = record {
  scheme = codes "https";
  host = codes "h.org";
  port = codes "443";
  hostname = codes "h.org";
}

abbrev one_url : Parser
one_url = record { parse_url = λ s. some a_url; parse_addr = λ s. none }

-- The first host is open and redirects; the second resolves to the metadata service.
abbrev a_network : Network
a_network = record {
  host_port = λ u. some (u, codes "443");
  lookup_ip = λ host.
      if str_eq host (codes "a")
      then some (v4 93 184 216 34 ∷ [])
      else some (v4 169 254 169 254 ∷ []);
  exchange = λ ip port url. some (redirect (codes "b"));
}

follow-open_example : KeepsOpen 3 (follow one_url a_network 2 (codes "a"))
follow-open_example = follow-open one_url a_network 2 (codes "a")
