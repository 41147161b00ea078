-- ===== src/Netguard/Client.antt =====
-- `Client` of internal/netguard/netguard.go: the dialler that checks what it connects to, and the
-- redirect policy. The resolver, the dial and the HTTP exchange are the parameter `Network`.
pub mod Dials
use ai_email.Base.{
  ℕ, zero, suc, ◌+◌, Bool, true, false, ◌||◌, Option, none, some, Str, List, [], ◌∷◌, ◌++◌, Result,
  ok, err,
}
use ai_email.Netguard.{
  Addr, is_blocked, Problem, bad_address, resolving, blocked_address, dialling, too_many_hops, Url,
  Parser, validate_url,
}

-- What a server answers: a final status, or a redirect to another URL.
pub data Answer : Type 0 where
  final : ℕ → Answer
  redirect : Str → Answer

-- `net.SplitHostPort` of the URL's address, `Resolver.LookupNetIP`, `Dialer.DialContext` with the
-- request over the connection (`none` where it fails).
pub record Network : Type 0 where
  pub host_port : Str → Option (Str × Str)
  pub lookup_ip : Str → Option (List Addr)
  pub exchange : Addr → Str → Str → Option Answer

-- The loop over the resolved addresses.
unfoldable pub any_blocked : List Addr → Bool
any_blocked [] = false
any_blocked (ip ∷ ips) = is_blocked ip || any_blocked ips

-- The address that is dialled, `ips[0]`; `LookupNetIP` returns an error in place of no address.
unfoldable pub checked_target : List Addr → Result Problem Addr
checked_target [] = err resolving
checked_target (ip ∷ ips) = elim (any_blocked (ip ∷ ips)) [
  | true ↦ err blocked_address
  | false ↦ ok ip
]

-- `DialContext`: the address to connect to and the port.
unfoldable pub dial_target : Network → Str → Result Problem (Addr × Str)
dial_target net url = elim (net.host_port url) [
  | none ↦ err bad_address
  | some (host, port) ↦ elim (net.lookup_ip host) [
    | none ↦ err resolving
    | some ips ↦ elim (checked_target ips) [ err e ↦ err e | ok ip ↦ ok (ip, port) ]
  ]
]

-- One request: what was dialled, and the answer.
unfoldable pub request : Network → Str → List Addr × Result Problem Answer
request net url = elim (dial_target net url) [
  | err e ↦ ([], err e)
  | ok (ip, port) ↦ elim (net.exchange ip port url) [
    | none ↦ (ip ∷ [], err dialling)
    | some answer ↦ (ip ∷ [], ok answer)
  ]
]

abbrev prepend : List Addr → List Addr × Result Problem ℕ → List Addr × Result Problem ℕ
prepend dialled (more, r) = (dialled ++ more, r)

-- An answer when no redirect may be followed any more, and when one may: the target of a redirect is
-- validated before it is fetched, by `fetch`.
unfoldable pub stop : List Addr → Result Problem Answer → List Addr × Result Problem ℕ
stop dialled (err e) = (dialled, err e)
stop dialled (ok (final code)) = (dialled, ok code)
stop dialled (ok (redirect _)) = (dialled, err too_many_hops)

unfoldable pub go_on :
    Parser
    → (Str → List Addr × Result Problem ℕ)
    → List Addr
    → Result Problem Answer
    → List Addr × Result Problem ℕ
go_on p fetch dialled (err e) = (dialled, err e)
go_on p fetch dialled (ok (final code)) = (dialled, ok code)
go_on p fetch dialled (ok (redirect next)) = elim (validate_url p next) [
  | err e ↦ (dialled, err e)
  | ok _ ↦ prepend dialled (fetch next)
]

-- `client.Do` under `CheckRedirect`: `hops` counts the redirects that may still be followed.
unfoldable pub follow : Parser → Network → ℕ → Str → List Addr × Result Problem ℕ
follow p net zero url = let (dialled, r) = request net url in stop dialled r
follow p net (suc hops) url =
    let (dialled, r) = request net url in go_on p (follow p net hops) dialled r

-- `maxRedirects` of `NewSender` in internal/webhook/sender.go: a request is refused when three were
-- made before it, so two redirects are followed.
abbrev pub webhook_hops : ℕ
webhook_hops = 2
