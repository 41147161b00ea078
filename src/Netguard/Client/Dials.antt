-- ===== src/Netguard/Client/Dials.antt =====
-- What the client of internal/netguard/netguard.go may connect to.
use ai_email.Base.{
  ℕ, zero, suc, ◌≤◌, ◌≡◌, refl, ap, false, some, Str, codes, str_eq_iff, List, [], ◌∷◌, Result, ok,
  err, All, All-append, length, length-append, arith, ◌⊎◌, inl, inr, ◌≢◌, Result-cases,
  Option-cases, ◌∙◌, subst, err-ne-ok,
}
use ai_email.Netguard.{
  Addr, is_blocked, Problem, Url, Parser, allowed_port, literal_blocked, fold_localhost,
  validate_parts, validate_url,
}
use ai_email.Netguard.Client.{
  Answer, final, redirect, Network, any_blocked, checked_target, dial_target, request, stop, go_on,
  follow,
}

validate_parts_sound :
    (p : Parser) (v u : Url)
    → validate_parts p v ≡ ok u
    → (v ≡ u)
      × ((u.scheme ≡ codes "http") ⊎ (u.scheme ≡ codes "https"))
      × (u.host ≢ [])
      × ((u.port ≡ codes "") ⊎ (u.port ≡ codes "80") ⊎ (u.port ≡ codes "443"))
      × (literal_blocked (p.parse_addr u.hostname) ≡ false)
      × (fold_localhost u.hostname ≡ false)
unfolding validate_parts allowed_port
validate_parts_sound p v u h =
    let same : v ≡ u = ground arith in
    subst
      (λ w.
        (v ≡ w)
        × ((w.scheme ≡ codes "http") ⊎ (w.scheme ≡ codes "https"))
        × (w.host ≢ [])
        × ((w.port ≡ codes "") ⊎ (w.port ≡ codes "80") ⊎ (w.port ≡ codes "443"))
        × (literal_blocked (p.parse_addr w.hostname) ≡ false)
        × (fold_localhost w.hostname ≡ false))
      same
      (
        refl,
        ground (arith, str_eq_iff v.scheme (codes "http"), str_eq_iff v.scheme (codes "https")),
        ground (arith, str_eq_iff v.host []),
        ground (
          arith,
          str_eq_iff v.port (codes ""),
          str_eq_iff v.port (codes "80"),
          str_eq_iff v.port (codes "443"),
        ),
        ground arith,
        ground arith,
      )

-- A URL that passes has an http scheme, a host, and a port that is absent, 80 or 443; its host is not
-- localhost and is no literal address that is blocked.
pub validate_url_sound :
    (p : Parser) (raw : Str) (u : Url)
    → validate_url p raw ≡ ok u
    → (p.parse_url raw ≡ some u)
      × ((u.scheme ≡ codes "http") ⊎ (u.scheme ≡ codes "https"))
      × (u.host ≢ [])
      × ((u.port ≡ codes "") ⊎ (u.port ≡ codes "80") ⊎ (u.port ≡ codes "443"))
      × (literal_blocked (p.parse_addr u.hostname) ≡ false)
      × (fold_localhost u.hostname ≡ false)
unfolding validate_url validate_parts allowed_port
validate_url_sound p raw u h = elim (Option-cases (p.parse_url raw)) [
  | inl e ↦ absurd (err-ne-ok (rw (e, validate_url) at h))
  | inr (v, e) ↦
      let (same, scheme, host, port, literal, local) =
        validate_parts_sound p v u (rw (e, validate_url) at h) in
      (e ∙ ap some same, scheme, host, port, literal, local)
]

abbrev pub IsOpen : Addr → Type 0
IsOpen ip = is_blocked ip ≡ false

any_blocked_sound : (ips : List Addr) → any_blocked ips ≡ false → All IsOpen ips
unfolding any_blocked
any_blocked_sound [] h = tt
any_blocked_sound (ip ∷ ips) h = (ground arith, any_blocked_sound ips (ground arith))

checked_target-IsOpen : (ips : List Addr) (ip : Addr) → checked_target ips ≡ ok ip → IsOpen ip
unfolding checked_target any_blocked
checked_target-IsOpen [] ip h = cc
checked_target-IsOpen (x ∷ xs) ip h = ground arith

dial_target-IsOpen :
    (net : Network) (url : Str) (ip : Addr) (port : Str)
    → dial_target net url ≡ ok (ip, port)
    → IsOpen ip
unfolding dial_target
dial_target-IsOpen net url ip port h = elim (Option-cases (net.host_port url)) [
  | inl e ↦ absurd (err-ne-ok (rw (e, dial_target) at h))
  | inr ((host, port'), e) ↦ elim (Option-cases (net.lookup_ip host)) [
    | inl f ↦ absurd (err-ne-ok (rw (e, f, dial_target) at h))
    | inr (ips, f) ↦ elim (Result-cases (checked_target ips)) [
      | inr (x, g) ↦ absurd (err-ne-ok (rw (e, f, g, dial_target) at h))
      | inl (ip', g) ↦
          let same : ◌≡◌ {A = Result Problem (Addr × Str)} (ok (ip', port')) (ok (ip, port)) =
            rw (e, f, g, dial_target) at h in
          checked_target-IsOpen ips ip (g ∙ cc same)
    ]
  ]
]

request-IsOpen :
    (net : Network) (url : Str) → All IsOpen (request net url).0 × (length (request net url).0 ≤ 1)
unfolding request
request-IsOpen net url = elim (Result-cases (dial_target net url)) [
  | inr (x, e) ↦ rw (e, request) (tt, omega arith)
  | inl ((ip, port), e) ↦ elim (Option-cases (net.exchange ip port url)) [
    | inl f ↦ rw (e, f, request) ((dial_target-IsOpen net url ip port e, tt), omega arith)
    | inr (a, f) ↦ rw (e, f, request) ((dial_target-IsOpen net url ip port e, tt), omega arith)
  ]
]

abbrev pub KeepsOpen : ℕ → List Addr × Result Problem ℕ → Type 0
KeepsOpen n (dialled, r) = All IsOpen dialled × (length dialled ≤ n)

stop-open :
    (dialled : List Addr) (r : Result Problem Answer)
    → All IsOpen dialled
    → length dialled ≤ 1
    → KeepsOpen 1 (stop dialled r)
unfolding stop
stop-open dialled (err e) a l = (a, l)
stop-open dialled (ok (final code)) a l = (a, l)
stop-open dialled (ok (redirect next)) a l = (a, l)

go_on-open :
    (p : Parser) (n : ℕ) (fetch : Str → List Addr × Result Problem ℕ) (dialled : List Addr)
    (r : Result Problem Answer)
    → ((next : Str) → KeepsOpen n (fetch next))
    → All IsOpen dialled
    → length dialled ≤ 1
    → KeepsOpen (suc n) (go_on p fetch dialled r)
unfolding go_on
go_on-open p n fetch dialled (err e) f a l = (a, omega arith)
go_on-open p n fetch dialled (ok (final code)) f a l = (a, omega arith)
go_on-open p n fetch dialled (ok (redirect next)) f a l =
    elim (Result-cases (validate_url p next)) [
      | inr (e, v) ↦ rw (v, go_on) (a, omega arith)
      | inl (u, v) ↦
          rw (v, go_on)
            (
              All-append IsOpen dialled (fetch next).0 a (f next).0,
              omega (arith, length-append {0} dialled (fetch next).0, (f next).1),
            )
    ]

-- Whatever the servers, the resolver and the redirects do, a fetch connects only to addresses that
-- are not blocked, and makes at most one connection more than the redirects that it may follow.
pub follow-open :
    (p : Parser) (net : Network) (hops : ℕ) (url : Str)
    → KeepsOpen (suc hops) (follow p net hops url)
unfolding follow
follow-open p net zero url =
    let (a, l) = request-IsOpen net url in stop-open (request net url).0 (request net url).1 a l
follow-open p net (suc hops) url =
    let (a, l) = request-IsOpen net url in
    go_on-open p (suc hops) (follow p net hops) (request net url).0 (request net url).1
      (λ next. follow-open p net hops next) a l
