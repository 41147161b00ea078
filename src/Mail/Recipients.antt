-- ===== src/Mail/Recipients.antt =====
-- The recipient list that internal/mail/address.go accepts.
use ai_email.Base.{
  ◌≤◌, ◌<◌, ◌≡◌, refl, sym, ◌∙◌, ◌↔◌, inl, inr, true, false, ◌||◌, List, [], ◌∷◌, ◌++◌, map, Str,
  str_eq, str_eq_refl, ok, All, length, Unicode, to_lower, arith, Bool-cases, Result-cases,
  err-ne-ok, ok-inj,
}
use ai_email.Mail.{
  Address, AddressParser, parse_address, mem_str, collect, parse_recipients, max_recipients,
}

module _ (u : Unicode) (parse : AddressParser) where
  abbrev lower : Str → Str
  lower e = to_lower u e

  -- No two addresses are equal but for case, and none is in `seen`.
  abbrev pub Fresh : List Str → List Str → Type 0
  Fresh seen [] = Unit
  Fresh seen (e ∷ out) = (mem_str (lower e) seen ≡ false) × Fresh (lower e ∷ seen) out

  -- The raw value is a valid address, and it or one equal but for case was seen or is accepted.
  pub record IsCovered (seen out : List Str) (raw : Str) : Type 0 where
    pub address : Address
    pub parsed : parse_address u parse raw ≡ ok address
    pub kept : mem_str (lower address.email) (map lower out ++ seen) ≡ true

  mem_str-append_cons :
      (x y : Str) (xs seen : List Str)
      → mem_str x (xs ++ (y ∷ seen)) ≡ (str_eq y x || mem_str x (xs ++ seen))
  unfolding mem_str
  mem_str-append_cons x y [] seen = refl
  mem_str-append_cons x y (z ∷ xs) seen = ground (arith, mem_str-append_cons x y xs seen)

  mem_str-append_right :
      (x : Str) (xs seen : List Str) → mem_str x seen ≡ true → mem_str x (xs ++ seen) ≡ true
  unfolding mem_str
  mem_str-append_right x [] seen h = h
  mem_str-append_right x (z ∷ xs) seen h = ground (arith, mem_str-append_right x xs seen h)

  shifted :
      (x y : Str) (xs seen : List Str)
      → mem_str x (xs ++ (y ∷ seen)) ≡ true
      → mem_str x (y ∷ (xs ++ seen)) ≡ true
  unfolding mem_str
  shifted x y xs seen h = sym (mem_str-append_cons x y xs seen) ∙ h

  Covered-shift :
      (seen out : List Str) (e : Str) (raw : List Str)
      → All (IsCovered (lower e ∷ seen) out) raw
      → All (IsCovered seen (e ∷ out)) raw
  Covered-shift seen out e [] h = tt
  Covered-shift seen out e (r ∷ raw) (h, hs) = (
    record {
      address = h.address;
      parsed = h.parsed;
      kept = shifted (lower h.address.email) (lower e) (map lower out) seen h.kept;
    },
    Covered-shift seen out e raw hs,
  )

  not_seen : (seen : List Str) (x : Str) → seen ≡ [] → mem_str x seen ≡ true → ⊥
  unfolding mem_str
  not_seen [] x e m = cc
  not_seen (y ∷ seen) x e m = cc

  -- What `collect` returns, against the values that are left.
  record Collected (seen raw out : List Str) : Type 0 where
    fresh : Fresh seen out
    bounded : length out ≤ length raw
    nonempty : seen ≡ [] → 0 < length raw → 0 < length out
    covered : All (IsCovered seen out) raw

  Collected-skip :
      (seen raw out : List Str) (r : Str) (addr : Address)
      → parse_address u parse r ≡ ok addr
      → mem_str (lower addr.email) seen ≡ true
      → Collected seen raw out
      → Collected seen (r ∷ raw) out
  Collected-skip seen raw out r addr p m c = record {
    fresh = c.fresh;
    bounded = omega (arith, c.bounded);
    nonempty = λ e _. absurd (not_seen seen (lower addr.email) e m);
    covered = (
      record {
        address = addr;
        parsed = p;
        kept = mem_str-append_right (lower addr.email) (map lower out) seen m;
      },
      c.covered,
    );
  }

  Collected-keep :
      (seen raw out : List Str) (r : Str) (addr : Address)
      → parse_address u parse r ≡ ok addr
      → mem_str (lower addr.email) seen ≡ false
      → Collected (lower addr.email ∷ seen) raw out
      → Collected seen (r ∷ raw) (addr.email ∷ out)
  Collected-keep seen raw out r addr p m c = record {
    fresh = (m, c.fresh);
    bounded = omega (arith, c.bounded);
    nonempty = λ e _. omega arith;
    covered = (
      record {
        address = addr;
        parsed = p;
        kept = unfold mem_str in ground (arith, str_eq_refl (lower addr.email));
      },
      Covered-shift seen out addr.email raw c.covered,
    );
  }

  collect-Collected :
      (seen raw out : List Str) → collect u parse seen raw ≡ ok out → Collected seen raw out
  unfolding collect
  collect-Collected seen [] out h =
      let same : [] ≡ out = ok-inj h in
      rw (← same) (record { fresh = tt; bounded = omega arith; nonempty = λ e l. l; covered = tt })
  collect-Collected seen (r ∷ raw) out h = elim (Result-cases (parse_address u parse r)) [
    | inr (e, p) ↦ absurd (err-ne-ok (rw (p, collect) at h))
    | inl (addr, p) ↦ elim (Bool-cases (mem_str (lower addr.email) seen)) [
      | inl m ↦
          Collected-skip seen raw out r addr p m
            (collect-Collected seen raw out (rw (p, m, collect) at h))
      | inr m ↦ elim (Result-cases (collect u parse (lower addr.email ∷ seen) raw)) [
        | inr (e, q) ↦ absurd (err-ne-ok (rw (p, m, q, collect) at h))
        | inl (out', q) ↦
            let same : addr.email ∷ out' ≡ out = ok-inj (rw (p, m, q, collect) at h) in
            rw (← same) (
              Collected-keep seen raw out' r addr p m
                (collect-Collected (lower addr.email ∷ seen) raw out' q))
      ]
    ]
  ]

  abbrev IsParsed : Str → Type 0
  IsParsed r = (addr : Address) × (parse_address u parse r ≡ ok addr)

  collect_total :
      (seen raw : List Str)
      → All IsParsed raw
      → (out : List Str) × (collect u parse seen raw ≡ ok out)
  unfolding collect
  collect_total seen [] h = ([], refl)
  collect_total seen (r ∷ raw) ((addr, p), h) =
      elim (Bool-cases (mem_str (lower addr.email) seen)) [
        | inl m ↦ let (out, q) = collect_total seen raw h in (out, rw (p, m, collect) q)
        | inr m ↦
            let (out, q) = collect_total (lower addr.email ∷ seen) raw h in
            (addr.email ∷ out, rw (p, m, q, collect))
      ]

  accepted :
      (raw out : List Str)
      → parse_recipients u parse raw ≡ ok out
      → (0 < length raw) × (length raw ≤ max_recipients) × (collect u parse [] raw ≡ ok out)
  unfolding parse_recipients
  accepted raw out h = ground arith

  accepting :
      (raw out : List Str)
      → 0 < length raw
      → length raw ≤ max_recipients
      → collect u parse [] raw ≡ ok out
      → parse_recipients u parse raw ≡ ok out
  unfolding parse_recipients
  accepting raw out l m c = ground arith

  covered-parsed :
      (seen out raw : List Str)
      → All (IsCovered seen out) raw
      → All (λ r. (addr : Address) × (parse_address u parse r ≡ ok addr)) raw
  covered-parsed seen out [] h = tt
  covered-parsed seen out (r ∷ raw) (h, hs) =
      ((h.address, h.parsed), covered-parsed seen out raw hs)

  -- An accepted list has 1 to 50 addresses, no two of them equal but for case, and every value of
  -- the request is a valid address that is in the list, up to case.
  pub parse_recipients_sound :
      (raw out : List Str)
      → parse_recipients u parse raw ≡ ok out
      → (0 < length out) × (length out ≤ max_recipients) × Fresh [] out × All (IsCovered [] out) raw
  unfolding parse_recipients
  parse_recipients_sound raw out h =
      let (some_raw, few, c) = accepted raw out h in
      let r = collect-Collected [] raw out c in
      (r.nonempty refl some_raw, omega (arith, r.bounded), r.fresh, r.covered)

  -- A request is accepted exactly when it has 1 to 50 values and each is a valid address: repeated
  -- addresses are merged and are no error.
  pub parse_recipients_accepts :
      (raw : List Str)
      → ((out : List Str) × (parse_recipients u parse raw ≡ ok out)) ↔ (
          (0 < length raw)
          × (length raw ≤ max_recipients)
          × All (λ r. (addr : Address) × (parse_address u parse r ≡ ok addr)) raw)
  parse_recipients_accepts raw = (
    λ (out, h).
        let (some_raw, few, c) = accepted raw out h in
        (some_raw, few, covered-parsed [] out raw (collect-Collected [] raw out c).covered),
    λ (l, m, h). let (out, q) = collect_total [] raw h in (out, accepting raw out l m q),
  )
