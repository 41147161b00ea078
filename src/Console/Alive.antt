-- ===== src/Console/Alive.antt =====
-- The sessions of internal/console/auth.go that go on: what other requests leave of a session before it
-- expires.
use ai_email.Base.{
  ℕ, ◌≤◌, ◌≡◌, inl, inr, refl, sym, ap, ◌∙◌, Bool, true, false, not, Option, none, some, some-inj,
  [], ◌∷◌, Str, str_eq, str_eq_sound, str_eq_iff, Bool-cases, none-ne-some, ltb, filter, lookup,
  arith, clash, subst,
}
use ai_email.Console.{Session, Sessions, is_other, is_live, of_found, get, destroy, prune, create}

-- What happens to the sessions until a time: new sessions and ended sessions have an id other than
-- `id`, while any session may be asked for.
pub data AliveStep (id : Str) (until : ℕ) : Sessions → Sessions → Type 0 where
  creates :
      (now : ℕ) (other csrf : Str) (live : Sessions)
      → now ≤ until
      → str_eq other id ≡ false
      → AliveStep id until live (create now other csrf live)
  gets :
      (now : ℕ) (other : Str) (live : Sessions)
      → now ≤ until
      → AliveStep id until live (get now other live).1
  destroys :
      (other : Str) (live : Sessions)
      → str_eq other id ≡ false
      → AliveStep id until live (destroy other live)

pub data AliveRun (id : Str) (until : ℕ) (live : Sessions) : Sessions → Type 0 where
  here : AliveRun id until live live
  next :
      {l m : Sessions}
      → AliveRun id until live l
      → AliveStep id until l m
      → AliveRun id until live m

module _ (id : Str) (session : Session) where
  abbrev Known : Sessions → Type 0
  Known live = lookup id live ≡ some session

  kept :
      (b : Bool) (j : Str) (v : Session) (rest : Sessions)
      → b ≡ true
      → str_eq j id ≡ true
      → v ≡ session
      → Known (elim b [ true ↦ (j, v) ∷ rest | false ↦ rest ])
  unfolding lookup
  kept true j v rest h e same = rw e (ap some same)
  kept false j v rest h e same = absurd (clash h refl)

  passed :
      (b : Bool) (j : Str) (v : Session) (rest : Sessions)
      → str_eq j id ≡ false
      → Known rest
      → Known (elim b [ true ↦ (j, v) ∷ rest | false ↦ rest ])
  unfolding lookup
  passed true j v rest e h = rw e h
  passed false j v rest e h = h

  Known-filter :
      (p : Str × Session → Bool) (live : Sessions)
      → ((j : Str) → str_eq j id ≡ true → p (j, session) ≡ true)
      → Known live
      → Known (filter p live)
  unfolding lookup
  Known-filter p [] keeps h = absurd (none-ne-some h)
  Known-filter p ((j, v) ∷ live) keeps h = elim (Bool-cases (str_eq j id)) [
    | inl e ↦
        let same : v ≡ session = some-inj (rw (e, lookup) at h) in
        kept (p (j, v)) j v (filter p live) (ap (λ x. p (j, x)) same ∙ keeps j e) e same
    | inr e ↦
        passed (p (j, v)) j v (filter p live) e (Known-filter p live keeps (rw (e, lookup) at h))
  ]

  is_other-kept :
      (other j : Str)
      → str_eq other id ≡ false
      → str_eq j id ≡ true
      → is_other other (j, session) ≡ true
  is_other-kept other j h e = elim (Bool-cases (str_eq j other)) [
    | inr f ↦ ap not f
    | inl f ↦
        absurd
          (clash ((str_eq_iff other id).1 (sym (str_eq_sound j other f) ∙ str_eq_sound j id e)) h)
  ]

  destroy-Known :
      (other : Str) (live : Sessions)
      → str_eq other id ≡ false
      → Known live
      → Known (destroy other live)
  unfolding destroy
  destroy-Known other live e h = Known-filter (is_other other) live (λ j. is_other-kept other j e) h

  prune-Known :
      (now : ℕ) (live : Sessions) → now ≤ session.expires → Known live → Known (prune now live)
  unfolding prune
  prune-Known now live early h = Known-filter (is_live now) live (λ j e. ground arith) h

  create-Known :
      (now : ℕ) (other csrf : Str) (live : Sessions)
      → now ≤ session.expires
      → str_eq other id ≡ false
      → Known live
      → Known (create now other csrf live)
  unfolding create lookup
  create-Known now other csrf live early e h =
      rw (e, lookup) (destroy-Known other (prune now live) e (prune-Known now live early h))

  found_same :
      (other : Str) (live : Sessions)
      → Known live
      → str_eq other id ≡ true
      → lookup other live ≡ some session
  found_same other live h e = ap (λ k. lookup k live) (str_eq_sound other id e) ∙ h

  found-Known :
      (now : ℕ) (other : Str) (live : Sessions) (o : Option Session)
      → now ≤ session.expires
      → lookup other live ≡ o
      → Known live
      → Known (of_found now other live o).1
  unfolding of_found
  found-Known now other live none early f h = elim (Bool-cases (str_eq other id)) [
    | inl e ↦ absurd (none-ne-some (sym f ∙ found_same other live h e))
    | inr e ↦ destroy-Known other live e h
  ]
  found-Known now other live (some x) early f h = elim (Bool-cases (ltb x.expires now)) [
    | inr late ↦ rw late h
    | inl late ↦ elim (Bool-cases (str_eq other id)) [
      | inr e ↦ rw late (destroy-Known other live e h)
      | inl e ↦
          let same : x ≡ session = some-inj (sym f ∙ found_same other live h e) in
          let ended : ltb session.expires now ≡ true =
            subst (λ (y : Session). ltb y.expires now ≡ true) same late in
          absurd (ground (arith, early, ended))
    ]
  ]

  AliveStep-Known : {l m : Sessions} → AliveStep id session.expires l m → Known l → Known m
  unfolding get
  AliveStep-Known (creates now other csrf live early e) h =
      create-Known now other csrf live early e h
  AliveStep-Known (gets now other live early) h =
      found-Known now other live (lookup other live) early refl h
  AliveStep-Known (destroys other live e) h = destroy-Known other live e h

  -- A session that is not asked to end is found until it expires.
  pub AliveRun-Known :
      {live m : Sessions}
      → AliveRun id session.expires live m
      → lookup id live ≡ some session
      → lookup id m ≡ some session
  AliveRun-Known here h = h
  AliveRun-Known (next run step) h = AliveStep-Known step (AliveRun-Known run h)
