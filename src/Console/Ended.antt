-- ===== src/Console/Ended.antt =====
-- The sessions of internal/console/auth.go that have ended.
use ai_email.Base.{
  ℕ, ◌≡◌, inl, inr, refl, sym, ap, ◌∙◌, Bool, true, false, not, Option, none, some, [], ◌∷◌, Str,
  str_eq, Bool-cases, none-ne-some, ltb, filter, lookup,
}
use ai_email.Console.{
  Session, Sessions, Form, Request, Answer, State, is_other, is_live, of_found, get, destroy, prune,
  create, current_session, guarded, guard_post, to_login, without, logout,
}

-- What happens to the sessions; a new one has an id other than `id`.
pub data SessionStep (id : Str) : Sessions → Sessions → Type 0 where
  creates :
      (now : ℕ) (other csrf : Str) (live : Sessions)
      → str_eq other id ≡ false
      → SessionStep id live (create now other csrf live)
  gets : (now : ℕ) (other : Str) (live : Sessions) → SessionStep id live (get now other live).1
  destroys : (other : Str) (live : Sessions) → SessionStep id live (destroy other live)

pub data SessionRun (id : Str) (live : Sessions) : Sessions → Type 0 where
  here : SessionRun id live live
  next : {l m : Sessions} → SessionRun id live l → SessionStep id l m → SessionRun id live m

module _ (id : Str) where
  abbrev Unknown : Sessions → Type 0
  Unknown live = lookup id live ≡ none

  filtered :
      (b : Bool) (j : Str) (v : Session) (rest : Sessions)
      → str_eq j id ≡ false
      → Unknown rest
      → Unknown (elim b [ true ↦ (j, v) ∷ rest | false ↦ rest ])
  unfolding lookup
  filtered true j v rest e h = rw e h
  filtered false j v rest e h = h

  Unknown-filter :
      (p : Str × Session → Bool) (live : Sessions) → Unknown live → Unknown (filter p live)
  unfolding lookup
  Unknown-filter p [] h = refl
  Unknown-filter p ((j, v) ∷ live) h = elim (Bool-cases (str_eq j id)) [
    | inl e ↦ absurd (none-ne-some (sym (rw e at h)))
    | inr e ↦ filtered (p (j, v)) j v (filter p live) e (Unknown-filter p live (rw e at h))
  ]

  dropped :
      (b : Bool) (j : Str) (v : Session) (rest : Sessions)
      → str_eq j id ≡ b
      → Unknown rest
      → Unknown (elim (not b) [ true ↦ (j, v) ∷ rest | false ↦ rest ])
  dropped true j v rest e h = h
  dropped false j v rest e h = filtered true j v rest e h

  destroy-Unknown : (live : Sessions) → Unknown (destroy id live)
  unfolding lookup destroy
  destroy-Unknown [] = refl
  destroy-Unknown ((j, v) ∷ live) =
      dropped (str_eq j id) j v (filter (is_other id) live) refl (destroy-Unknown live)

  found-Unknown :
      (now : ℕ) (other : Str) (live : Sessions) (o : Option Session)
      → Unknown live
      → Unknown (of_found now other live o).1
  unfolding of_found destroy
  found-Unknown now other live none h = Unknown-filter (is_other other) live h
  found-Unknown now other live (some x) h = elim (Bool-cases (ltb x.expires now)) [
    | inl e ↦ rw e (Unknown-filter (is_other other) live h)
    | inr e ↦ rw e h
  ]

  SessionStep-Unknown : {l m : Sessions} → SessionStep id l m → Unknown l → Unknown m
  unfolding create get destroy prune lookup
  SessionStep-Unknown (creates now other csrf live e) h =
      rw (e, lookup) (Unknown-filter (is_other other) _ (Unknown-filter (is_live now) live h))
  SessionStep-Unknown (gets now other live) h = found-Unknown now other live (lookup other live) h
  SessionStep-Unknown (destroys other live) h = Unknown-filter (is_other other) live h

  SessionRun-Unknown : {live m : Sessions} → SessionRun id live m → Unknown live → Unknown m
  SessionRun-Unknown here h = h
  SessionRun-Unknown (next run step) h = SessionStep-Unknown step (SessionRun-Unknown run h)

not_current :
    (now : ℕ) (id : Str) (live : Sessions)
    → lookup id live ≡ none
    → (current_session now (some id) live).0 ≡ none
unfolding current_session get of_found
not_current now id live h = ap (λ o. (of_found now id live o).0) h

turned_away :
    (handler : Form → Request → State → Answer × State) (r : Request) (f : Option Form)
    (o : Option Session) (s : State)
    → o ≡ none
    → guarded handler r f o s ≡ (to_login, s)
unfolding guarded
turned_away handler r f o s h = ap (λ x. guarded handler r f x s) h

-- After a logout with the cookie of a session, every later request with that cookie is sent to the
-- login page and its handler does not run, whatever happens to the sessions in between, if no new
-- session gets that id.
pub logout_lasts :
    (handler : Form → Request → State → Answer × State) (id : Str) (form : Form) (r later : Request)
    (s t : State)
    → r.cookie ≡ some id
    → SessionRun id (logout form r s).1.live t.live
    → later.cookie ≡ some id
    → ((guard_post handler later t).0 ≡ to_login) × ((guard_post handler later t).1.store ≡ t.store)
unfolding logout without guard_post
logout_lasts handler id form r later s t sent run again =
    let ended : lookup id (logout form r s).1.live ≡ none =
      ap (λ c. lookup id (without c s.live)) sent ∙ destroy-Unknown id s.live in
    let unknown = SessionRun-Unknown id run ended in
    let now = t.store.now in
    let gone =
      ap (λ c. (current_session now c t.live).0) again ∙ not_current now id t.live unknown in
    let away =
      turned_away handler later later.form _
        (record t { live = (current_session now later.cookie t.live).1 }) gone in
    (ap (λ p. p.0) away, ap (λ p. p.1.store) away)
