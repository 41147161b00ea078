-- ===== src/Console/Password.antt =====
-- The stored form of the console's password in internal/console/auth.go, and the session that it opens.
use ai_email.Base.{
  ℕ, ◌+◌, ◌≤◌, ◌≡◌, refl, sym, ap, ap₂, ◌∙◌, Bool, true, false, Option, some, ◌∷◌, ◌++◌, Str,
  str_eq, str_eq_refl, Result, ok, err, err-ne-ok, ok-inj, ltb, if◌then◌else◌, length, lookup,
  taken, not_taken, Lacks, split-append, split-lacking, arith, subst,
}
use ai_email.Console.{
  Hashing, Problem, PasswordHash, Session, Sessions, Form, Request, Answer, State, scheme,
  short_password, hash_password, of_decoded, of_parts, parse_password_hash, verify, session_ttl,
  create, of_found, get, current_session, guarded, guard_post, started, login_with, login,
}
use ai_email.Console.Alive.{AliveRun, AliveRun-Known}

-- What is used of base64: it decodes what it encoded, which has no dollar sign.
pub record Decodes (g : Hashing) : Type 0 where
  pub decoded : (s : Str) → g.decode64 (g.encode64 s) ≡ some s
  pub undollared : (s : Str) → Lacks b'$' (g.encode64 s)

made_encoded :
    (b : Bool) (s encoded : Str)
    → ◌≡◌ {A = Result Problem Str} (if b then err short_password else ok s) (ok encoded)
    → s ≡ encoded
made_encoded true s encoded h = absurd (err-ne-ok h)
made_encoded false s encoded h = ok-inj h

parsed :
    (g : Hashing) (salt hash : Str)
    → Decodes g
    → parse_password_hash g (scheme ++ (b'$' ∷ (g.encode64 salt ++ (b'$' ∷ g.encode64 hash))))
      ≡ ok (record { salt = salt; hash = hash })
unfolding parse_password_hash of_parts of_decoded
parsed g salt hash d =
    ap (of_parts g) (
      split-append b'$' scheme _ refl refl
      ∙ ap (λ t. scheme ∷ t)
          (split-append b'$' (g.encode64 salt) _ (d.undollared salt) refl
            ∙ ap (λ t. g.encode64 salt ∷ t)
                (split-lacking b'$' (g.encode64 hash) (d.undollared hash))))
    ∙ taken (str_eq scheme scheme) _ _ (str_eq_refl scheme)
    ∙ ap₂ of_decoded (d.decoded salt) (d.decoded hash)

-- With a base64 that decodes what it encoded and writes no dollar sign: what `HashPassword` returns is
-- parsed to a hash that accepts the password.
pub hashed_password_accepted :
    (g : Hashing) (salt password encoded : Str)
    → Decodes g
    → hash_password g salt password ≡ ok encoded
    → (p : PasswordHash) × (parse_password_hash g encoded ≡ ok p) × (verify g p password ≡ true)
unfolding hash_password verify
hashed_password_accepted g salt password encoded d h =
    let same = made_encoded (ltb (length password) 12) _ encoded h in
    (
      record { salt = salt; hash = g.id_key password salt },
      subst
          (λ e.
            parse_password_hash g e ≡ ok (record { salt = salt; hash = g.id_key password salt }))
          same (parsed g salt (g.id_key password salt) d),
      str_eq_refl (g.id_key password salt),
    )

login_live :
    (g : Hashing) (p : PasswordHash) (id csrf : Str) (form : Form) (r : Request) (s : State)
    → r.form ≡ some form
    → verify g p form.password ≡ true
    → (login g p (some (id, csrf)) r s).1.live ≡ create s.store.now id csrf s.live
unfolding login login_with started
login_live g p id csrf form r s f right =
    ap (λ x. (login_with g p (some (id, csrf)) x s).1.live) f
    ∙ ap (λ (q : Answer × State). q.1.live)
        (taken (verify g p form.password) (started (some (id, csrf)) s) _ right)

lookup-create :
    (now : ℕ) (id csrf : Str) (live : Sessions)
    → lookup id (create now id csrf live)
      ≡ some (record { csrf = csrf; expires = now + session_ttl })
unfolding lookup create
lookup-create now id csrf live = taken (str_eq id id) _ _ (str_eq_refl id)

current_new :
    (now : ℕ) (id : Str) (live : Sessions) (session : Session)
    → lookup id live ≡ some session
    → now ≤ session.expires
    → current_session now (some id) live ≡ (some session, live)
unfolding current_session get of_found
current_new now id live session h early =
    ap (of_found now id live) h ∙ not_taken (ltb session.expires now) _ _ (ground (arith, early))

admitted :
    (handler : Form → Request → State → Answer × State) (r : Request) (form : Form)
    (session : Session) (s : State)
    → session.csrf ≡ form.csrf
    → guarded handler r (some form) (some session) s ≡ handler form r s
unfolding guarded
admitted handler r form session s h =
    taken (str_eq session.csrf form.csrf) _ _
      (ap (str_eq session.csrf) (sym h) ∙ str_eq_refl session.csrf)

-- A login with the right password starts a session; until two hours later, a request with its cookie
-- and its token runs the handler, whatever the sessions of others do in between: logins that get other
-- ids, requests with any cookie, and logouts of other ids.
pub login_opens :
    (g : Hashing) (p : PasswordHash) (id csrf : Str)
    (handler : Form → Request → State → Answer × State) (form later_form : Form) (r later : Request)
    (s t : State)
    → r.form ≡ some form
    → verify g p form.password ≡ true
    → AliveRun id (s.store.now + session_ttl) (login g p (some (id, csrf)) r s).1.live t.live
    → t.store.now ≤ s.store.now + session_ttl
    → later.cookie ≡ some id
    → later.form ≡ some later_form
    → later_form.csrf ≡ csrf
    → guard_post handler later t ≡ handler later_form later t
unfolding guard_post
login_opens g p id csrf handler form later_form r later s t f right run early sent submitted token =
    let session : Session = record { csrf = csrf; expires = s.store.now + session_ttl } in
    let current : current_session t.store.now later.cookie t.live ≡ (some session, t.live) =
      ap (λ c. current_session t.store.now c t.live) sent
      ∙ current_new t.store.now id t.live session
          (AliveRun-Known id session run (
            ap (lookup id) (login_live g p id csrf form r s f right)
            ∙ lookup-create s.store.now id csrf s.live))
          early in
    ap
      (λ (c : Option Session × Sessions).
        guarded handler later later.form c.0 (record t { live = c.1 }))
      current
    ∙ ap (λ x. guarded handler later x (some session) t) submitted
    ∙ admitted handler later later_form session t (sym token)
