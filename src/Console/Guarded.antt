-- ===== src/Console/Guarded.antt =====
-- The guard of the console's state changes, `guardPost` of internal/console/console.go.
use ai_email.Base.{
  ℕ, ◌≤◌, ◌≡◌, ◌⊎◌, inl, inr, refl, ap, ◌∙◌, Option, none, some, Str, str_eq, str_eq_sound,
  Bool-cases, none-ne-some, some-inj, ltb, lookup, arith,
}
use ai_email.Console.{
  Session, Sessions, Form, Request, Answer, State, of_found, get, current_session, guarded,
  guard_post,
}

-- A session that the cookie of a request stands for at a time.
pub record IsCurrent (now : ℕ) (cookie : Option Str) (live : Sessions) (session : Session)
    : Type 0 where
  pub id : Str
  pub sent : cookie ≡ some id
  pub known : lookup id live ≡ some session
  pub unexpired : now ≤ session.expires

found_current :
    (now : ℕ) (id : Str) (live : Sessions) (o : Option Session) (session : Session)
    → (of_found now id live o).0 ≡ some session
    → (o ≡ some session) × (now ≤ session.expires) × ((of_found now id live o).1 ≡ live)
unfolding of_found
found_current now id live none session h = absurd (none-ne-some h)
found_current now id live (some x) session h = elim (Bool-cases (ltb x.expires now)) [
  | inl e ↦ absurd (none-ne-some (rw e at h))
  | inr e ↦
      let same : x ≡ session = some-inj (rw e at h) in
      (ap some same, ground (arith, e, ap (λ (y : Session). y.expires) same), rw e refl)
]

session_made :
    (now : ℕ) (cookie : Option Str) (live : Sessions) (session : Session)
    → (current_session now cookie live).0 ≡ some session
    → IsCurrent now cookie live session × ((current_session now cookie live).1 ≡ live)
unfolding current_session get
session_made now none live session h = absurd (none-ne-some h)
session_made now (some id) live session h =
    let (known, unexpired, same) = found_current now id live (lookup id live) session h in
    (record { id = id; sent = refl; known = known; unexpired = unexpired }, same)

guarded_either :
    (handler : Form → Request → State → Answer × State) (r : Request) (f : Option Form)
    (o : Option Session) (s : State)
    → ((guarded handler r f o s).1.store ≡ s.store)
      ⊎ ((form : Form) × (session : Session) × (f ≡ some form)
          × (o ≡ some session)
          × (session.csrf ≡ form.csrf)
          × (guarded handler r f o s ≡ handler form r s))
unfolding guarded
guarded_either handler r f none s = inl refl
guarded_either handler r none (some session) s = inl refl
guarded_either handler r (some form) (some session) s =
    elim (Bool-cases (str_eq session.csrf form.csrf)) [
      | inl e ↦ inr (form, session, refl, refl, str_eq_sound session.csrf form.csrf e, rw e refl)
      | inr e ↦ inl (rw e refl)
    ]

-- A request whose form carries the token of the live session of its cookie.
pub record IsAllowed (form : Form) (r : Request) (s : State) : Type 0 where
  pub session : Session
  pub current : IsCurrent s.store.now r.cookie s.live session
  pub submitted : r.form ≡ some form
  pub same_csrf : session.csrf ≡ form.csrf

-- Behind the guard either the store is as it was, or the request has the cookie of a session that is
-- live and not past its time, its form has the token of that session, and what happened is what the
-- handler does.
pub guard_post_sound :
    (handler : Form → Request → State → Answer × State) (r : Request) (s : State)
    → ((guard_post handler r s).1.store ≡ s.store)
      ⊎ ((form : Form) × IsAllowed form r s × (guard_post handler r s ≡ handler form r s))
unfolding guard_post
guard_post_sound handler r s =
    let now = s.store.now in
    let live = (current_session now r.cookie s.live).1 in
    elim (guarded_either handler r r.form (current_session now r.cookie s.live).0
      (record s { live = live })) [
        | inl same ↦ inl same
        | inr (form, session, submitted, found, same_csrf, run) ↦
            let (current, same) = session_made now r.cookie s.live session found in
            inr (
              form,
              record {
                session = session;
                current = current;
                submitted = submitted;
                same_csrf = same_csrf;
              },
              run ∙ ap (λ l. handler form r (record s { live = l })) same,
            )
      ]
