-- ===== src/Store/Keeps.antt =====
-- What holds of the store after a statement of internal/store, whether it succeeds or not, and that
-- statements succeed while the database is up.
use ai_email.Base.{
  ℕ, ◌≡◌, refl, ap, sym, ◌∙◌, clash, Bool, true, false, inl, inr, [], Option, none, some, Result,
  ok, err, err-ne-ok, ok-inj, ap₂, Bool-cases, Option-cases, if◌then◌else◌, Str,
}
use ai_email.Store.{
  Store, DbError, statement, Db, next_fails, later, answered, query, exec, attempt, and_then,
  continue,
}
use ai_email.Store.Queue.{
  mark_sent, mark_deferred, mark_failed, transition, record_event, set_status, set_deferred,
}

abbrev pub Up : Store → Type 0
Up s = s.outage ≡ []

-- A property that a round trip to the database does not change.
abbrev pub Steady : (Store → Type 0) → Type 0
Steady P = (s : Store) → P s → P (answered s)

pub Up-Steady : Steady Up
Up-Steady s h = ap later h

pub exec_moves :
    (P Q : Store → Type 0) (f : Store → Store) (s : Store)
    → Steady P
    → ((t : Store) → P t → Q t)
    → ((t : Store) → P t → Q (f t))
    → P s
    → Q (exec f s).1
unfolding exec
exec_moves P Q f s steady weaken step p = elim (Bool-cases (next_fails s.outage)) [
  | inl e ↦ rw e (weaken (answered s) (steady s p))
  | inr e ↦ rw e (step (answered s) (steady s p))
]

pub query_moves :
    {A : Type 0} (P : Store → Type 0) (f : Store → A × Store) (s : Store)
    → Steady P
    → ((t : Store) → P t → P (f t).1)
    → P s
    → P (query f s).1
unfolding query
query_moves P f s steady step p = elim (Bool-cases (next_fails s.outage)) [
  | inl e ↦ rw e (steady s p)
  | inr e ↦ rw e (step (answered s) (steady s p))
]

pub attempt_moves :
    {A : Type 0} (P : Store → Type 0) (f : Store → Option (A × Store)) (s : Store)
    → Steady P
    → ((t u : Store) (a : A) → P t → f t ≡ some (a, u) → P u)
    → P s
    → P (attempt f s).1
unfolding attempt
attempt_moves P f s steady step p = elim (Bool-cases (next_fails s.outage)) [
  | inl e ↦ rw e (steady s p)
  | inr e ↦ elim (Option-cases (f (answered s))) [
    | inl g ↦ rw (e, g) (steady s p)
    | inr ((a, u), g) ↦ rw (e, g) (step (answered s) u a (steady s p) g)
  ]
]

tried :
    {A : Type 0} (b : Bool) (o : Option (A × Store)) (s t : Store) (a : A)
    → ◌≡◌ {A = Result DbError A × Store}
        (if b
          then (err statement, answered s)
          else elim o [ none ↦ (err statement, answered s) | some (a, s') ↦ (ok a, s') ])
        (ok a, t)
    → o ≡ some (a, t)
tried true o s t a h = absurd (err-ne-ok (ap (λ p. p.0) h))
tried false none s t a h = absurd (err-ne-ok (ap (λ p. p.0) h))
tried false (some (b, u)) s t a h =
    ap₂ (λ x y. some (x, y)) (ok-inj (ap (λ p. p.0) h)) (ap (λ p. p.1) h)

pub attempt_made :
    {A : Type 0} (f : Store → Option (A × Store)) (s t : Store) (a : A)
    → attempt f s ≡ (ok a, t)
    → f (answered s) ≡ some (a, t)
unfolding attempt
attempt_made f s t a h = tried (next_fails s.outage) (f (answered s)) s t a h

pub continue_moves {ℓ} :
    {A : Type 0} {B : Type ℓ} (P : B → Type 0) (r : Result DbError A) (f : A → Store → B)
    (g : DbError → Store → B) (s : Store)
    → ((a : A) → P (f a s))
    → ((e : DbError) → P (g e s))
    → P (continue r f g s)
continue_moves P (ok a) f g s h k = h a
continue_moves P (err e) f g s h k = k e

pub and_then_moves :
    {A B : Type 0} (P Q : Store → Type 0) (m : Db A) (f : A → Db B) (s : Store)
    → P (m s).1
    → ((t : Store) → P t → Q t)
    → ((a : A) (t : Store) → P t → Q (f a t).1)
    → Q (and_then m f s).1
unfolding and_then
and_then_moves {A} {B} P Q m f s p weaken step =
    continue_moves (λ (b : Result DbError B × Store). Q b.1) (m s).0 f (λ e t. (err e, t)) (m s).1
      (λ a. step a (m s).1 p) (λ e. weaken (m s).1 p)

-- The `Mark` methods succeed while the database is up.
pub mark_sent-Up : (id : Str) (s : Store) → Up s → mark_sent id s ≡ (ok tt, (mark_sent id s).1)
unfolding mark_sent transition and_then exec record_event set_status
mark_sent-Up id s h = rw h refl

pub mark_failed-Up :
    (id reason : Str) (s : Store)
    → Up s
    → mark_failed id reason s ≡ (ok tt, (mark_failed id reason s).1)
unfolding mark_failed transition and_then exec record_event set_status
mark_failed-Up id reason s h = rw h refl

pub mark_deferred-Up :
    (id : Str) (at : ℕ) (reason : Str) (s : Store)
    → Up s
    → mark_deferred id at reason s ≡ (ok tt, (mark_deferred id at reason s).1)
unfolding mark_deferred and_then exec record_event set_deferred
mark_deferred-Up id at reason s h = rw h refl

-- How the statements and their sequences compute.
pub answered-Up : (s : Store) → Up s → answered s ≡ s
answered-Up s h = ap (λ o. record s { outage = o }) (ap later h ∙ sym h)

pub exec-Up : (f : Store → Store) (s : Store) → Up s → exec f s ≡ (ok tt, f s)
unfolding exec
exec-Up f s h =
    cond (next_fails s.outage) (ap next_fails h) ∙ ap (λ t. (ok tt, f t)) (answered-Up s h)
  where
    cond :
        (b : Bool)
        → b ≡ false
        → ◌≡◌ {A = Result DbError (Unit {0}) × Store}
            (if b then (err statement, answered s) else (ok tt, f (answered s)))
            (ok tt, f (answered s))
    cond true h = absurd (clash refl h)
    cond false h = refl

pub query-Up :
    {A : Type 0} (f : Store → A × Store) (s : Store) → Up s → query f s ≡ (ok (f s).0, (f s).1)
unfolding query
query-Up {A} f s h =
    cond (next_fails s.outage) (ap next_fails h) ∙ ap (λ t. (ok (f t).0, (f t).1)) (answered-Up s h)
  where
    cond :
        (b : Bool)
        → b ≡ false
        → ◌≡◌ {A = Result DbError A × Store}
            (if b then (err statement, answered s) else (ok (f (answered s)).0, (f (answered s)).1))
            (ok (f (answered s)).0, (f (answered s)).1)
    cond true h = absurd (clash refl h)
    cond false h = refl

pub and_then_goes :
    {A B : Type 0} (m : Db A) (f : A → Db B) (s : Store) {a : A} {t : Store}
    → m s ≡ (ok a, t)
    → and_then m f s ≡ f a t
unfolding and_then
and_then_goes {A} {B} m f s h =
    ap (λ (p : Result DbError A × Store). continue p.0 f (λ e t. (err e, t)) p.1) h

pub and_then_stops :
    {A B : Type 0} (m : Db A) (f : A → Db B) (s : Store) {e : DbError} {t : Store}
    → m s ≡ (err e, t)
    → and_then m f s ≡ (err e, t)
unfolding and_then
and_then_stops {A} {B} m f s h =
    ap (λ (p : Result DbError A × Store). continue p.0 f (λ e t. (err e, t)) p.1) h

pub attempt-Up :
    {A : Type 0} (f : Store → Option (A × Store)) (s t : Store) (a : A)
    → Up s
    → f s ≡ some (a, t)
    → attempt f s ≡ (ok a, t)
unfolding attempt
attempt-Up f s t a h e =
    let same : f (answered s) ≡ some (a, t) = ap f (answered-Up s h) ∙ e in
    let quiet : next_fails s.outage ≡ false = ap next_fails h in rw (quiet, same) refl
