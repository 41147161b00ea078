-- ===== src/Store/Steps.antt =====
-- Chains of steps on the store that may end early, with an error of the caller's: the handlers of
-- internal/httpapi and the commands of cmd/aiemail are such chains.
use ai_email.Base.{
  ◌≡◌, refl, sym, ap, ◌⊎◌, inl, inr, Option, none, some, Result, ok, err, Bool-cases, arith, ok-inj,
  err-ne-ok, err-inj,
}
use ai_email.Store.{Store, DbError, statement, Db, answered, next_fails, query, and_then, continue}
use ai_email.Store.Domains.{found_or}

-- Steps on the store that may end early.
abbrev pub Step : Type 0 → Type 0 → Type 0
Step E A = Store → Result E A × Store

abbrev pub proceed : {E A B : Type 0} → Result E A → (A → Step E B) → Step E B
proceed (err e) f s = (err e, s)
proceed (ok a) f s = f a s

infixl 5 ◌>>=◌ ◌>>◌
abbrev pub ◌>>=◌ : {E A B : Type 0} → Step E A → (A → Step E B) → Step E B
◌>>=◌ m f s = let (r, t) = m s in proceed r f t

abbrev pub ◌>>◌ : {E A B : Type 0} → Step E A → Step E B → Step E B
m >> k = m >>= λ _. k

abbrev pub lift : {E A : Type 0} → Result E A → Step E A
lift r s = (r, s)

abbrev pub translated : {E A : Type 0} → (DbError → E) → Result DbError A → Result E A
translated f (ok a) = ok a
translated f (err e) = err (f e)

-- A call of the store whose error ends the step.
abbrev pub calls : {E A : Type 0} → (DbError → E) → Db A → Step E A
calls f m s = let (r, t) = m s in (translated f r, t)

proceed_made :
    {E A B : Type 0} (r : Result E A) (f : A → Step E B) (u : Store) {b : B}
    → (proceed r f u).0 ≡ ok b
    → (a : A) × (r ≡ ok a) × ((f a u).0 ≡ ok b) × ((proceed r f u).1 ≡ (f a u).1)
proceed_made (err e) f u h = absurd (err-ne-ok h)
proceed_made (ok a) f u h = (a, refl, h, refl)

-- A chain that ends well has made its first step.
pub >>=-made :
    {E A B : Type 0} (m : Step E A) (f : A → Step E B) (s : Store) {b : B}
    → ((m >>= f) s).0 ≡ ok b
    → (a : A) × ((m s).0 ≡ ok a) × ((f a (m s).1).0 ≡ ok b) × (((m >>= f) s).1 ≡ (f a (m s).1).1)
>>=-made m f s h = proceed_made (m s).0 f (m s).1 h

proceed_failed :
    {E A B : Type 0} (r : Result E A) (f : A → Step E B) (u : Store) {e : E}
    → (proceed r f u).0 ≡ err e
    → (r ≡ err e) ⊎ ((a : A) × (r ≡ ok a) × ((f a u).0 ≡ err e))
proceed_failed (err e) f u h = inl (ap err (err-inj h))
proceed_failed (ok a) f u h = inr (a, refl, h)

-- A chain that fails has failed in its first step or behind it.
pub >>=-failed :
    {E A B : Type 0} (m : Step E A) (f : A → Step E B) (s : Store) {e : E}
    → ((m >>= f) s).0 ≡ err e
    → ((m s).0 ≡ err e) ⊎ ((a : A) × ((m s).0 ≡ ok a) × ((f a (m s).1).0 ≡ err e))
>>=-failed m f s h = proceed_failed (m s).0 f (m s).1 h

translated_made :
    {E A : Type 0} (f : DbError → E) (r : Result DbError A) {a : A}
    → translated f r ≡ ok a
    → r ≡ ok a
translated_made f (err e) h = absurd (ground arith)
translated_made f (ok a) h = ap ok (ok-inj h)

translated_failed :
    {E A : Type 0} (e : E) (r : Result DbError A) {e' : E} → translated (λ _. e) r ≡ err e' → e' ≡ e
translated_failed e (err _) h = ground arith
translated_failed e (ok a) h = absurd (err-ne-ok (sym h))

-- A call whose errors all become one fails with that.
pub calls_failed :
    {E A : Type 0} (e : E) (m : Db A) (s : Store) {e' : E}
    → (calls (λ _. e) m s).0 ≡ err e'
    → e' ≡ e
calls_failed e m s h = translated_failed e (m s).0 h

pub calls_made :
    {E A : Type 0} (f : DbError → E) (m : Db A) (s : Store) {a : A}
    → (calls f m s).0 ≡ ok a
    → (m s).0 ≡ ok a
calls_made f m s h = translated_made f (m s).0 h

pub query_either :
    {A : Type 0} (P : Result DbError A × Store → Type 0) (f : Store → A × Store) (s : Store)
    → P (err statement, answered s)
    → P (ok (f (answered s)).0, (f (answered s)).1)
    → P (query f s)
unfolding query
query_either P f s p q = elim (Bool-cases (next_fails s.outage)) [ inl e ↦ rw e p | inr e ↦ rw e q ]

found_or_made :
    {A : Type 0} (o : Option A) (s : Store) {a : A}
    → (found_or o s).0 ≡ ok a
    → (o ≡ some a) × ((found_or o s).1 ≡ s)
unfolding found_or
found_or_made none s h = absurd (ground arith)
found_or_made (some a) s h = (ap some (ok-inj h), refl)

-- A lookup that finds something has read it.
pub found_made :
    {A : Type 0} (g : Store → Option A) (s : Store) {a : A}
    → (and_then (query (λ t. (g t, t))) found_or s).0 ≡ ok a
    → (g (answered s) ≡ some a) × ((and_then (query (λ t. (g t, t))) found_or s).1 ≡ answered s)
unfolding and_then
found_made {A} g s {a} =
    query_either
      (λ (x : Result DbError (Option A) × Store).
        (continue x.0 found_or (λ e t. (err e, t)) x.1).0 ≡ ok a
        → (g (answered s) ≡ some a)
          × ((continue x.0 found_or (λ e t. (err e, t)) x.1).1 ≡ answered s))
      (λ t. (g t, t)) s (λ h. absurd (err-ne-ok h))
      (λ h. found_or_made (g (answered s)) (answered s) h)

pub query_made :
    {A : Type 0} (f : Store → A × Store) (s : Store) {a : A}
    → (query f s).0 ≡ ok a
    → (a ≡ (f (answered s)).0) × ((query f s).1 ≡ (f (answered s)).1)
query_made {A} f s {a} =
    query_either
      (λ (x : Result DbError A × Store).
        x.0 ≡ ok a → (a ≡ (f (answered s)).0) × (x.1 ≡ (f (answered s)).1))
      f s (λ h. absurd (err-ne-ok h)) (λ h. (sym (ok-inj h), refl))

-- A chain goes on where its first step ends well.
pub >>=-goes :
    {E A B : Type 0} (m : Step E A) (f : A → Step E B) (s : Store) {a : A} {t : Store}
    → m s ≡ (ok a, t)
    → (m >>= f) s ≡ f a t
>>=-goes {E} {A} {B} m f s h = ap (λ (p : Result E A × Store). proceed p.0 f p.1) h
