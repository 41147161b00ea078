-- ===== src/Store/Reads.antt =====
-- Steps on the store that change no table: they use up outages at most.
use ai_email.Base.{
  ◌≡◌, refl, sym, ap, ◌∙◌, Bool, Option, none, some, List, [], ◌∷◌, Str, Result, ok, err, Unicode,
  err-ne-ok,
}
use ai_email.Store.{Store, DbError, Db, query, and_then, continue}
use ai_email.Store.Domains.{found_or}
use ai_email.Store.Messages.{transaction}
use ai_email.Store.Suppressions.{Digest, filter_suppressed}
use ai_email.Store.Steps.{Step, proceed, ◌>>=◌, lift, query_either}

-- The second store has the tables and the time of the first.
abbrev pub Reads : Store → Store → Type 0
Reads s t = (o : List Bool) × (t ≡ record s { outage = o })

abbrev pub ReadsOnly : {E A : Type 0} → Step E A → Type 0
ReadsOnly m = (s : Store) → Reads s (m s).1

pub Reads-trans : (s : Store) {t u : Store} → Reads s t → Reads t u → Reads s u
Reads-trans s (o, e) (o', e') = (o', e' ∙ ap (λ (x : Store). record x { outage = o' }) e)

pub lift-ReadsOnly : {E A : Type 0} (r : Result E A) → ReadsOnly (lift r)
lift-ReadsOnly r s = (s.outage, refl)

proceed-ReadsOnly :
    {E A B : Type 0} (r : Result E A) (f : A → Step E B) (s : Store)
    → ((a : A) → ReadsOnly (f a))
    → Reads s (proceed r f s).1
proceed-ReadsOnly (err e) f s h = (s.outage, refl)
proceed-ReadsOnly (ok a) f s h = h a s

pub >>=-ReadsOnly :
    {E A B : Type 0} (m : Step E A) (f : A → Step E B)
    → ReadsOnly m
    → ((a : A) → ReadsOnly (f a))
    → ReadsOnly (m >>= f)
>>=-ReadsOnly m f h k s = Reads-trans s (h s) (proceed-ReadsOnly (m s).0 f (m s).1 k)

-- A chain that begins with a check.
pub check-ReadsOnly :
    {E A B : Type 0} (r : Result E A) (f : A → Step E B)
    → ((a : A) → ReadsOnly (f a))
    → ReadsOnly (lift r >>= f)
check-ReadsOnly r f h s = proceed-ReadsOnly r f s h

pub query-ReadsOnly : {A : Type 0} (g : Store → A) → ReadsOnly (query (λ t. (g t, t)))
query-ReadsOnly {A} g s =
    query_either (λ (x : Result DbError A × Store). Reads s x.1) (λ t. (g t, t)) s (_, refl)
      (_, refl)

continue-ReadsOnly :
    {A B : Type 0} (r : Result DbError A) (f : A → Db B) (s : Store)
    → ((a : A) → ReadsOnly (f a))
    → Reads s (continue r f (λ e t. (err e, t)) s).1
continue-ReadsOnly (err e) f s h = (s.outage, refl)
continue-ReadsOnly (ok a) f s h = h a s

pub and_then-ReadsOnly :
    {A B : Type 0} (m : Db A) (f : A → Db B)
    → ReadsOnly m
    → ((a : A) → ReadsOnly (f a))
    → ReadsOnly (and_then m f)
unfolding and_then
and_then-ReadsOnly m f h k s = Reads-trans s (h s) (continue-ReadsOnly (m s).0 f (m s).1 k)

pub found_or-ReadsOnly : {A : Type 0} (o : Option A) → ReadsOnly (found_or o)
unfolding found_or
found_or-ReadsOnly none s = (s.outage, refl)
found_or-ReadsOnly (some a) s = (s.outage, refl)

pub filter_suppressed-ReadsOnly :
    (u : Unicode) (sha256 : Digest) (addresses : List Str)
    → ReadsOnly (filter_suppressed u sha256 addresses)
unfolding filter_suppressed
filter_suppressed-ReadsOnly u sha256 [] s = (s.outage, refl)
filter_suppressed-ReadsOnly u sha256 (a ∷ addresses) s =
    and_then-ReadsOnly _ _ (query-ReadsOnly _) (λ found t. (t.outage, refl)) s

abbrev settled : {A : Type 0} → Store → Result DbError A → Store → Result DbError A × Store
settled s r t = continue r (λ a t. (ok a, t)) (λ e t. (err e, record s { outage = t.outage })) t

settled-Reads :
    {A : Type 0} (r : Result DbError A) (s t : Store) {e : DbError}
    → (settled s r t).0 ≡ err e
    → Reads s (settled s r t).1
settled-Reads (err e) s t h = (t.outage, refl)
settled-Reads (ok a) s t h = absurd (err-ne-ok (sym h))

-- A transaction that fails has changed nothing.
pub transaction-Reads :
    {A : Type 0} (m : Db A) (s : Store) {e : DbError}
    → (transaction m s).0 ≡ err e
    → Reads s (transaction m s).1
unfolding transaction
transaction-Reads m s h = settled-Reads _ s _ h
