-- ===== src/Store/Queue/Claim.antt =====
-- What `ClaimMessages` of internal/store/queue.go takes and what it leaves.
use ai_email.Base.{
  ℕ, ◌+◌, ◌≤◌, ◌<◌, ◌≡◌, refl, ap, sym, ◌∙◌, ◌⊎◌, inl, inr, Bool, true, false, ◌&&◌, ◌||◌, Option,
  none, some, List, [], ◌∷◌, filter, mem-filter, mem-take, All-Member, length-take_le, Str, str_eq,
  str_eq_sound, str_eq_iff, str_eq_sym, filter-eq, length-map, mem-map, ltb, any_sound, length,
  if◌then◌else◌, arith, All, Member, Bool-cases, subst, clash,
}
use ai_email.Store.{MessageStatus, MessageRow, Store, insert_by, sort_by, update_where}
use ai_email.Store.Queue.{
  is_waiting, due, unlocked, claimable, by_creation, chosen, has_id, among, lock_row, claim_rows,
}

-- The primary key: no two rows have one id.
abbrev pub Unique : List MessageRow → Type 0
Unique [] = Unit
Unique (r ∷ rows) = All (λ q. str_eq q.id r.id ≡ false) rows × Unique rows

pub Unique-eq :
    (p r : MessageRow) (rows : List MessageRow)
    → Unique rows
    → Member p rows
    → Member r rows
    → str_eq p.id r.id ≡ true
    → p ≡ r
Unique-eq p r [] u mp mr h = absurd mp
Unique-eq p r (x ∷ rows) (a, u) (inl ep) (inl er) h = ep ∙ sym er
Unique-eq p r (x ∷ rows) (a, u) (inl ep) (inr mr) h =
    let same : r.id ≡ x.id = sym (str_eq_sound p.id r.id h) ∙ ap (λ (q : MessageRow). q.id) ep in
    absurd (clash ((str_eq_iff r.id x.id).1 same) (All-Member _ r rows a mr))
Unique-eq p r (x ∷ rows) (a, u) (inr mp) (inl er) h =
    let same : p.id ≡ x.id = str_eq_sound p.id r.id h ∙ ap (λ (q : MessageRow). q.id) er in
    absurd (clash ((str_eq_iff p.id x.id).1 same) (All-Member _ p rows a mp))
Unique-eq p r (x ∷ rows) (a, u) (inr mp) (inr mr) h = Unique-eq p r rows u mp mr h

mem-insert_by :
    {A : Type 0} (key : A → ℕ) (a r : A) (rows : List A)
    → Member a (insert_by key r rows)
    → (a ≡ r) ⊎ Member a rows
unfolding insert_by
mem-insert_by key a r [] m = m
mem-insert_by key a r (q ∷ rows) m = elim (Bool-cases (ltb (key q) (key r))) [
  | inl e ↦
      let here : (a ≡ q) ⊎ Member a (insert_by key r rows) = rw (e, insert_by, Member) at m in
      elim here [
        | inl h ↦ inr (inl h)
        | inr n ↦ elim (mem-insert_by key a r rows n) [ inl h ↦ inl h | inr k ↦ inr (inr k) ]
      ]
  | inr e ↦ rw (e, insert_by, Member) at m
]

pub mem-sort_by :
    {A : Type 0} (key : A → ℕ) (a : A) (rows : List A) → Member a (sort_by key rows) → Member a rows
unfolding sort_by
mem-sort_by key a [] m = m
mem-sort_by key a (r ∷ rows) m = elim (mem-insert_by key a r (sort_by key rows) m) [
  | inl h ↦ inl h
  | inr n ↦ inr (mem-sort_by key a rows n)
]

mem-chosen :
    (now limit : ℕ) (a : MessageRow) (rows : List MessageRow)
    → Member a (chosen now limit rows)
    → Member a rows × (claimable now a ≡ true)
unfolding chosen by_creation
mem-chosen now limit a rows m = mem-filter (claimable now) a rows (
    mem-sort_by (λ (r : MessageRow). r.created_at) a (filter (claimable now) rows)
      (mem-take limit a _ m))

-- A row that the UPDATE touches was claimable.
pub among-chosen :
    (now limit : ℕ) (r : MessageRow) (rows : List MessageRow)
    → Unique rows
    → Member r rows
    → among (chosen now limit rows) r ≡ true
    → claimable now r ≡ true
unfolding among has_id
among-chosen now limit r rows u m h =
    let (p, in_chosen, same) = any_sound (has_id r.id) (chosen now limit rows) h in
    let (in_rows, c) = mem-chosen now limit p rows in_chosen in
    subst (λ q. claimable now q ≡ true) (Unique-eq p r rows u in_rows m same) c

-- How many rows have an id.
length-filter_or :
    {A : Type 0} (p q : A → Bool) (xs : List A)
    → length (filter (λ x. p x || q x) xs) ≤ length (filter p xs) + length (filter q xs)
length-filter_or p q [] = omega arith
length-filter_or p q (x ∷ xs) = ground (arith, length-filter_or p q xs)

no_other :
    (i : Str) (rows : List MessageRow)
    → All (λ q. str_eq q.id i ≡ false) rows
    → length (filter (has_id i) rows) ≡ 0
unfolding has_id
no_other i [] h = refl
no_other i (r ∷ rows) (h, hs) = ground (arith, no_other i rows hs)

only :
    (i : Str) (r : MessageRow) (rows : List MessageRow)
    → has_id i r ≡ true
    → All (λ q. str_eq q.id r.id ≡ false) rows
    → All (λ q. str_eq q.id i ≡ false) rows
unfolding has_id
only i r rows e a = subst (λ j. All (λ q. str_eq q.id j ≡ false) rows) (str_eq_sound r.id i e) a

one_row : (i : Str) (rows : List MessageRow) → Unique rows → length (filter (has_id i) rows) ≤ 1
one_row i [] u = omega arith
one_row i (r ∷ rows) (a, u) = elim (Bool-cases (has_id i r)) [
  | inl e ↦ rw (e, length) (omega (arith, no_other i rows (only i r rows e a)))
  | inr e ↦ rw (e, length) (one_row i rows u)
]

filter-false : (rows : List MessageRow) → filter (λ _. false) rows ≡ []
filter-false [] = refl
filter-false (r ∷ rows) = filter-false rows

has_id_sym : (p r : MessageRow) → has_id r.id p ≡ has_id p.id r
unfolding has_id
has_id_sym p r = str_eq_sym p.id r.id

chosen_le : (now limit : ℕ) (rows : List MessageRow) → length (chosen now limit rows) ≤ limit
unfolding chosen
chosen_le now limit rows = length-take_le limit (by_creation (filter (claimable now) rows))

pub filter-among :
    (picked rows : List MessageRow)
    → Unique rows
    → length (filter (among picked) rows) ≤ length picked
unfolding among
filter-among [] rows u = rw (filter-false rows) (omega arith)
filter-among (p ∷ picked) rows u =
    let split_or =
      filter-eq (among (p ∷ picked)) (λ r. has_id p.id r || among picked r) rows
        (λ r. ap (λ b. b || among picked r) (has_id_sym p r)) in
    rw split_or (
      omega (
        arith,
        length-filter_or (has_id p.id) (among picked) rows,
        one_row p.id rows u,
        filter-among picked rows u,
      ))

-- The rows that a claim returns, by the tests and the update of the statement.
pub claim_rows_made :
    (limit lock_for : ℕ) (s : Store)
    → Unique s.messages
    → (length (claim_rows limit lock_for s).0 ≤ limit)
      × ((c : MessageRow)
          → Member c (claim_rows limit lock_for s).0
          → (r : MessageRow) × Member r s.messages
            × (claimable s.now r ≡ true)
            × (c ≡ lock_row s.now lock_for r))
unfolding claim_rows
claim_rows_made limit lock_for s u = (
  let few = filter-among (chosen s.now limit s.messages) s.messages u in
      rw
        (length-map (filter (among (chosen s.now limit s.messages)) s.messages)
          (lock_row s.now lock_for))
        (omega (arith, few, chosen_le s.now limit s.messages)),
  λ c m.
      let (r, mr, e) = mem-map (lock_row s.now lock_for) c _ m in
      let (in_rows, taken) = mem-filter _ r s.messages mr in
      (r, in_rows, among-chosen s.now limit r s.messages u in_rows taken, e),
)

-- What a claim asks of a row, and what it makes of it.
abbrev pub IsWaiting : MessageStatus → Type 0
IsWaiting status = (status ≡ MessageStatus.queued) ⊎ (status ≡ MessageStatus.deferred)

abbrev pub IsDue : ℕ → Option ℕ → Type 0
IsDue now none = Unit
IsDue now (some at) = at ≤ now

abbrev pub IsUnlocked : ℕ → Option ℕ → Type 0
IsUnlocked now none = Unit
IsUnlocked now (some until) = until < now

pub record IsClaimOf (now lock_for : ℕ) (c r : MessageRow) : Type 0 where
  pub waited : IsWaiting r.status
  pub scheduled : IsDue now r.scheduled_at
  pub free : IsUnlocked now r.locked_until
  pub same_id : c.id ≡ r.id
  pub same_recipients :
      (c.recipients ≡ r.recipients) × (c.recipients_encrypted ≡ r.recipients_encrypted)
  pub sent_now : c.status ≡ MessageStatus.sending
  pub one_attempt : c.attempts ≡ r.attempts + 1
  pub locked : c.locked_until ≡ some (now + lock_for)

waiting_lem : (status : MessageStatus) → is_waiting status ≡ true → IsWaiting status
waiting_lem MessageStatus.queued h = inl refl
waiting_lem MessageStatus.deferred h = inr refl
waiting_lem MessageStatus.sending h = absurd (clash h refl)
waiting_lem MessageStatus.sent h = absurd (clash h refl)
waiting_lem MessageStatus.delivered h = absurd (clash h refl)
waiting_lem MessageStatus.bounced h = absurd (clash h refl)
waiting_lem MessageStatus.failed h = absurd (clash h refl)
waiting_lem MessageStatus.cancelled h = absurd (clash h refl)

due_lem : (now : ℕ) (o : Option ℕ) → due now o ≡ true → IsDue now o
due_lem now none h = tt
due_lem now (some at) h = ground arith

unlocked_lem : (now : ℕ) (o : Option ℕ) → unlocked now o ≡ true → IsUnlocked now o
unlocked_lem now none h = tt
unlocked_lem now (some until) h = ground arith

all_three : (a b c : Bool) → (a && b && c) ≡ true → (a ≡ true) × (b ≡ true) × (c ≡ true)
all_three a b c h = ground arith

locked_claim :
    (now lock_for : ℕ) (r : MessageRow)
    → claimable now r ≡ true
    → IsClaimOf now lock_for (lock_row now lock_for r) r
unfolding claimable
locked_claim now lock_for r h =
    let (w, d, f) =
      all_three (is_waiting r.status) (due now r.scheduled_at) (unlocked now r.locked_until) h in
    record {
      waited = waiting_lem r.status w;
      scheduled = due_lem now r.scheduled_at d;
      free = unlocked_lem now r.locked_until f;
      same_id = refl;
      same_recipients = (refl, refl);
      sent_now = refl;
      one_attempt = refl;
      locked = refl;
    }

-- What a claim returns, where ids are unique: at most `limit` rows, each of them made from a row of
-- the table that was queued or deferred, whose scheduled time, if it has one, is not after now, and
-- whose lock, if it has one, ended before now. What is returned has the id and the recipients of that
-- row, is marked as being sent, has one more attempt, and is locked until `lock_for` from now.
pub claim_rows_sound :
    (limit lock_for : ℕ) (s : Store)
    → Unique s.messages
    → (length (claim_rows limit lock_for s).0 ≤ limit)
      × ((c : MessageRow)
          → Member c (claim_rows limit lock_for s).0
          → (r : MessageRow) × Member r s.messages × IsClaimOf s.now lock_for c r)
claim_rows_sound limit lock_for s u =
    let (few, made) = claim_rows_made limit lock_for s u in
    (
      few,
      λ c m.
          let (r, n, ok, e) = made c m in
          (
            r,
            n,
            subst (λ x. IsClaimOf s.now lock_for x r) (sym e) (locked_claim s.now lock_for r ok),
          ),
    )

pub mem-update_where :
    {A : Type 0} (test : A → Bool) (f : A → A) (r : A) (rows : List A)
    → Member r (update_where test f rows)
    → (q : A) × Member q rows × (((test q ≡ true) × (r ≡ f q)) ⊎ ((test q ≡ false) × (r ≡ q)))
unfolding update_where
mem-update_where test f r [] m = absurd m
mem-update_where test f r (x ∷ rows) (inl e) = elim (Bool-cases (test x)) [
  | inl t ↦ (x, inl refl, inl (t, rw t at e))
  | inr t ↦ (x, inl refl, inr (t, rw t at e))
]
mem-update_where test f r (x ∷ rows) (inr m) =
    let (q, n, c) = mem-update_where test f r rows m in (q, inr n, c)

pub update_where-Member :
    (test : MessageRow → Bool) (f : MessageRow → MessageRow) (q : MessageRow)
    (rows : List MessageRow)
    → Member q rows
    → Member (if test q then f q else q) (update_where test f rows)
unfolding update_where
update_where-Member test f q [] m = absurd m
update_where-Member test f q (x ∷ rows) (inl e) =
    inl (ap (λ (y : MessageRow). if test y then f y else y) e)
update_where-Member test f q (x ∷ rows) (inr m) = inr (update_where-Member test f q rows m)
