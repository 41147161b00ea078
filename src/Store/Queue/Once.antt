-- ===== src/Store/Queue/Once.antt =====
-- Successive calls of `ClaimMessages` of internal/store/queue.go, by any workers and at any times,
-- with no call of a `Mark` method between them: what a crash of the workers leaves.
use ai_email.Base.{
  ℕ, ◌+◌, ◌≤◌, ◌≡◌, ◌&&◌, ltb, some, refl, ap, sym, ◌∙◌, inl, inr, Bool, true, false, List, [], ◌∷◌,
  ◌++◌, map, filter, mem-filter, All-Member, All-of-Member, mem-map, mem-append, Str, str_eq,
  str_eq_sound, str_eq_iff, if◌then◌else◌, arith, All, All-append, Member, Bool-cases, subst, clash,
}
use ai_email.Store.{update_where, MessageStatus, MessageRow, Store}
use ai_email.Store.Queue.{claimable, is_waiting, due, unlocked, chosen, among, lock_row, claim_rows}
use ai_email.Store.Queue.Claim.{
  Unique, Unique-eq, among-chosen, claim_rows_made, update_where-Member,
}

-- A claim at a time, with a limit and a lock duration.
pub record Call : Type 0 where
  pub at : ℕ
  pub limit : ℕ
  pub lock_for : ℕ

unfoldable pub claims : List Call → Store → List MessageRow × Store
claims [] s = ([], s)
claims (c ∷ calls) s =
    let (out, s1) = claim_rows c.limit c.lock_for (record s { now = c.at }) in
    let (more, s2) = claims calls s1 in (out ++ more, s2)

-- Maps that keep the ids keep the key.
All-map :
    (f : MessageRow → MessageRow) (i : Str) (rows : List MessageRow)
    → ((r : MessageRow) → (f r).id ≡ r.id)
    → All (λ q. str_eq q.id i ≡ false) rows
    → All (λ q. str_eq q.id i ≡ false) (map f rows)
All-map f i [] k h = tt
All-map f i (r ∷ rows) k (h, hs) = (ap (λ j. str_eq j i) (k r) ∙ h, All-map f i rows k hs)

Unique-map :
    (f : MessageRow → MessageRow) (rows : List MessageRow)
    → ((r : MessageRow) → (f r).id ≡ r.id)
    → Unique rows
    → Unique (map f rows)
Unique-map f [] k u = tt
Unique-map f (r ∷ rows) k (a, u) = (
  subst (λ j. All (λ q. str_eq q.id j ≡ false) (map f rows)) (sym (k r)) (All-map f r.id rows k a),
  Unique-map f rows k u,
)

Unique-filter :
    (p : MessageRow → Bool) (rows : List MessageRow) → Unique rows → Unique (filter p rows)
Unique-filter p [] u = tt
Unique-filter p (r ∷ rows) (a, u) = elim (Bool-cases (p r)) [
  | inl e ↦
      rw (e, Unique)
        (
          All-of-Member (λ q. str_eq q.id r.id ≡ false) (filter p rows)
              (λ q m.
                All-Member (λ x. str_eq x.id r.id ≡ false) q rows a (mem-filter p q rows m).0),
          Unique-filter p rows u,
        )
  | inr e ↦ rw (e, Unique) (Unique-filter p rows u)
]

update_where-eq-map :
    (test : MessageRow → Bool) (f : MessageRow → MessageRow) (rows : List MessageRow)
    → update_where test f rows ≡ map (λ r. if test r then f r else r) rows
unfolding update_where
update_where-eq-map test f [] = refl
update_where-eq-map test f (r ∷ rows) =
    ap (λ t. (if test r then f r else r) ∷ t) (update_where-eq-map test f rows)

pub Unique-update_where :
    (test : MessageRow → Bool) (f : MessageRow → MessageRow) (rows : List MessageRow)
    → ((r : MessageRow) → (f r).id ≡ r.id)
    → Unique rows
    → Unique (update_where test f rows)
Unique-update_where test f rows k u =
    rw (update_where-eq-map test f rows)
      (Unique-map (λ r. if test r then f r else r) rows (λ r. keeps (test r) r) u)
  where
    keeps : (b : Bool) (r : MessageRow) → (if b then f r else r).id ≡ r.id
    keeps true r = k r
    keeps false r = refl

Unique-append :
    (xs ys : List MessageRow)
    → Unique xs
    → Unique ys
    → ((x y : MessageRow) → Member x xs → Member y ys → str_eq y.id x.id ≡ false)
    → Unique (xs ++ ys)
Unique-append [] ys u v h = v
Unique-append (x ∷ xs) ys (a, u) v h = (
  All-append (λ q. str_eq q.id x.id ≡ false) xs ys a
      (All-of-Member (λ q. str_eq q.id x.id ≡ false) ys (λ y m. h x y (inl refl) m)),
  Unique-append xs ys u v (λ x' y m n. h x' y (inr m) n),
)

module _ (limit lock_for : ℕ) (s : Store) (u : Unique s.messages) where
  out_Unique : Unique (claim_rows limit lock_for s).0
  unfolding claim_rows
  out_Unique = Unique-map (lock_row s.now lock_for) _ (λ r. refl) (Unique-filter _ s.messages u)

  pub table_Unique : Unique (claim_rows limit lock_for s).1.messages
  unfolding claim_rows
  table_Unique = Unique-update_where _ (lock_row s.now lock_for) s.messages (λ r. refl) u

  -- What is returned stands in the table, as it was returned.
  out-Member :
      (c : MessageRow)
      → Member c (claim_rows limit lock_for s).0
      → Member c (claim_rows limit lock_for s).1.messages
  unfolding claim_rows
  out-Member c m =
      let picked = chosen s.now limit s.messages in
      let (r, mr, e) = mem-map (lock_row s.now lock_for) c _ m in
      let (n, taken) = mem-filter (among picked) r s.messages mr in
      let there = update_where-Member (among picked) (lock_row s.now lock_for) r s.messages n in
      subst (λ x. Member x (update_where (among picked) (lock_row s.now lock_for) s.messages))
        (sym e) (rw taken at there)

-- One claim leaves a message that it may not take where it is.
claim-passes_over :
    (limit lock_for : ℕ) (s : Store) (r : MessageRow)
    → Unique s.messages
    → Member r s.messages
    → claimable s.now r ≡ false
    → Member r (claim_rows limit lock_for s).1.messages
unfolding claim_rows
claim-passes_over limit lock_for s r u m h =
    let picked = chosen s.now limit s.messages in
    let there = update_where-Member (among picked) (lock_row s.now lock_for) r s.messages m in
    elim (Bool-cases (among picked r)) [
      | inl t ↦ absurd (clash (among-chosen s.now limit r s.messages u m t) h)
      | inr t ↦ rw t at there
    ]

not_returned :
    (limit lock_for : ℕ) (s : Store) (r d : MessageRow)
    → Unique s.messages
    → Member r s.messages
    → claimable s.now r ≡ false
    → Member d (claim_rows limit lock_for s).0
    → str_eq d.id r.id ≡ false
not_returned limit lock_for s r d u m h n = elim (Bool-cases (str_eq d.id r.id)) [
  | inr e ↦ e
  | inl e ↦
      let (q, nq, ok, made) = (claim_rows_made limit lock_for s u).1 d n in
      let same : q.id ≡ r.id =
        sym (ap (λ (x : MessageRow). x.id) made) ∙ str_eq_sound d.id r.id e in
      let one = Unique-eq q r s.messages u nq m ((str_eq_iff q.id r.id).1 same) in
      absurd (clash ok (ap (claimable s.now) one ∙ h))
]

abbrev IsHeld : MessageRow → List Call → Type 0
IsHeld r calls = All (λ c. claimable c.at r ≡ false) calls

claims-passes_over :
    (calls : List Call) (s : Store) (r : MessageRow)
    → Unique s.messages
    → Member r s.messages
    → IsHeld r calls
    → Member r (claims calls s).1.messages
      × ((d : MessageRow) → Member d (claims calls s).0 → str_eq d.id r.id ≡ false)
unfolding claims
claims-passes_over [] s r u m held = (m, λ d n. absurd n)
claims-passes_over (c ∷ calls) s r u m (now, held) =
    let t : Store = record s { now = c.at } in
    let (stays, apart) =
      claims-passes_over calls _ r (table_Unique c.limit c.lock_for t u)
        (claim-passes_over c.limit c.lock_for t r u m now) held in
    (
      stays,
      λ d n. elim (mem-append d (claim_rows c.limit c.lock_for t).0 _ n) [
        | inl here ↦ not_returned c.limit c.lock_for t r d u m now here
        | inr there ↦ apart d there
      ],
    )

locked_until-held :
    (now until : ℕ) (r : MessageRow)
    → r.locked_until ≡ some until
    → now ≤ until
    → claimable now r ≡ false
unfolding claimable
locked_until-held now until r h early =
    last_false (is_waiting r.status) (due now r.scheduled_at) _
      (ap (unlocked now) h ∙ not_before until now early)
  where
    last_false : (a b c : Bool) → c ≡ false → (a && b && c) ≡ false
    last_false a b c h = ground arith

    not_before : (a b : ℕ) → b ≤ a → ltb a b ≡ false
    not_before a b h = ground arith

-- Each call is made while the locks of all earlier ones are in force.
abbrev pub AreInForce : List Call → Type 0
AreInForce [] = Unit
AreInForce (c ∷ calls) = All (λ d. d.at ≤ c.at + c.lock_for) calls × AreInForce calls

locked-IsHeld :
    (until : ℕ) (r : MessageRow) (calls : List Call)
    → r.locked_until ≡ some until
    → All (λ d. d.at ≤ until) calls
    → IsHeld r calls
locked-IsHeld until r [] h a = tt
locked-IsHeld until r (c ∷ calls) h (early, a) =
    (locked_until-held c.at until r h early, locked-IsHeld until r calls h a)

-- Where ids are unique: while the locks of all calls are in force and no `Mark` method is called,
-- however many workers claim and however often, no message is handed out twice.
pub claims-Unique :
    (calls : List Call) (s : Store)
    → Unique s.messages
    → AreInForce calls
    → Unique (claims calls s).0
unfolding claims
claims-Unique [] s u in_force = tt
claims-Unique (c ∷ calls) s u (early, in_force) =
    let t : Store = record s { now = c.at } in
    let v = table_Unique c.limit c.lock_for t u in
    Unique-append _ _ (out_Unique c.limit c.lock_for t u) (claims-Unique calls _ v in_force)
      (λ x d m n.
        let (q, nq, ok, made) = (claim_rows_made c.limit c.lock_for t u).1 x m in
        let locked = ap (λ (y : MessageRow). y.locked_until) made in
        (claims-passes_over calls _ x v (out-Member c.limit c.lock_for t u x m)
            (locked-IsHeld (c.at + c.lock_for) x calls locked early)).1
          d n)

sending-IsHeld :
    (r : MessageRow) (calls : List Call) → r.status ≡ MessageStatus.sending → IsHeld r calls
unfolding claimable
sending-IsHeld r [] h = tt
sending-IsHeld r (c ∷ calls) h = (
  ap (λ status. is_waiting status && due c.at r.scheduled_at && unlocked c.at r.locked_until) h,
  sending-IsHeld r calls h,
)

-- Where ids are unique: a message that is being sent is claimed by no sequence of claims, at
-- whatever times, and stays as it is, in spite of its lock's end.
pub sending_stranded :
    (calls : List Call) (s : Store) (r : MessageRow)
    → Unique s.messages
    → Member r s.messages
    → r.status ≡ MessageStatus.sending
    → Member r (claims calls s).1.messages
      × ((d : MessageRow) → Member d (claims calls s).0 → str_eq d.id r.id ≡ false)
sending_stranded calls s r u m h = claims-passes_over calls s r u m (sending-IsHeld r calls h)
