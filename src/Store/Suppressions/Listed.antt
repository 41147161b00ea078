-- ===== src/Store/Suppressions/Listed.antt =====
-- What the suppression list of internal/store/suppressions.go holds after each operation.
use ai_email.Base.{
  ◌≡◌, refl, ap, ap₂, sym, ◌∙◌, ◌⊎◌, inl, inr, Bool, true, false, not, ◌&&◌, ◌||◌, List, [], ◌∷◌,
  ◌++◌, map, filter, any, any_complete, Member, Str, str_eq, str_eq_sound, str_eq_sym, clash, ok,
  Bool-cases, Unicode, arith, subst,
}
use ai_email.Store.{SuppressionRow, Store, next_fails, query, and_then}
use ai_email.Store.Suppressions.{
  Digest, suppression_hash, has_hash, insert_suppression, suppress, found_hashes, split_found,
  filter_suppressed, unsuppress,
}
use ai_email.Store.Queue.Marks.{Returns, exec-ok}

module _ (u : Unicode) (sha256 : Digest) where
  -- Is an address on the list?
  unfoldable pub listed : Store → Str → Bool
  listed s address = any (has_hash (suppression_hash u sha256 address)) s.suppressions

  any-append :
      {A : Type 0} (p : A → Bool) (xs ys : List A) → any p (xs ++ ys) ≡ (any p xs || any p ys)
  any-append p [] ys = refl
  any-append p (x ∷ xs) ys = ground (arith, any-append p xs ys)

  or_last : (a b : Bool) → (a || (b || false)) ≡ (a || b)
  or_last a b = ground arith

  had :
      (hash : Str) (row : SuppressionRow) (rows : List SuppressionRow)
      → any (has_hash row.address_hash) rows ≡ true
      → any (has_hash hash) rows ≡ (any (has_hash hash) rows || str_eq row.address_hash hash)
  had hash row rows e = elim (Bool-cases (str_eq row.address_hash hash)) [
    | inl k ↦
        let same : any (has_hash hash) rows ≡ true =
          subst (λ h. any (has_hash h) rows ≡ true) (str_eq_sound row.address_hash hash k) e in
        ground (arith, same, k)
    | inr k ↦ ground (arith, k)
  ]

  append-Member : {A : Type 0} (a : A) (xs ys : List A) → Member a xs → Member a (xs ++ ys)
  append-Member a [] ys m = absurd m
  append-Member a (x ∷ xs) ys (inl e) = inl e
  append-Member a (x ∷ xs) ys (inr m) = inr (append-Member a xs ys m)

  insert_suppression-Member :
      (r row : SuppressionRow) (rows : List SuppressionRow)
      → Member r rows
      → Member r (insert_suppression row rows)
  unfolding insert_suppression
  insert_suppression-Member r row rows m =
      elim (Bool-cases (any (has_hash row.address_hash) rows)) [
        | inl e ↦ rw (e, Member) m
        | inr e ↦ rw (e, Member) (append-Member r rows (row ∷ []) m)
      ]

  any-insert_suppression :
      (hash : Str) (row : SuppressionRow) (rows : List SuppressionRow)
      → any (has_hash hash) (insert_suppression row rows)
        ≡ (any (has_hash hash) rows || str_eq row.address_hash hash)
  unfolding insert_suppression has_hash
  any-insert_suppression hash row rows = elim (Bool-cases (any (has_hash row.address_hash) rows)) [
    | inl e ↦ rw e (had hash row rows e)
    | inr e ↦ rw (e, any) (any-append (has_hash hash) rows (row ∷ []) ∙ or_last _ _)
  ]

  -- After a call of `Suppress` that succeeds, listed are the addresses listed before and those
  -- with the hash of the given one; the rows that were there, and with them their reasons, are
  -- still there.
  pub suppress_lists :
      (address reason detail id : Str) (s s' : Store)
      → Returns (suppress u sha256 address reason detail id s) tt s'
      → ((b : Str)
          → listed s' b ≡ (
              listed s b
              || str_eq (suppression_hash u sha256 address) (suppression_hash u sha256 b)))
        × ((r : SuppressionRow) → Member r s.suppressions → Member r s'.suppressions)
  unfolding suppress listed
  suppress_lists address reason detail id s s' h =
      let (e, up) = exec-ok _ s s' h in
      (
        λ b.
            ap (λ (t : Store). any (has_hash (suppression_hash u sha256 b)) t.suppressions) e
            ∙ any-insert_suppression (suppression_hash u sha256 b) _ s.suppressions,
        λ r m.
            subst (λ (t : Store). Member r t.suppressions) (sym e)
              (insert_suppression-Member r _ s.suppressions m),
      )

  removed : (a b : Bool) → ((a && not b) ≡ ((b || a) && not b))
  removed a b = ground arith

  kept :
      (a b c d : Bool) → (c ≡ true → b ≡ false) → d ≡ (a && not c) → (b || d) ≡ ((b || a) && not c)
  kept a true true d h e = absurd (clash refl (h refl))
  kept a true false d h e = refl
  kept a false true d h e = e
  kept a false false d h e = e

  any-remove :
      (hash other : Str) (rows : List SuppressionRow)
      → any (has_hash other) (filter (λ r. not (has_hash hash r)) rows)
        ≡ (any (has_hash other) rows && not (str_eq hash other))
  unfolding has_hash
  any-remove hash other [] = refl
  any-remove hash other (r ∷ rows) = elim (Bool-cases (str_eq r.address_hash hash)) [
    | inl e ↦
        let same : str_eq r.address_hash other ≡ str_eq hash other =
          ap (λ h. str_eq h other) (str_eq_sound r.address_hash hash e) in
        rw (e, any, same)
          (any-remove hash other rows ∙ removed (any (has_hash other) rows) (str_eq hash other))
    | inr e ↦
        rw (e, any)
          (kept (any (has_hash other) rows) (str_eq r.address_hash other) (str_eq hash other) _
            (λ k. ap (str_eq r.address_hash) (sym (str_eq_sound hash other k)) ∙ e)
            (any-remove hash other rows))
  ]

  -- After a call of `Unsuppress` that succeeds, listed are the addresses listed before that have
  -- another hash than the given one.
  pub unsuppress_unlists :
      (address : Str) (s s' : Store)
      → Returns (unsuppress u sha256 address s) tt s'
      → (b : Str)
      → listed s' b ≡ (
          listed s b
          && not (str_eq (suppression_hash u sha256 address) (suppression_hash u sha256 b)))
  unfolding unsuppress listed
  unsuppress_unlists address s s' h b =
      let (e, up) = exec-ok _ s s' h in
      ap (λ (t : Store). any (has_hash (suppression_hash u sha256 b)) t.suppressions) e
      ∙ any-remove (suppression_hash u sha256 address) (suppression_hash u sha256 b) s.suppressions

  split_found_lem :
      (found known : Str → Bool) (addresses : List Str)
      → ((a : Str) → Member a addresses → found a ≡ known a)
      → split_found found addresses
        ≡ (filter (λ a. not (known a)) addresses, filter known addresses)
  unfolding split_found
  split_found_lem found known [] same = refl
  split_found_lem found known (a ∷ addresses) same =
      let rest = split_found_lem found known addresses (λ b m. same b (inr m)) in
      elim (Bool-cases (known a)) [
        | inl e ↦ let f = same a (inl refl) ∙ e in rw (e, f, rest, filter) refl
        | inr e ↦ let f = same a (inl refl) ∙ e in rw (e, f, rest, filter) refl
      ]

  found_lem :
      (b : Str) (hashes : List Str) (rows : List SuppressionRow)
      → Member (suppression_hash u sha256 b) hashes
      → any (str_eq (suppression_hash u sha256 b)) (found_hashes hashes rows)
        ≡ any (has_hash (suppression_hash u sha256 b)) rows
  unfolding found_hashes has_hash
  found_lem b hashes [] m = refl
  found_lem b hashes (r ∷ rows) m =
      let h = suppression_hash u sha256 b in
      let rest = found_lem b hashes rows m in
      elim (Bool-cases (any (str_eq r.address_hash) hashes)) [
        | inl e ↦ rw (e, any) (ap₂ (λ x y. x || y) (str_eq_sym h r.address_hash) rest)
        | inr e ↦ elim (Bool-cases (str_eq r.address_hash h)) [
          | inl k ↦ absurd (clash (any_complete (str_eq r.address_hash) h hashes m k) e)
          | inr k ↦ rw (e, any, k) rest
        ]
      ]

  map-Member : (f : Str → Str) (a : Str) (xs : List Str) → Member a xs → Member (f a) (map f xs)
  map-Member f a [] m = absurd m
  map-Member f a (x ∷ xs) (inl e) = inl (ap f e)
  map-Member f a (x ∷ xs) (inr m) = inr (map-Member f a xs m)

  -- `FilterSuppressed` splits the addresses, in their order, into those that are not listed and
  -- those that are; it fails only if the database does.
  pub filter_suppressed_splits :
      (addresses : List Str) (s : Store)
      → ((filter_suppressed u sha256 addresses s).0
          ≡ ok (filter (λ a. not (listed s a)) addresses, filter (listed s) addresses))
        ⊎ (next_fails s.outage ≡ true)
  unfolding filter_suppressed listed and_then query
  filter_suppressed_splits [] s = inl refl
  filter_suppressed_splits (a ∷ addresses) s = elim (Bool-cases (next_fails s.outage)) [
    | inl e ↦ inr e
    | inr e ↦
        let same = λ (b : Str) (m : Member b (a ∷ addresses)).
          found_lem b (map (suppression_hash u sha256) (a ∷ addresses)) s.suppressions
            (map-Member (suppression_hash u sha256) b (a ∷ addresses) m) in
        inl (rw e (ap ok (split_found_lem _ (listed s) (a ∷ addresses) same)))
  ]
