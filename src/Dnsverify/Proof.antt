-- ===== src/Dnsverify/Proof.antt =====
-- When `Verify` of internal/dnsverify/dnsverify.go takes a domain as proved.
use ai_email.Base.{
  ◌≡◌, refl, sym, inl, inr, true, false, none, none-ne-some, List, [], ◌∷◌, Str, str_eq,
  str_eq_sound, trim_space, Unicode, Bool-cases, Member,
}
use ai_email.Dnsverify.{Lookup, Resolver, records, matches, of_lookup, record_name, verify}

matches_sound :
    (expected : Str) (rs : List Str)
    → matches expected rs ≡ true
    → (r : Str) × Member r rs × (trim_space r ≡ expected)
unfolding matches
matches_sound expected [] h = cc
matches_sound expected (r ∷ rs) h = elim (Bool-cases (str_eq (trim_space r) expected)) [
  | inl e ↦ (r, inl refl, str_eq_sound (trim_space r) expected e)
  | inr e ↦ let (x, m, k) = matches_sound expected rs (rw (e, matches) at h) in (x, inr m, k)
]

of_lookup_sound :
    (expected : Str) (l : Lookup)
    → of_lookup expected l ≡ none
    → (rs : List Str) × (r : Str) × (l ≡ records rs) × Member r rs × (trim_space r ≡ expected)
unfolding of_lookup
of_lookup_sound expected Lookup.name_not_found h = absurd (none-ne-some (sym h))
of_lookup_sound expected Lookup.lookup_error h = absurd (none-ne-some (sym h))
of_lookup_sound expected (records []) h = absurd (none-ne-some (sym h))
of_lookup_sound expected (records (r ∷ rs)) h = elim (Bool-cases (matches expected (r ∷ rs))) [
  | inl e ↦ let (x, m, k) = matches_sound expected (r ∷ rs) e in (r ∷ rs, x, refl, m, k)
  | inr e ↦ absurd (none-ne-some (sym (rw e at h)))
]

-- A domain that is proved has a record at its name that is the token between blanks, and its name
-- and token are not blank.
pub verify_published :
    (u : Unicode) (lookup : Resolver) (domain expected : Str)
    → verify u lookup domain expected ≡ none
    → (str_eq (trim_space domain) [] ≡ false)
      × (str_eq (trim_space expected) [] ≡ false)
      × ((rs : List Str) × (r : Str) × (lookup (record_name u domain) ≡ records rs)
          × Member r rs
          × (trim_space r ≡ expected))
unfolding verify
verify_published u lookup domain expected h = elim (Bool-cases (str_eq (trim_space domain) [])) [
  | inl e ↦ absurd (none-ne-some (sym (rw e at h)))
  | inr e ↦ elim (Bool-cases (str_eq (trim_space expected) [])) [
    | inl f ↦ absurd (none-ne-some (sym (rw (e, f) at h)))
    | inr f ↦ (e, f, of_lookup_sound expected _ (rw (e, f) at h))
  ]
]
