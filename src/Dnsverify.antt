-- ===== src/Dnsverify.antt =====
-- internal/dnsverify/dnsverify.go: does a domain still publish its token? The resolver is the
-- parameter `Resolver`; its timeout is one of its errors.
pub mod Proof
mod Tests
use ai_email.Base.{
  ℕ, Bool, true, false, ◌||◌, Option, none, some, List, [], ◌∷◌, ◌++◌, Str, codes, str_eq, Unicode,
  to_lower, trim_space, trim_last, if◌then◌else◌,
}

-- `LookupTXT`: records, a DNS error that says the name does not exist, or another error.
pub data Lookup : Type 0 where
  records : List Str → Lookup
  name_not_found lookup_error : Lookup

abbrev pub Resolver : Type 0
Resolver = Str → Lookup

pub data Failure : Type 0 where
  no_record mismatch lookup_fail : Failure

unfoldable pub matches : Str → List Str → Bool
matches expected [] = false
matches expected (r ∷ rs) = if str_eq (trim_space r) expected then true else matches expected rs

unfoldable pub of_lookup : Str → Lookup → Option Failure
of_lookup expected name_not_found = some no_record
of_lookup expected lookup_error = some lookup_fail
of_lookup expected (records []) = some no_record
of_lookup expected (records (r ∷ rs)) = if matches expected (r ∷ rs) then none else some mismatch

unfoldable pub record_name : Unicode → Str → Str
record_name u domain = codes "_aiemail." ++ trim_last b'.' (to_lower u domain)

-- `Verify`: `none` is a domain that is proved.
unfoldable pub verify : Unicode → Resolver → Str → Str → Option Failure
verify u lookup domain expected =
    if str_eq (trim_space domain) [] || str_eq (trim_space expected) []
    then some mismatch
    else of_lookup expected (lookup (record_name u domain))

-- `Recheckable`
unfoldable pub recheckable : Failure → Bool
recheckable lookup_fail = true
recheckable _ = false
