-- ===== src/Dnsverify/Tests.antt =====
-- A domain with two records, one of them its token.
use ai_email.Base.{List, [], ◌∷◌, Str, codes}
use ai_email.Dnsverify.{Resolver, records}

abbrev two_records : List Str
two_records = codes "v=spf1" ∷ codes " tok " ∷ []

abbrev a_resolver : Resolver
a_resolver name = records two_records
