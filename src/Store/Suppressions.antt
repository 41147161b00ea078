-- ===== src/Store/Suppressions.antt =====
-- internal/store/suppressions.go, over the hash of `crypto/sha256`. Two constraints of the table are not
-- modelled: the foreign key of `message_id`, by which the INSERT of an id without a message fails
-- (no code deletes a message), and the CHECK of `reason`.
pub mod Listed
use ai_email.Base.{
  ℕ, Bool, true, false, not, ◌&&◌, ◌||◌, Option, none, some, List, [], ◌∷◌, ◌++◌, map, filter, any,
  Str, str_eq, Result, ok, err, take, if◌then◌else◌, Unicode, to_lower, trim_space,
}
use ai_email.Store.{SuppressionRow, Store, Db, query, exec, and_then, sort_by}

-- `normalizeAddress`
unfoldable pub normalize_address : Unicode → Str → Str
normalize_address u address = to_lower u (trim_space address)

abbrev pub Digest : Type 0
Digest = Str → Str

-- `SuppressionHash`
unfoldable pub suppression_hash : Unicode → Digest → Str → Str
suppression_hash u sha256 address = sha256 (normalize_address u address)

unfoldable pub has_hash : Str → SuppressionRow → Bool
has_hash hash r = str_eq r.address_hash hash

-- `nullif($5, '')`
abbrev pub null_if_empty : Str → Option Str
null_if_empty [] = none
null_if_empty (c ∷ s) = some (c ∷ s)

-- The INSERT … ON CONFLICT (address_hash) DO NOTHING.
unfoldable pub insert_suppression : SuppressionRow → List SuppressionRow → List SuppressionRow
insert_suppression row rows =
    if any (has_hash row.address_hash) rows then rows else rows ++ (row ∷ [])

-- `Suppress`
unfoldable pub suppress : Unicode → Digest → Str → Str → Str → Str → Db (Unit {0})
suppress u sha256 address reason detail message_id = exec λ s. record s {
  suppressions =
      insert_suppression
        (record {
          address = normalize_address u address;
          address_hash = suppression_hash u sha256 address;
          reason = reason;
          detail = detail;
          message_id = null_if_empty message_id;
          created_at = s.now;
        })
        s.suppressions;
}

-- `IsSuppressed`
unfoldable pub is_suppressed : Unicode → Digest → Str → Db Bool
is_suppressed u sha256 address =
    query (λ s. (any (has_hash (suppression_hash u sha256 address)) s.suppressions, s))

-- The map `found`: the hashes asked for that have a row.
unfoldable pub found_hashes : List Str → List SuppressionRow → List Str
found_hashes hashes rows =
    map (λ (r : SuppressionRow). r.address_hash)
      (filter (λ r. any (str_eq r.address_hash) hashes) rows)

-- The last loop: (allowed, blocked).
unfoldable pub split_found : (Str → Bool) → List Str → List Str × List Str
split_found found [] = ([], [])
split_found found (a ∷ addresses) =
    let (allowed, blocked) = split_found found addresses in
    if found a then (allowed, a ∷ blocked) else (a ∷ allowed, blocked)

-- `FilterSuppressed`
unfoldable pub filter_suppressed : Unicode → Digest → List Str → Db (List Str × List Str)
filter_suppressed u sha256 [] s = (ok ([], []), s)
filter_suppressed u sha256 (a ∷ addresses) s =
    and_then
      (query
        (λ t. (found_hashes (map (suppression_hash u sha256) (a ∷ addresses)) t.suppressions, t)))
      (λ found t. (
        ok (split_found (λ b. any (str_eq (suppression_hash u sha256 b)) found) (a ∷ addresses)),
        t,
      ))
      s

-- `Unsuppress`
unfoldable pub unsuppress : Unicode → Digest → Str → Db (Unit {0})
unsuppress u sha256 address = exec λ s. record s {
  suppressions = filter (λ r. not (has_hash (suppression_hash u sha256 address) r)) s.suppressions;
}

unfoldable pub newest_first : List SuppressionRow → List SuppressionRow
newest_first [] = []
newest_first (r ∷ rows) = newest_first rows ++ (r ∷ [])

-- `ListSuppressions`: the columns address, reason, detail and created_at.
unfoldable pub list_suppressions : ℕ → Db (List (Str × Str × Str × ℕ))
list_suppressions limit = query λ s. (
  map (λ (r : SuppressionRow). (r.address, r.reason, r.detail, r.created_at))
      (take limit (newest_first (sort_by (λ (r : SuppressionRow). r.created_at) s.suppressions))),
  s,
)
