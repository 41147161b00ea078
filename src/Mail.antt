-- ===== src/Mail.antt =====
-- internal/mail: what may stand in a message's fields.
-- This file is address.go; the child `Build` is build.go with qp.go. `net/mail.ParseAddress`, the
-- grammar of RFC 5322, is the parameter `AddressParser`.
pub mod Fields
pub mod Recipients
pub mod Build
mod Tests
use ai_email.Base.{
  ℕ, zero, suc, ◌+◌, ◌-◌, Bool, true, false, ◌&&◌, ◌||◌, not, Option, none, some, List, [], ◌∷◌,
  ◌++◌, map, Str, codes, str_eq, Result, ok, err, ltb, leb, ◌==◌, if◌then◌else◌, any, length, take,
  drop, Unicode, to_lower, to_upper, trim_space, has_prefix, runes, option_bind,
}

-- The errors of the package. Their texts quote the caller's value; the kind is what is modelled.
pub data Problem : Type 0 where
  control_character too_many_recipients no_recipient not_an_address : Problem
  no_subject long_subject : Problem
  no_header_name not_custom illegal_header_name : Problem

abbrev pub max_recipients : ℕ
max_recipients = 50

abbrev pub max_subject_length : ℕ
max_subject_length = 998

-- A rune that `ContainsControl` refuses: C0 but the tab, and DEL.
unfoldable pub is_control : ℕ → Bool
is_control r = not (r == 9) && (ltb r 0x20 || r == 0x7f)

-- `ContainsControl`
unfoldable pub contains_control : Str → Bool
contains_control s = any is_control (runes s)

-- `CleanHeaderValue`
unfoldable pub clean_header_value : Str → Result Problem Str
clean_header_value value =
    if contains_control value then err control_character else ok (trim_space value)

-- `strings.LastIndex` of one byte, with `none` for -1.
unfoldable pub last_index : ℕ → Str → Option ℕ
last_index b [] = none
last_index b (c ∷ s) = elim (last_index b s) [
  | some i ↦ some (suc i)
  | none ↦ if c == b then some 0 else none
]

-- `addrSpec`
unfoldable pub addr_spec : Str → Str
addr_spec raw =
    let trimmed = trim_space raw in
    elim (last_index b'<' trimmed) [
      | none ↦ trimmed
      | some open_at ↦ elim (last_index b'>' trimmed) [
        | none ↦ trimmed
        | some close_at ↦
            if ltb open_at close_at
            then take (close_at - (open_at + 1)) (drop (open_at + 1) trimmed)
            else trimmed
      ]
    ]

pub record Address : Type 0 where
  pub name : Str
  pub email : Str
  pub domain : Str

-- `net/mail.ParseAddress`: the display name and the addr-spec.
abbrev pub AddressParser : Type 0
AddressParser = Str → Option (Str × Str)

unfoldable pub has_blank : Str → Bool
has_blank s = any (λ c. c == 32 || c == 9) s

-- What `ParseAddress` does with the parts that the parser found.
unfoldable pub split_domain : Unicode → Str × Str → Result Problem Address
split_domain u (name, email) = elim (last_index b'@' email) [
  | none ↦ err not_an_address
  | some at ↦
      let domain = to_lower u (drop (at + 1) email) in
      if at == 0 || at == length email - 1
      then err not_an_address
      else if has_blank domain
      then err not_an_address
      else ok (record { name = name; email = email; domain = domain })
]

-- `ParseAddress`
unfoldable pub parse_address : Unicode → AddressParser → Str → Result Problem Address
parse_address u parse raw =
    if contains_control raw
    then err control_character
    else if has_blank (addr_spec raw)
    then err not_an_address
    else elim (parse (trim_space raw)) [
      | none ↦ err not_an_address
      | some parts ↦ split_domain u parts
    ]

unfoldable pub mem_str : Str → List Str → Bool
mem_str s [] = false
mem_str s (t ∷ ts) = str_eq t s || mem_str s ts

-- The loop of `ParseRecipients`; `seen` has the lowered addresses so far.
unfoldable pub collect : Unicode → AddressParser → List Str → List Str → Result Problem (List Str)
collect u parse seen [] = ok []
collect u parse seen (r ∷ raw) = elim (parse_address u parse r) [
  | err e ↦ err e
  | ok addr ↦
      let lowered = to_lower u addr.email in
      elim (mem_str lowered seen) [
        | true ↦ collect u parse seen raw
        | false ↦ elim (collect u parse (lowered ∷ seen) raw) [
          | err e ↦ err e
          | ok out ↦ ok (addr.email ∷ out)
        ]
      ]
]

-- `ParseRecipients`
unfoldable pub parse_recipients : Unicode → AddressParser → List Str → Result Problem (List Str)
parse_recipients u parse raw =
    if length raw == 0
    then err no_recipient
    else if ltb max_recipients (length raw)
    then err too_many_recipients
    else collect u parse [] raw

-- `ValidateSubject`: the problem, if there is one.
unfoldable pub validate_subject : Str → Option Problem
validate_subject s =
    if str_eq (trim_space s) []
    then some no_subject
    else if contains_control s
    then some control_character
    else if ltb max_subject_length (length (runes s))
    then some long_subject
    else none

unfoldable pub illegal_in_name : ℕ → Bool
illegal_in_name r = ltb 0x7f r || leb r 0x20 || r == b':'

-- `ValidateCustomHeader`
unfoldable pub validate_custom_header : Unicode → Str → Str → Option Problem
validate_custom_header u name value =
    if str_eq name []
    then some no_header_name
    else if not (has_prefix (to_upper u name) (codes "X-"))
    then some not_custom
    else if any illegal_in_name (runes name)
    then some illegal_header_name
    else if contains_control value
    then some control_character
    else none
