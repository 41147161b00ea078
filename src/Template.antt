-- ===== src/Template.antt =====
-- internal/template/render.go: merge tags. A Go map is an association list with distinct keys, in the
-- order in which the runtime visits it. A loop is on fuel, with `none` where the fuel runs out.
pub mod Scan
pub mod Output
pub mod Replaced
pub mod Markup
pub mod Names
mod Tests
use ai_email.Base.{
  ℕ, zero, suc, ◌+◌, ◌-◌, ◌*◌, ◌^◌, Bool, true, false, ◌&&◌, ◌||◌, not, Option, none, some, List,
  [], ◌∷◌, ◌++◌, Str, codes, str_eq, Result, ok, err, ◌>>=◌, ◌>>◌, ltb, leb, ◌==◌, if◌then◌else◌,
  length, take, drop, all, any, index, trim_space, runes, lookup,
}

abbrev pub max_template_bytes : ℕ
max_template_bytes = 512 * 2 ^ 10

abbrev pub max_output_bytes : ℕ
max_output_bytes = 2 ^ 20

abbrev pub max_variables : ℕ
max_variables = 100

abbrev pub max_variable_name_len : ℕ
max_variable_name_len = 64

abbrev pub max_tags : ℕ
max_tags = 500

pub data Problem : Type 0 where
  template_too_large output_too_large too_many_tags too_many_variables unclosed_tag : Problem
  unknown_variable invalid_name : Str → Problem

abbrev pub Variables : Type 0
Variables = List (Str × Str)

unfoldable pub is_plain : ℕ → Bool
is_plain r =
    (leb b'a' r && leb r b'z')
    || (leb b'A' r && leb r b'Z')
    || (leb b'0' r && leb r b'9')
    || r == b'_'

-- `validateName`
unfoldable pub validate_name : Str → Result Problem (Unit {0})
validate_name name =
    if length name == 0 || ltb max_variable_name_len (length name)
    then err (invalid_name name)
    else if all is_plain (runes name)
    then ok tt
    else err (invalid_name name)

-- `html.EscapeString`
unfoldable pub escape_byte : ℕ → Str
escape_byte c =
    if c == b'&'
    then codes "&amp;"
    else if c == b'\''
    then codes "&#39;"
    else if c == b'<'
    then codes "&lt;"
    else if c == b'>'
    then codes "&gt;"
    else if c == b'"'
    then codes "&#34;"
    else c ∷ []

unfoldable pub escape_html : Str → Str
escape_html [] = []
escape_html (c ∷ s) = escape_byte c ++ escape_html s

pub record Tag : Type 0 where
  pub before : Str
  pub name : Str
  pub after : Str

abbrev pub opening : Str
opening = b'{' ∷ b'{' ∷ []

abbrev pub closing : Str
closing = b'}' ∷ b'}' ∷ []

abbrev slice : Str → ℕ → ℕ → Str
slice s from upto = take (upto - from) (drop from s)

-- The first tag of a text, if it has one, from the indices of its braces: what both loops begin with.
unfoldable pub closed : Str → ℕ → Option ℕ → Result Problem (Option Tag)
closed rest open_at none = err unclosed_tag
closed rest open_at (some close_at) = ok (
    some (record {
      before = take open_at rest;
      name = trim_space (slice rest (open_at + 2) (open_at + close_at));
      after = drop (open_at + close_at + 2) rest;
    }))

unfoldable pub opened : Str → Option ℕ → Result Problem (Option Tag)
opened rest none = ok none
opened rest (some open_at) = closed rest open_at (index (drop open_at rest) closing)

unfoldable pub next_tag : Str → Result Problem (Option Tag)
next_tag rest = opened rest (index rest opening)

abbrev pub or_unknown : Str → Option Str → Result Problem Str
or_unknown name none = err (unknown_variable name)
or_unknown name (some value) = ok value

unfoldable pub value_of : Variables → Str → Result Problem Str
value_of variables name = or_unknown name (lookup name variables)

unfoldable pub shown : Bool → Str → Str
shown escape value = if escape then escape_html value else value

-- The two limits, after a value has been written.
unfoldable pub within : ℕ → Str → Result Problem Str
within tags out =
    if ltb max_tags (tags + 1)
    then err too_many_tags
    else if ltb max_output_bytes (length out)
    then err output_too_large
    else ok out

-- One tag of `Render`, with what has been written before it: the text written then.
unfoldable pub substitute : Variables → Bool → ℕ → Str → Str → Result Problem Str
substitute variables escape tags out name = do
  validate_name name
  value ← value_of variables name
  within tags (out ++ shown escape value)

abbrev pub Rendered : Type 0
Rendered = Option (Result Problem Str)

unfoldable pub finish : Str → Result Problem Str
finish out = if ltb max_output_bytes (length out) then err output_too_large else ok out

unfoldable pub written : (Str → Str → ℕ → Rendered) → Str → ℕ → Result Problem Str → Rendered
written again after tags (err e) = some (err e)
written again after tags (ok out) = again after out (tags + 1)

unfoldable pub go_on :
    (Str → Str → ℕ → Rendered)
    → Variables
    → Bool
    → Str
    → Str
    → ℕ
    → Result Problem (Option Tag)
    → Rendered
go_on again variables escape rest out tags (err e) = some (err e)
go_on again variables escape rest out tags (ok none) = some (finish (out ++ rest))
go_on again variables escape rest out tags (ok (some t)) =
    written again t.after tags (substitute variables escape tags (out ++ t.before) t.name)

-- The loop of `Render`: `rest`, `out` and `tags` are its variables.
unfoldable pub render_loop : ℕ → Variables → Bool → Str → Str → ℕ → Rendered
render_loop zero variables escape rest out tags = none
render_loop (suc fuel) variables escape rest out tags =
    go_on (render_loop fuel variables escape) variables escape rest out tags (next_tag rest)

unfoldable pub validate_names : Variables → Result Problem (Unit {0})
validate_names [] = ok tt
validate_names ((name, _) ∷ variables) = validate_name name >> validate_names variables

abbrev pub or_error : Result Problem (Unit {0}) → Rendered → Rendered
or_error (err e) rest = some (err e)
or_error (ok _) rest = rest

-- `Render`
unfoldable pub render : Str → Variables → Bool → Rendered
render tmpl variables escape =
    if ltb max_template_bytes (length tmpl)
    then some (err template_too_large)
    else if ltb max_variables (length variables)
    then some (err too_many_variables)
    else or_error (validate_names variables)
        (render_loop (suc (length tmpl)) variables escape tmpl [] 0)

-- `names` with one more, unless it was seen.
unfoldable pub with_name : Str → List Str → List Str
with_name name names = if any (str_eq name) names then names else names ++ (name ∷ [])

unfoldable pub noted : Str → List Str → Result Problem (List Str)
noted name names = do
  validate_name name
  let more = with_name name names
  if ltb max_tags (length more) then err too_many_tags else ok more

abbrev pub Listed : Type 0
Listed = Option (Result Problem (List Str))

unfoldable pub kept : (Str → List Str → Listed) → Str → Result Problem (List Str) → Listed
kept again after (err e) = some (err e)
kept again after (ok names) = again after names

unfoldable pub look_on : (Str → List Str → Listed) → List Str → Result Problem (Option Tag) → Listed
look_on again names (err e) = some (err e)
look_on again names (ok none) = some (ok names)
look_on again names (ok (some t)) = kept again t.after (noted t.name names)

-- The loop of `Tags`.
unfoldable pub tags_loop : ℕ → Str → List Str → Listed
tags_loop zero rest names = none
tags_loop (suc fuel) rest names = look_on (tags_loop fuel) names (next_tag rest)

-- `Tags`
unfoldable pub tags : Str → Listed
tags tmpl =
    if ltb max_template_bytes (length tmpl)
    then some (err template_too_large)
    else tags_loop (suc (length tmpl)) tmpl []
