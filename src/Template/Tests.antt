-- ===== src/Template/Tests.antt =====
-- A greeting whose value holds markup and braces.
use ai_email.Base.{
  ℕ, ◌≤◌, ◌≡◌, refl, inl, true, some, [], ◌∷◌, Str, codes, Result, ok, length, str_eq, lookup,
  space_width, space_width_back, trim_start, reverse_onto, trim_space, has_prefix, index, decode,
  runes_from, runes,
}
use ai_email.Template.{
  Problem, Variables, is_plain, validate_name, validate_names, escape_byte, escape_html, closed,
  opened, next_tag, value_of, shown, within, substitute, finish, written, go_on, render_loop,
  render,
}
use ai_email.Template.Output.{render_total}
use ai_email.Template.Replaced.{Rendering, render_sound}
use ai_email.Template.Markup.{count, render_markup}

abbrev greeting : Str
greeting = codes "<b>{{ name }}</b>!"

abbrev named : Variables
named = (codes "name", codes "<{{x}}>") ∷ []

abbrev greeted : Str
greeted = codes "<b>&lt;{{x}}&gt;</b>!"

greeting_runs : render greeting named true ≡ some (ok greeted)
unfolding render validate_names validate_name runes runes_from decode is_plain render_loop go_on
    next_tag opened closed index has_prefix trim_space space_width space_width_back trim_start
    reverse_onto substitute value_of lookup str_eq shown escape_html escape_byte within written
    finish
greeting_runs = refl

render_total_example : (r : Result Problem Str) × (render greeting named true ≡ some r)
render_total_example = render_total greeting named true

render_sound_example :
    (n : ℕ) × Rendering named true greeting greeted n
    × (n ≤ 500)
    × (length greeting ≤ 524288)
    × (length greeted ≤ 1048576)
    × (validate_names named ≡ ok tt)
render_sound_example = render_sound greeting named true greeted greeting_runs

render_markup_example : count b'<' greeted ≤ count b'<' greeting
render_markup_example = render_markup greeting named greeted b'<' (inl refl) greeting_runs
