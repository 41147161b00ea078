-- ===== src/Template/Markup.antt =====
-- Values in the HTML part of a message, by internal/template/render.go, add no markup.
use ai_email.Base.{
  ℕ, ◌+◌, ◌≤◌, ◌≡◌, refl, ap, ◌⊎◌, inl, inr, true, some, [], ◌∷◌, ◌++◌, Str, ok, arith, ◌==◌,
  if◌then◌else◌,
}
use ai_email.Template.{Variables, escape_byte, escape_html, shown, opening, closing, render}
use ai_email.Template.Replaced.{Rendering, plain, tag, render_sound}

-- How often a byte stands in a text.
unfoldable pub count : ℕ → Str → ℕ
count b [] = 0
count b (c ∷ s) = (if c == b then 1 else 0) + count b s

count-append : (b : ℕ) (s t : Str) → count b (s ++ t) ≡ count b s + count b t
unfolding count
count-append b [] t = omega arith
count-append b (c ∷ s) t = ground (arith, count-append b s t)

-- The bytes that end a text or an attribute in HTML.
abbrev pub IsMarkup : ℕ → Type 0
IsMarkup b = (b ≡ b'<') ⊎ (b ≡ b'>') ⊎ (b ≡ b'"') ⊎ (b ≡ b'\'')

escape_byte-count : (b c : ℕ) → IsMarkup b → count b (escape_byte c) ≡ 0
unfolding count escape_byte
escape_byte-count b c (inl h) = ground arith
escape_byte-count b c (inr (inl h)) = ground arith
escape_byte-count b c (inr (inr (inl h))) = ground arith
escape_byte-count b c (inr (inr (inr h))) = ground arith

escape_html-count : (b : ℕ) (s : Str) → IsMarkup b → count b (escape_html s) ≡ 0
unfolding count escape_html
escape_html-count b [] m = refl
escape_html-count b (c ∷ s) m = omega (
  arith,
  count-append b (escape_byte c) (escape_html s),
  escape_byte-count b c m,
  escape_html-count b s m,
)

Rendering-count :
    (variables : Variables) (b : ℕ) {t out : Str} {n : ℕ}
    → IsMarkup b
    → Rendering variables true t out n
    → count b out ≤ count b t
unfolding shown
Rendering-count variables b m (plain e q z) = omega (arith, ap (count b) q)
Rendering-count variables b m (tag before inner after value rest k w f l r q z) = omega (
  arith,
  ap (count b) w,
  ap (count b) q,
  escape_html-count b value m,
  Rendering-count variables b m r,
  count-append b before (opening ++ (inner ++ (closing ++ after))),
  count-append b opening (inner ++ (closing ++ after)),
  count-append b inner (closing ++ after),
  count-append b closing after,
  count-append b before (shown true value ++ rest),
  count-append b (shown true value) rest,
)

-- Whatever the values, the text rendered with escapes holds each of `<`, `>` and the two quotes at
-- most as often as the template does.
pub render_markup :
    (tmpl : Str) (variables : Variables) (out : Str) (b : ℕ)
    → IsMarkup b
    → render tmpl variables true ≡ some (ok out)
    → count b out ≤ count b tmpl
render_markup tmpl variables out b m h =
    let (n, r, _, _, _, _) = render_sound tmpl variables true out h in
    Rendering-count variables b m r
