-- ===== src/Template/Replaced.antt =====
-- The text that `Render` of internal/template/render.go returns, against what a template stands for.
use ai_email.Base.{
  ℕ, zero, suc, ◌+◌, ◌≤◌, ◌≡◌, refl, sym, ap, subst, ◌∙◌, Bool, Option, none, some, [], ◌++◌,
  append_assoc, Str, Result, ok, err, arith, length, index, trim_space, lookup, some-inj,
}
use ai_email.Template.{
  Problem, Variables, Tag, opening, closing, next_tag, shown, Rendered, finish, go_on, render_loop,
  validate_names, render, max_output_bytes, max_tags,
}
use ai_email.Template.Scan.{next_tag-Parts, next_tag-none}
use ai_email.Template.Output.{render_made, written_made, substitute_made}

regroup : (a b c d : Str) → ((a ++ b) ++ c) ++ d ≡ a ++ (b ++ (c ++ d))
regroup a b c d = simp append_assoc

-- What a template stands for: the text before each tag, the tag's value, and so on behind the tag;
-- with the number of the tags. A value is not read again.
pub data Rendering (variables : Variables) (escape : Bool) : Str → Str → ℕ → Type 0 where
  plain :
      {t out : Str} {n : ℕ}
      → index t opening ≡ none
      → out ≡ t
      → n ≡ 0
      → Rendering variables escape t out n
  tag :
      {t out : Str} {n : ℕ} (before inner after value rest : Str) (k : ℕ)
      → t ≡ before ++ (opening ++ (inner ++ (closing ++ after)))
      → index t opening ≡ some (length before)
      → lookup (trim_space inner) variables ≡ some value
      → Rendering variables escape after rest k
      → out ≡ before ++ (shown escape value ++ rest)
      → n ≡ suc k
      → Rendering variables escape t out n

abbrev Adds : Variables → Bool → Str → Str → ℕ → Str → Type 0
Adds variables escape rest out tags r =
    (w : Str) × (n : ℕ) × (r ≡ out ++ w)
    × Rendering variables escape rest w n
    × (tags + n ≤ max_tags)
    × (length r ≤ max_output_bytes)

finish_made : (out r : Str) → finish out ≡ ok r → (r ≡ out) × (length out ≤ max_output_bytes)
unfolding finish
finish_made out r h = ground arith

module _ (variables : Variables) (escape : Bool) where
  go_on-Adds :
      (again : Str → Str → ℕ → Rendered) (rest out : Str) (tags : ℕ)
      (found : Result Problem (Option Tag)) (r : Str)
      → next_tag rest ≡ found
      → tags ≤ max_tags
      → ((after o : Str) (n : ℕ)
          → n ≤ max_tags
          → again after o n ≡ some (ok r)
          → Adds variables escape after o n r)
      → go_on again variables escape rest out tags found ≡ some (ok r)
      → Adds variables escape rest out tags r
  unfolding go_on
  go_on-Adds again rest out tags (err e) r q few ih h = absurd (ground arith)
  go_on-Adds again rest out tags (ok none) r q few ih h =
      let (e, small) = finish_made (out ++ rest) r (some-inj h) in
      (rest, 0, e, plain (next_tag-none rest q) refl refl, omega arith, omega (arith, ap length e))
  go_on-Adds again rest out tags (ok (some t)) r q few ih h =
      let (o, made, h') = written_made again t.after tags _ r h in
      let (value, valid, found, e, fewer) = substitute_made variables escape tags _ t.name o made in
      let (w, n, e', rendering, bound, small) = ih t.after o (tags + 1) fewer h' in
      let p = next_tag-Parts rest t q in
      (
        t.before ++ (shown escape value ++ w),
        suc n,
        e' ∙ ap (λ x. x ++ w) e ∙ regroup out t.before (shown escape value) w,
        tag t.before p.inner t.after value w n p.whole p.first
            (ap (λ x. lookup x variables) (sym p.named) ∙ found) rendering refl refl,
        omega arith,
        small,
      )

  render_loop-Adds :
      (fuel : ℕ) (rest out : Str) (tags : ℕ) (r : Str)
      → tags ≤ max_tags
      → render_loop fuel variables escape rest out tags ≡ some (ok r)
      → Adds variables escape rest out tags r
  unfolding render_loop
  render_loop-Adds zero rest out tags r few h = absurd (ground arith)
  render_loop-Adds (suc fuel) rest out tags r few h =
      go_on-Adds (render_loop fuel variables escape) rest out tags (next_tag rest) r refl few
        (λ after o n m g. render_loop-Adds fuel after o n r m g) h

-- A text that `Render` returns is what the template stands for; the template, the text and the tags
-- are within their limits, and every variable has a valid name.
pub render_sound :
    (tmpl : Str) (variables : Variables) (escape : Bool) (out : Str)
    → render tmpl variables escape ≡ some (ok out)
    → (n : ℕ) × Rendering variables escape tmpl out n
      × (n ≤ 500)
      × (length tmpl ≤ 524288)
      × (length out ≤ 1048576)
      × (validate_names variables ≡ ok tt)
render_sound tmpl variables escape out h =
    let (small, valid, made) = render_made tmpl variables escape out h in
    let (w, n, e, rendering, few, short) =
      render_loop-Adds variables escape (suc (length tmpl)) tmpl [] 0 out (omega arith) made in
    (
      n,
      subst (λ x. Rendering variables escape tmpl x n) (sym e) rendering,
      omega arith,
      small,
      short,
      valid,
    )
