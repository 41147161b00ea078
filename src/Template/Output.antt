-- ===== src/Template/Output.antt =====
-- What `Render` of internal/template/render.go writes.
use ai_email.Base.{
  ℕ, zero, suc, ◌+◌, ◌≤◌, ◌<◌, ◌≡◌, refl, ap, inl, inr, Bool, false, Option, none, some, [], ◌++◌,
  Str, Result, ok, err, >>=-eq-ok, arith, length, ltb, lookup, ok-inj, Bool-cases,
}
use ai_email.Template.{
  Problem, Variables, validate_name, Tag, next_tag, or_unknown, value_of, shown, within, substitute,
  Rendered, finish, written, go_on, render_loop, validate_names, or_error, render,
  max_template_bytes, max_output_bytes, max_variables, max_tags,
}
use ai_email.Template.Scan.{next_tag-shorter}

module _ (variables : Variables) (escape : Bool) where
  written_total :
      (again : Str → Str → ℕ → Rendered) (after : Str) (tags : ℕ) (w : Result Problem Str)
      → ((out : Str) (n : ℕ) → (r : Result Problem Str) × (again after out n ≡ some r))
      → (r : Result Problem Str) × (written again after tags w ≡ some r)
  unfolding written
  written_total again after tags (err e) h = (err e, refl)
  written_total again after tags (ok out) h = h out (tags + 1)

  go_on_total :
      (again : Str → Str → ℕ → Rendered) (rest out : Str) (tags : ℕ)
      (found : Result Problem (Option Tag))
      → ((t : Tag) (o : Str) (n : ℕ)
          → found ≡ ok (some t)
          → (r : Result Problem Str) × (again t.after o n ≡ some r))
      → (r : Result Problem Str) × (go_on again variables escape rest out tags found ≡ some r)
  unfolding go_on
  go_on_total again rest out tags (err e) h = (err e, refl)
  go_on_total again rest out tags (ok none) h = (finish (out ++ rest), refl)
  go_on_total again rest out tags (ok (some t)) h =
      written_total again t.after tags _ (λ o n. h t o n refl)

  render_loop_total :
      (fuel : ℕ) (rest out : Str) (tags : ℕ)
      → length rest < fuel
      → (r : Result Problem Str) × (render_loop fuel variables escape rest out tags ≡ some r)
  unfolding render_loop
  render_loop_total zero rest out tags h = absurd (omega arith)
  render_loop_total (suc fuel) rest out tags h =
      go_on_total (render_loop fuel variables escape) rest out tags (next_tag rest)
        (λ t o n e. render_loop_total fuel t.after o n (omega (arith, next_tag-shorter rest t e)))

or_error_total :
    (r : Result Problem (Unit {0})) (rest : Rendered)
    → ((a : Result Problem Str) × (rest ≡ some a))
    → (a : Result Problem Str) × (or_error r rest ≡ some a)
or_error_total (err e) rest h = (err e, refl)
or_error_total (ok _) rest h = h

-- The loop ends: for every template, `Render` returns a text or an error.
pub render_total :
    (tmpl : Str) (variables : Variables) (escape : Bool)
    → (r : Result Problem Str) × (render tmpl variables escape ≡ some r)
unfolding render
render_total tmpl variables escape = elim (Bool-cases (ltb max_template_bytes (length tmpl))) [
  | inl e ↦ rw e (_, refl)
  | inr e ↦ elim (Bool-cases (ltb max_variables (length variables))) [
    | inl f ↦ rw (e, f) (_, refl)
    | inr f ↦
        rw (e, f)
          (or_error_total (validate_names variables) _
            (render_loop_total variables escape (suc (length tmpl)) tmpl [] 0 (omega arith)))
  ]
]

or_error-ok :
    (r : Result Problem (Unit {0})) (rest : Rendered) (out : Str)
    → or_error r rest ≡ some (ok out)
    → (r ≡ ok tt) × (rest ≡ some (ok out))
or_error-ok (err e) rest out h = absurd (ground arith)
or_error-ok (ok tt) rest out h = (refl, h)

not_big : {n : ℕ} → ltb max_template_bytes n ≡ false → n ≤ max_template_bytes
not_big h = ground arith

or_unknown-ok : (name value : Str) (o : Option Str) → or_unknown name o ≡ ok value → o ≡ some value
or_unknown-ok name value none h = absurd (ground arith)
or_unknown-ok name value (some v) h = ap some (ok-inj h)

value_of-ok :
    (variables : Variables) (name value : Str)
    → value_of variables name ≡ ok value
    → lookup name variables ≡ some value
unfolding value_of
value_of-ok variables name value h = or_unknown-ok name value (lookup name variables) h

-- A text that is returned comes from the loop, after the checks.
pub render_made :
    (tmpl : Str) (variables : Variables) (escape : Bool) (out : Str)
    → render tmpl variables escape ≡ some (ok out)
    → (length tmpl ≤ max_template_bytes)
      × (validate_names variables ≡ ok tt)
      × (render_loop (suc (length tmpl)) variables escape tmpl [] 0 ≡ some (ok out))
unfolding render
render_made tmpl variables escape out h =
    let big : ltb max_template_bytes (length tmpl) ≡ false = ground arith in
    let many : ltb max_variables (length variables) ≡ false = ground arith in
    let (valid, made) = or_error-ok (validate_names variables) _ out (rw (big, many) at h) in
    (omega (arith, not_big big), valid, made)

pub written_made :
    (again : Str → Str → ℕ → Rendered) (after : Str) (tags : ℕ) (w : Result Problem Str) (r : Str)
    → written again after tags w ≡ some (ok r)
    → (out : Str) × (w ≡ ok out) × (again after out (tags + 1) ≡ some (ok r))
unfolding written
written_made again after tags (err e) r h = absurd (ground arith)
written_made again after tags (ok out) r h = (out, refl, h)

pub within_made :
    (tags : ℕ) (out r : Str)
    → within tags out ≡ ok r
    → (r ≡ out) × (tags + 1 ≤ max_tags) × (length out ≤ max_output_bytes)
unfolding within
within_made tags out r h = ground arith

-- What one tag writes, where `Render` goes on.
pub substitute_made :
    (variables : Variables) (escape : Bool) (tags : ℕ) (out name r : Str)
    → substitute variables escape tags out name ≡ ok r
    → (value : Str) × (validate_name name ≡ ok tt)
      × (lookup name variables ≡ some value)
      × (r ≡ out ++ shown escape value)
      × (tags + 1 ≤ max_tags)
unfolding substitute
substitute_made variables escape tags out name r h =
    let (u, valid, h') = >>=-eq-ok (validate_name name) _ h in
    let (value, found, h'') = >>=-eq-ok (value_of variables name) _ h' in
    let (e, few, small) = within_made tags _ r h'' in
    (value, valid, value_of-ok variables name value found, e, few)
