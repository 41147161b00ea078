-- ===== src/Template/Names.antt =====
-- `Tags` of internal/template/render.go beside `Render`.
use ai_email.Base.{
  ℕ, zero, suc, ◌+◌, ◌≤◌, ◌≡◌, refl, sym, subst, inl, inr, Bool, false, Option, none, some, List,
  [], ◌∷◌, Str, str_eq, Result, ok, err, arith, length, length-append, All, All-append, ltb, lookup,
  any, Bool-cases,
}
use ai_email.Template.{
  Problem, Variables, validate_name, Tag, next_tag, go_on, render_loop, render, with_name, noted,
  Listed, kept, look_on, tags_loop, tags, max_tags, max_template_bytes, Rendered,
}
use ai_email.Template.Output.{render_made, written_made, substitute_made}

abbrev pub IsGiven : Variables → Str → Type 0
IsGiven variables name = (value : Str) × (lookup name variables ≡ some value)

with_name-IsGiven :
    (variables : Variables) (name : Str) (names : List Str)
    → IsGiven variables name
    → All (IsGiven variables) names
    → All (IsGiven variables) (with_name name names)
unfolding with_name
with_name-IsGiven variables name names g h = elim (Bool-cases (any (str_eq name) names)) [
  | inl e ↦ rw (e, with_name) h
  | inr e ↦ rw (e, with_name) (All-append (IsGiven variables) names (name ∷ []) h (g, tt))
]

length-with_name_le :
    (name : Str) (names : List Str) → length (with_name name names) ≤ length names + 1
unfolding with_name
length-with_name_le name names = elim (Bool-cases (any (str_eq name) names)) [
  | inl e ↦ rw (e, with_name) (omega arith)
  | inr e ↦ rw (e, with_name) (omega (arith, length-append names (name ∷ [])))
]

noted-ok :
    (name : Str) (names : List Str)
    → validate_name name ≡ ok tt
    → length names + 1 ≤ max_tags
    → noted name names ≡ ok (with_name name names)
unfolding noted
noted-ok name names v h =
    let few : ltb max_tags (length (with_name name names)) ≡ false =
      ground (arith, length-with_name_le name names) in
    rw (v, few) refl

abbrev Covered : Variables → Listed → Type 0
Covered variables l = (names : List Str) × (l ≡ some (ok names)) × All (IsGiven variables) names

module _ (variables : Variables) (escape : Bool) (r : Str) where
  look_on-Covered :
      (again : Str → Str → ℕ → Rendered) (list : Str → List Str → Listed) (rest out : Str) (n : ℕ)
      (names : List Str) (found : Result Problem (Option Tag))
      → length names ≤ n
      → All (IsGiven variables) names
      → ((after o : Str) (k : ℕ) (more : List Str)
          → length more ≤ k
          → All (IsGiven variables) more
          → again after o k ≡ some (ok r)
          → Covered variables (list after more))
      → go_on again variables escape rest out n found ≡ some (ok r)
      → Covered variables (look_on list names found)
  unfolding go_on look_on
  look_on-Covered again list rest out n names (err e) few g ih h = absurd (ground arith)
  look_on-Covered again list rest out n names (ok none) few g ih h = (names, refl, g)
  look_on-Covered again list rest out n names (ok (some t)) few g ih h =
      let (o, made, h') = written_made again t.after n _ r h in
      let (value, valid, found, e, fewer) = substitute_made variables escape n _ t.name o made in
      let same = noted-ok t.name names valid (omega arith) in
      subst (λ x. Covered variables (kept list t.after x)) (sym same)
        (unfold kept in
          ih t.after o (n + 1) (with_name t.name names)
            (omega (arith, length-with_name_le t.name names))
            (with_name-IsGiven variables t.name names (value, found) g) h')

  tags_loop-Covered :
      (fuel : ℕ) (rest out : Str) (n : ℕ) (names : List Str)
      → length names ≤ n
      → All (IsGiven variables) names
      → render_loop fuel variables escape rest out n ≡ some (ok r)
      → Covered variables (tags_loop fuel rest names)
  unfolding render_loop tags_loop
  tags_loop-Covered zero rest out n names few g h = absurd (ground arith)
  tags_loop-Covered (suc fuel) rest out n names few g h =
      look_on-Covered (render_loop fuel variables escape) (tags_loop fuel) rest out n names
        (next_tag rest) few g (λ after o k more m a q. tags_loop-Covered fuel after o k more m a q)
        h

-- Where `Render` returns a text, `Tags` of the same template lists names without an error, and each
-- of them has a value among the variables.
pub tags-IsGiven :
    (tmpl : Str) (variables : Variables) (escape : Bool) (out : Str)
    → render tmpl variables escape ≡ some (ok out)
    → (names : List Str) × (tags tmpl ≡ some (ok names)) × All (IsGiven variables) names
unfolding tags
tags-IsGiven tmpl variables escape out h =
    let (small, valid, made) = render_made tmpl variables escape out h in
    let fits : ltb max_template_bytes (length tmpl) ≡ false = ground arith in
    rw fits (
      tags_loop-Covered variables escape out (suc (length tmpl)) tmpl [] 0 [] (omega arith) tt made)
