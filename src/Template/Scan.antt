-- ===== src/Template/Scan.antt =====
-- Where the loops of internal/template/render.go find a tag, and what is left behind it.
use ai_email.Base.{
  ℕ, zero, suc, ◌+◌, ◌-◌, ◌<◌, ◌≡◌, refl, sym, ap, ◌∙◌, none, some, List, [], ◌∷◌, ◌++◌, Str, ok,
  arith, length, length-append, take, drop, index, index_sound, trim_space, subst, append_assoc,
  ok-inj, some-inj, none-ne-some, Option,
}
use ai_email.Template.{Tag, opening, closing, closed, opened, next_tag}

module _ {A : Type 0} where
  take-append : (n : ℕ) (xs ys : List A) → length xs ≡ n → take n (xs ++ ys) ≡ xs
  take-append zero [] ys h = refl
  take-append zero (x ∷ xs) ys h = absurd (omega arith)
  take-append (suc n) [] ys h = absurd (omega arith)
  take-append (suc n) (x ∷ xs) ys h = ap (λ l. x ∷ l) (take-append n xs ys (omega arith))

  drop-append : (n : ℕ) (xs ys : List A) → length xs ≡ n → drop n (xs ++ ys) ≡ ys
  drop-append zero [] ys h = refl
  drop-append zero (x ∷ xs) ys h = absurd (omega arith)
  drop-append (suc n) [] ys h = absurd (omega arith)
  drop-append (suc n) (x ∷ xs) ys h = drop-append n xs ys (omega arith)

-- A text that begins with the opening has its first closing behind it.
closing_behind :
    (pre post s : Str)
    → opening ++ s ≡ pre ++ (closing ++ post)
    → (inner : Str) × (pre ≡ opening ++ inner) × (s ≡ inner ++ (closing ++ post))
closing_behind [] post s h = absurd (ground arith)
closing_behind (c ∷ []) post s h = absurd (ground arith)
closing_behind (c ∷ d ∷ inner) post s h = (inner, ground arith, ground arith)

-- The parts of a tag that is found, where the first opening stands.
pub record Parts (rest : Str) (t : Tag) : Type 0 where
  pub inner : Str
  pub whole : rest ≡ t.before ++ (opening ++ (inner ++ (closing ++ t.after)))
  pub named : t.name ≡ trim_space inner
  pub first : index rest opening ≡ some (length t.before)

abbrev found : Str → ℕ → ℕ → Tag
found rest i j = record {
  before = take i rest;
  name = trim_space (take (i + j - (i + 2)) (drop (i + 2) rest));
  after = drop (i + j + 2) rest;
}

module _ (rest pre inner post : Str) (i j : ℕ)
    (w : rest ≡ pre ++ (opening ++ (inner ++ (closing ++ post)))) (l : length pre ≡ i)
    (m : length inner + 2 ≡ j) where
  found_inner : take (i + j - (i + 2)) (drop (i + 2) rest) ≡ inner
  found_inner =
      ap (take (i + j - (i + 2))) (
        ap (drop (i + 2)) (w ∙ sym (append_assoc pre opening _))
        ∙ drop-append (i + 2) (pre ++ opening) _ (omega (arith, length-append pre opening)))
      ∙ take-append (i + j - (i + 2)) inner _ (omega arith)

  found_after : drop (i + j + 2) rest ≡ post
  found_after =
      ap (drop (i + j + 2)) (
        w
        ∙ ap (λ t. pre ++ (opening ++ t)) (sym (append_assoc inner closing post))
        ∙ ap (λ t. pre ++ t) (sym (append_assoc opening (inner ++ closing) post))
        ∙ sym (append_assoc pre (opening ++ (inner ++ closing)) post))
      ∙ drop-append (i + j + 2) (pre ++ (opening ++ (inner ++ closing))) post (
          omega
            (arith, length-append pre (opening ++ (inner ++ closing)), length-append inner closing))

  found_before : take i rest ≡ pre
  found_before = ap (take i) w ∙ take-append i pre _ l

  found-Parts : index rest opening ≡ some i → Parts rest (found rest i j)
  found-Parts f = record {
    inner = inner;
    whole = w ∙ (λ k. sym found_before k ++ (opening ++ (inner ++ (closing ++ sym found_after k))));
    named = ap trim_space found_inner;
    first = f ∙ ap some (sym l ∙ ap length (sym found_before));
  }

closed-Parts :
    (rest pre s : Str) (i : ℕ) (o : Option ℕ) (t : Tag)
    → rest ≡ pre ++ (opening ++ s)
    → length pre ≡ i
    → index rest opening ≡ some i
    → index (opening ++ s) closing ≡ o
    → closed rest i o ≡ ok (some t)
    → Parts rest t
unfolding closed
closed-Parts rest pre s i none t w l f c h = absurd (ground arith)
closed-Parts rest pre s i (some j) t w l f c h =
    let (pre', post, q, m) = index_sound (opening ++ s) closing j c in
    let (inner, a, b) = closing_behind pre' post s q in
    subst (Parts rest) (some-inj (ok-inj h)) (
      found-Parts rest pre inner post i j (w ∙ ap (λ r. pre ++ (opening ++ r)) b) l
        (omega (arith, ap length a, m)) f)

opened-Parts :
    (rest : Str) (o : Option ℕ) (t : Tag)
    → index rest opening ≡ o
    → opened rest o ≡ ok (some t)
    → Parts rest t
unfolding opened
opened-Parts rest none t e h = absurd (ground arith)
opened-Parts rest (some i) t e h =
    let (pre, post, q, l) = index_sound rest opening i e in
    closed-Parts rest pre post i _ t q l e
      (ap (λ r. index r closing) (sym (ap (drop i) q ∙ drop-append i pre _ l))) h

pub next_tag-Parts : (rest : Str) (t : Tag) → next_tag rest ≡ ok (some t) → Parts rest t
unfolding next_tag
next_tag-Parts rest t h = opened-Parts rest _ t refl h

-- What is left behind a tag is shorter.
pub next_tag-shorter :
    (rest : Str) (t : Tag) → next_tag rest ≡ ok (some t) → length t.after < length rest
next_tag-shorter rest t h =
    let p = next_tag-Parts rest t h in
    omega (
      arith,
      ap length p.whole,
      length-append t.before (opening ++ (p.inner ++ (closing ++ t.after))),
      length-append p.inner (closing ++ t.after),
    )

closed-ne-none : (rest : Str) (i : ℕ) (o : Option ℕ) → closed rest i o ≡ ok none → ⊥
unfolding closed
closed-ne-none rest i none h = ground arith
closed-ne-none rest i (some j) h = none-ne-some (sym (ok-inj h))

opened-none : (rest : Str) (o : Option ℕ) → opened rest o ≡ ok none → o ≡ none
unfolding opened
opened-none rest none h = refl
opened-none rest (some i) h = absurd (closed-ne-none rest i _ h)

pub next_tag-none : (rest : Str) → next_tag rest ≡ ok none → index rest opening ≡ none
unfolding next_tag
next_tag-none rest h = opened-none rest (index rest opening) h
