-- ===== src/Base/Lists.antt =====
-- Lists measured and cut by native numbers, and predicates on lists by recursion.
use Prim.Native.Nat.{ℕ, zero, suc, ◌+◌, ◌≤◌}
use mathlib.Core.Path.{◌≡◌, refl, ap, sym, ◌∙◌, subst}
use mathlib.Core.Logic.{◌⊎◌, inl, inr}
use mathlib.Core.Bool.{Bool, true, false, ◌||◌, ◌&&◌}
use mathlib.Core.List.{List, [], ◌∷◌, ◌++◌, map}
use native.Mathlib.Omega.{arith}

module _ {ℓ} {A : Type ℓ} where
  abbrev pub length : List A → ℕ
  length [] = 0
  length (x ∷ xs) = suc (length xs)

  abbrev pub take : ℕ → List A → List A
  take zero xs = []
  take (suc n) [] = []
  take (suc n) (x ∷ xs) = x ∷ take n xs

  abbrev pub drop : ℕ → List A → List A
  drop zero xs = xs
  drop (suc n) [] = []
  drop (suc n) (x ∷ xs) = drop n xs

  pub length-append : (xs ys : List A) → length (xs ++ ys) ≡ length xs + length ys
  length-append [] ys = omega arith
  length-append (x ∷ xs) ys = omega (arith, length-append xs ys)

  pub take-append-drop : (n : ℕ) (xs : List A) → take n xs ++ drop n xs ≡ xs
  take-append-drop zero xs = refl
  take-append-drop (suc n) [] = refl
  take-append-drop (suc n) (x ∷ xs) = ap (λ l. x ∷ l) (take-append-drop n xs)

  pub take-append : (xs ys : List A) → take (length xs) (xs ++ ys) ≡ xs
  take-append [] ys = refl
  take-append (x ∷ xs) ys = ap (λ l. x ∷ l) (take-append xs ys)

  pub drop-append : (xs ys : List A) → drop (length xs) (xs ++ ys) ≡ ys
  drop-append [] ys = refl
  drop-append (x ∷ xs) ys = drop-append xs ys

  pub length-take_le : (n : ℕ) (xs : List A) → length (take n xs) ≤ n
  length-take_le zero xs = omega arith
  length-take_le (suc n) [] = omega arith
  length-take_le (suc n) (x ∷ xs) = omega (arith, length-take_le n xs)

  pub append-nil' : (xs : List A) → xs ++ [] ≡ xs
  append-nil' [] = refl
  append-nil' (x ∷ xs) = ap (λ l. x ∷ l) (append-nil' xs)

  abbrev pub any : (A → Bool) → List A → Bool
  any p [] = false
  any p (x ∷ xs) = p x || any p xs

  abbrev pub all : (A → Bool) → List A → Bool
  all p [] = true
  all p (x ∷ xs) = p x && all p xs

-- The elements that a test selects.
module _ {ℓ} {A : Type ℓ} where
  abbrev pub filter : (A → Bool) → List A → List A
  filter p [] = []
  filter p (x ∷ xs) = elim (p x) [ true ↦ x ∷ filter p xs | false ↦ filter p xs ]

-- Holds of every element; membership with the place kept.
module _ {ℓ κ} {A : Type ℓ} where
  abbrev pub All : (A → Type κ) → List A → Type κ
  All P [] = Unit
  All P (x ∷ xs) = P x × All P xs

  pub All-append : (P : A → Type κ) (xs ys : List A) → All P xs → All P ys → All P (xs ++ ys)
  All-append P [] ys hx hy = hy
  All-append P (x ∷ xs) ys (p, hx) hy = (p, All-append P xs ys hx hy)

split : (b : Bool) → (b ≡ true) ⊎ (b ≡ false)
split true = inl refl
split false = inr refl

module _ {A : Type 0} where
  abbrev pub Member : A → List A → Type 0
  Member a [] = ⊥
  Member a (x ∷ xs) = (a ≡ x) ⊎ Member a xs

  pub any_sound :
      (p : A → Bool) (xs : List A) → any p xs ≡ true → (x : A) × Member x xs × (p x ≡ true)
  any_sound p [] h = cc
  any_sound p (x ∷ xs) h = elim (split (p x)) [
    | inl e ↦ (x, inl refl, e)
    | inr e ↦ let (y, m, q) = any_sound p xs (rw e at h) in (y, inr m, q)
  ]

  pub any_complete :
      (p : A → Bool) (x : A) (xs : List A) → Member x xs → p x ≡ true → any p xs ≡ true
  any_complete p x [] m h = absurd m
  any_complete p x (y ∷ xs) (inl e) h = ground (arith, ap p e)
  any_complete p x (y ∷ xs) (inr m) h = ground (arith, any_complete p x xs m h)

  pub all-Member : (p : A → Bool) (x : A) (xs : List A) → all p xs ≡ true → Member x xs → p x ≡ true
  all-Member p x [] h m = absurd m
  all-Member p x (y ∷ xs) h (inl e) = ground (arith, ap p e)
  all-Member p x (y ∷ xs) h (inr m) = all-Member p x xs (ground arith) m

  pub mem-filter :
      (p : A → Bool) (a : A) (xs : List A) → Member a (filter p xs) → Member a xs × (p a ≡ true)
  mem-filter p a [] m = absurd m
  mem-filter p a (x ∷ xs) m = elim (split (p x)) [
    | inl e ↦
        let here : (a ≡ x) ⊎ Member a (filter p xs) = rw (e, Member) at m in
        elim here [
          | inl q ↦ (inl q, ap p q ∙ e)
          | inr n ↦ let (k, h) = mem-filter p a xs n in (inr k, h)
        ]
    | inr e ↦ let (n, h) = mem-filter p a xs (rw (e, Member) at m) in (inr n, h)
  ]

  pub filter-Member :
      (p : A → Bool) (a : A) (xs : List A) → Member a xs → p a ≡ true → Member a (filter p xs)
  filter-Member p a [] m h = absurd m
  filter-Member p a (x ∷ xs) (inl q) h = let e = sym (ap p q) ∙ h in rw (e, Member) (inl q)
  filter-Member p a (x ∷ xs) (inr m) h = elim (split (p x)) [
    | inl e ↦ rw (e, Member) (inr (filter-Member p a xs m h))
    | inr e ↦ rw (e, Member) (filter-Member p a xs m h)
  ]

  pub mem-append : (a : A) (xs ys : List A) → Member a (xs ++ ys) → Member a xs ⊎ Member a ys
  mem-append a [] ys m = inr m
  mem-append a (x ∷ xs) ys (inl e) = inl (inl e)
  mem-append a (x ∷ xs) ys (inr m) = elim (mem-append a xs ys m) [
    | inl n ↦ inl (inr n)
    | inr n ↦ inr n
  ]

  pub mem-take : (n : ℕ) (a : A) (xs : List A) → Member a (take n xs) → Member a xs
  mem-take zero a xs m = absurd m
  mem-take (suc n) a [] m = absurd m
  mem-take (suc n) a (x ∷ xs) (inl e) = inl e
  mem-take (suc n) a (x ∷ xs) (inr m) = inr (mem-take n a xs m)

  pub All-Member : (P : A → Type 0) (a : A) (xs : List A) → All P xs → Member a xs → P a
  All-Member P a [] h m = absurd m
  All-Member P a (x ∷ xs) (h, hs) (inl e) = subst P (sym e) h
  All-Member P a (x ∷ xs) (h, hs) (inr m) = All-Member P a xs hs m

  pub All-of-Member : (P : A → Type 0) (xs : List A) → ((a : A) → Member a xs → P a) → All P xs
  All-of-Member P [] f = tt
  All-of-Member P (x ∷ xs) f = (f x (inl refl), All-of-Member P xs (λ a m. f a (inr m)))

  pub filter-eq : (p q : A → Bool) (xs : List A) → ((x : A) → p x ≡ q x) → filter p xs ≡ filter q xs
  filter-eq p q [] h = refl
  filter-eq p q (x ∷ xs) h = ground (arith, h x, filter-eq p q xs h)

module _ {A B : Type 0} where
  pub length-map : (xs : List A) (f : A → B) → length (map f xs) ≡ length xs
  length-map [] f = refl
  length-map (x ∷ xs) f = ap suc (length-map xs f)

  pub mem-map :
      (f : A → B) (b : B) (xs : List A) → Member b (map f xs) → (a : A) × Member a xs × (b ≡ f a)
  mem-map f b [] m = absurd m
  mem-map f b (x ∷ xs) (inl e) = (x, inl refl, e)
  mem-map f b (x ∷ xs) (inr m) = let (a, n, e) = mem-map f b xs m in (a, inr n, e)
