-- ===== src/Base/Fields.antt =====
-- What `strings.Cut` and `strings.Split` find in a text put together at one byte.
use Prim.Native.Nat.{ℕ}
use mathlib.Core.Path.{◌≡◌, refl, ap}
use mathlib.Core.Bool.{false, true}
use mathlib.Core.Option.{some}
use mathlib.Core.List.{[], ◌∷◌, ◌++◌}
use native.Mathlib.Omega.{arith}
use ai_email.Base.Tests.{◌==◌}
use ai_email.Base.Lists.{any}
use ai_email.Base.Bytes.{Str}
use ai_email.Base.Cuts.{cut, first_field, split}

-- No byte of the text is `b`.
abbrev pub Lacks : ℕ → Str → Type 0
Lacks b s = any (λ c. c == b) s ≡ false

pub Lacks-tail : (b c : ℕ) (s : Str) → Lacks b (c ∷ s) → ((c == b) ≡ false) × Lacks b s
Lacks-tail b c s h = (ground (arith, h), ground (arith, h))

pub cut-append :
    (b : ℕ) (p q : Str) → Lacks b p → (b == b) ≡ true → cut b (p ++ (b ∷ q)) ≡ some (p, q)
unfolding cut
cut-append b [] q h same = rw same refl
cut-append b (c ∷ p) q h same =
    let (other, rest) = Lacks-tail b c p h in rw (other, cut) (rw (cut-append b p q rest same) refl)

pub split-append :
    (b : ℕ) (p q : Str) → Lacks b p → (b == b) ≡ true → split b (p ++ (b ∷ q)) ≡ p ∷ split b q
unfolding split first_field
split-append b [] q h same = rw same refl
split-append b (c ∷ p) q h same =
    let (other, rest) = Lacks-tail b c p h in
    rw (other, split) (ap (first_field c) (split-append b p q rest same))

pub split-lacking : (b : ℕ) (p : Str) → Lacks b p → split b p ≡ p ∷ []
unfolding split first_field
split-lacking b [] h = refl
split-lacking b (c ∷ p) h =
    let (other, rest) = Lacks-tail b c p h in
    rw (other, split) (ap (first_field c) (split-lacking b p rest))
