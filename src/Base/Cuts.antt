-- ===== src/Base/Cuts.antt =====
-- What the source uses of Go's `strings` to take a text apart at one byte.
use Prim.Native.Nat.{ℕ}
use mathlib.Core.Option.{Option, none, some}
use mathlib.Core.List.{List, [], ◌∷◌}
use ai_email.Base.Tests.{◌==◌, if◌then◌else◌}
use ai_email.Base.Bytes.{Str}
use ai_email.Base.Text.{trim_space}

-- `strings.Cut` and `strings.Split` at one byte.
unfoldable pub cut : ℕ → Str → Option (Str × Str)
cut b [] = none
cut b (c ∷ s) =
    if c == b
    then some ([], s)
    else elim (cut b s) [ none ↦ none | some (before, after) ↦ some (c ∷ before, after) ]

unfoldable pub first_field : ℕ → List Str → List Str
first_field c [] = (c ∷ []) ∷ []
first_field c (f ∷ fields) = (c ∷ f) ∷ fields

unfoldable pub split : ℕ → Str → List Str
split b [] = [] ∷ []
split b (c ∷ s) = if c == b then [] ∷ split b s else first_field c (split b s)

-- The parts that are not blank, trimmed: the loop that the source runs over a split text.
abbrev keep : Str → List Str → List Str
keep [] parts = parts
keep (c ∷ s) parts = (c ∷ s) ∷ parts

unfoldable pub trimmed_parts : List Str → List Str
trimmed_parts [] = []
trimmed_parts (p ∷ parts) = keep (trim_space p) (trimmed_parts parts)
