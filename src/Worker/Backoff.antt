-- ===== src/Worker/Backoff.antt =====
-- The delays of `Backoff` of internal/worker/worker.go.
use native.Mathlib.Nat.{pow-succ'}
use ai_email.Base.{
  ℕ, zero, suc, ◌+◌, ◌-◌, ◌*◌, ◌^◌, ◌≤◌, ◌≡◌, ◌||◌, refl, ap, ◌∙◌, min, inl, inr, ltb, leb, ◌==◌,
  if◌then◌else◌, arith, Bool-cases,
}
use ai_email.Worker.{minute, max_backoff, backoff}

pow_positive : (n : ℕ) → 1 ≤ 2 ^ n
pow_positive zero = omega arith
pow_positive (suc n) = omega (arith, pow_positive n, pow-succ' 2 n)

pow_ge : (d : ℕ) → 512 ≤ 2 ^ (9 + d)
pow_ge zero = omega arith
pow_ge (suc d) =
    let next : 9 + suc d ≡ suc (9 + d) = omega arith in
    omega (arith, ap (λ k. 2 ^ k) next, pow-succ' 2 (9 + d), pow_ge d)

capped :
    (d : ℕ)
    → 1 ≤ d
    → (if ltb max_backoff (minute * d) || minute * d == 0 then max_backoff else minute * d)
      ≡ min (minute * d) max_backoff
capped d h = ground arith

large : (n : ℕ) → 20 ≤ n → 512 ≤ 2 ^ n
large n h =
    let same : n ≡ 9 + (n - 9) = omega arith in omega (arith, ap (λ k. 2 ^ k) same, pow_ge (n - 9))

delay : ℕ → ℕ
delay k = let d = minute * 2 ^ k in if ltb max_backoff d || d == 0 then max_backoff else d

first_of : (n : ℕ) → (if ltb (suc n) 1 then 1 else suc n) - 1 ≡ n
first_of n = ground arith

backoff-suc : (n : ℕ) → backoff (suc n) ≡ delay (min n 20)
unfolding backoff delay
backoff-suc n = ap (λ k. delay (min k 20)) (first_of n)

delay_lem : (k : ℕ) → delay k ≡ min (minute * 2 ^ k) max_backoff
unfolding delay
delay_lem k = capped (2 ^ k) (pow_positive k)

-- The delay after a first attempt (or none) is a minute; after every further attempt it is doubled,
-- until it would be above six hours: from then on it is six hours.
pub backoff_exact :
    (backoff 0 ≡ minute) × ((n : ℕ) → backoff (suc n) ≡ min (minute * 2 ^ n) max_backoff)
unfolding backoff
backoff_exact = (
  refl,
  λ n. backoff-suc n ∙ delay_lem (min n 20) ∙ elim (Bool-cases (leb n 20)) [
    | inl e ↦ ap (λ k. min (minute * 2 ^ k) max_backoff) (ground arith)
    | inr e ↦
        ap (λ k. min (minute * 2 ^ k) max_backoff) {y = 20} (ground arith)
        ∙ omega (arith, large n (ground arith))
  ],
)
