-- ===== src/Webhook/Sign/Trusted.antt =====
-- What `Verify` of internal/webhook/sign.go has checked of a request that it accepts.
use ai_email.Base.{
  ℕ, ◌≤◌, ◌*◌, ◌+◌, ◌≡◌, refl, sym, ap, ◌∙◌, Bool, true, false, Option, none, some, Str, str_eq,
  str_eq_sound, Result, ok, err, >>=-eq-ok, err-ne-ok, ok-inj, if◌then◌else◌, ℤ, pos, negsuc, suc,
  arith,
}
use ai_email.Webhook.Sign.{
  Signing, Problem, code_of, replay_window, second, created_from, is_outside, in_window, trim_byte,
  without_label, or_not_base64, matching, no_match, outside_window, verify,
}

-- A time of signing that is within the window of a time.
pub IsFresh : ℕ → ℤ → Type 0
IsFresh now (pos created) =
    (now ≤ created * second + replay_window) × (created * second ≤ now + replay_window)
IsFresh now (negsuc n) = now + suc n * second ≤ replay_window

-- A request whose signature stands for its content.
pub record IsSigned (g : Signing) (method target body secret input signature : Str) (now : ℕ)
    : Type 0 where
  pub created : ℤ
  pub dated : created_from input ≡ ok created
  pub fresh : IsFresh now created
  pub code :
      g.decode64 (trim_byte b':' (without_label signature))
      ≡ some (code_of g method target body secret created)

is_outside-IsFresh : (now : ℕ) (created : ℤ) → is_outside now created ≡ false → IsFresh now created
unfolding is_outside IsFresh
is_outside-IsFresh now (pos created) h = (ground (arith, h), ground (arith, h))
is_outside-IsFresh now (negsuc n) h = ground (arith, h)

no_error :
    (b : Bool) (e : Problem)
    → ◌≡◌ {A = Result Problem (Unit {0})} (if b then err e else ok tt) (ok tt)
    → b ≡ false
no_error true e h = absurd (err-ne-ok h)
no_error false e h = refl

in_window-IsFresh : (now : ℕ) (created : ℤ) → in_window now created ≡ ok tt → IsFresh now created
unfolding in_window
in_window-IsFresh now created h =
    is_outside-IsFresh now created (no_error (is_outside now created) outside_window h)

of_match :
    (b : Bool)
    → ◌≡◌ {A = Result Problem (Unit {0})} (if b then ok tt else err no_match) (ok tt)
    → b ≡ true
of_match true h = refl
of_match false h = absurd (err-ne-ok h)

matching_equal : (want got : Str) → matching want got ≡ ok tt → want ≡ got
unfolding matching
matching_equal want got h = str_eq_sound want got (of_match (str_eq want got) h)

or_not_base64-ok : (o : Option Str) (got : Str) → or_not_base64 o ≡ ok got → o ≡ some got
unfolding or_not_base64
or_not_base64-ok none got h = absurd (err-ne-ok h)
or_not_base64-ok (some s) got h = ap some (ok-inj h)

-- A signature that `Verify` accepts decodes to the authentication code of this method, target and
-- body with the time in the signature input, and that time is within five minutes of now.
pub signature_sound :
    (g : Signing) (method target body secret input signature : Str) (now : ℕ)
    → verify g method target body secret input signature now ≡ ok tt
    → IsSigned g method target body secret input signature now
unfolding verify
signature_sound g method target body secret input signature now h =
    let (created, dated, h1) = >>=-eq-ok (created_from input) _ h in
    let (_, fresh, h2) = >>=-eq-ok (in_window now created) _ h1 in
    let (got, decoded, h3) =
      >>=-eq-ok (or_not_base64 (g.decode64 (trim_byte b':' (without_label signature)))) _ h2 in
    record {
      created = created;
      dated = dated;
      fresh = in_window-IsFresh now created fresh;
      code = or_not_base64-ok _ got decoded ∙ ap some (sym (matching_equal _ got h3));
    }
