-- ===== src/Webhook/Sign/Verified.antt =====
-- `Verify` of internal/webhook/sign.go on what `Sign` wrote.
use ai_email.Base.{
  ℕ, ◌+◌, ◌-◌, ◌*◌, ◌/◌, ◌^◌, ◌≤◌, ◌≡◌, refl, sym, ap, ap₂, ◌∙◌, subst, false, ◌&&◌, ◌||◌, some, [],
  ◌∷◌, ◌++◌, All, Str, codes, str_eq, str_eq_refl, ok, ltb, leb, ◌==◌, taken, not_taken,
  append-nil', index, has_prefix, itoa, itoa-digits, itoa-cons, parse_int-itoa, parse_int, to_upper,
  space_width, reverse_onto, ℤ, pos, option_bind, arith,
}
use ai_email.Webhook.Sign.{
  Signing, second, replay_window, label, params_start, params_end, decimal, signature_params,
  signature_base, content_digest, normalize_target, unix, code_of, sign, skip_spaces, run_of_digits,
  signed_run, scan_int, parameter, or_unreadable, after_marker, created_from, is_outside, in_window,
  drop_byte, trim_byte, without_label, or_not_base64, matching, verify,
}

abbrev Digits : Str → Type 0
Digits s = All (λ c. (48 ≤ c) × (c ≤ 57)) s

parameter-Digits : (s rest : Str) → Digits s → parameter (s ++ (b';' ∷ rest)) ≡ s
unfolding parameter
parameter-Digits [] rest h = refl
parameter-Digits (c ∷ s) rest ((low, high), h) =
    let other : (c == b';' || c == b',') ≡ false = ground arith in
    rw (other, parameter) (ap (λ t. c ∷ t) (parameter-Digits s rest h))

run_of_digits-Digits : (s : Str) → Digits s → run_of_digits s ≡ s
unfolding run_of_digits
run_of_digits-Digits [] h = refl
run_of_digits-Digits (c ∷ s) ((low, high), h) =
    taken (leb b'0' c && leb c b'9') _ _ (ground arith) ∙ ap (λ t. c ∷ t) (run_of_digits-Digits s h)

no_space : (c : ℕ) (s : Str) → 48 ≤ c → c ≤ 57 → space_width (c ∷ s) ≡ 0
unfolding space_width
no_space c [] low high = ground arith
no_space c (d ∷ []) low high = ground arith
no_space c (d ∷ e ∷ s) low high = ground arith

skip_spaces-digit : (c : ℕ) (s : Str) → 48 ≤ c → c ≤ 57 → skip_spaces 0 (c ∷ s) ≡ some (c ∷ s)
unfolding skip_spaces
skip_spaces-digit c s low high =
    not_taken (c == b'\n') _ _ (ground arith)
    ∙ taken (space_width (c ∷ s) == 0) _ _ (ap (λ w. w == 0) (no_space c s low high))

signed_run-Digits : (c : ℕ) (s : Str) → Digits (c ∷ s) → signed_run (c ∷ s) ≡ c ∷ s
unfolding signed_run
signed_run-Digits c s ((low, high), h) =
    not_taken (c == b'-' || c == b'+') _ _ (ground arith)
    ∙ run_of_digits-Digits (c ∷ s) ((low, high), h)

scan_int-cons : (c : ℕ) (s : Str) → Digits (c ∷ s) → scan_int (c ∷ s) ≡ parse_int (c ∷ s)
unfolding scan_int
scan_int-cons c s h =
    ap (λ o. option_bind o (λ t. parse_int (signed_run t))) (skip_spaces-digit c s h.0.0 h.0.1)
    ∙ ap parse_int (signed_run-Digits c s h)

scan_int-itoa : (n : ℕ) → n ≤ 2 ^ 63 - 1 → scan_int (itoa n) ≡ some (pos n)
scan_int-itoa n few =
    let (c, rest, shape) = itoa-cons n in
    ap scan_int shape
    ∙ scan_int-cons c rest (subst Digits shape (itoa-digits n))
    ∙ ap parse_int (sym shape)
    ∙ parse_int-itoa n few

created_at :
    (x : Str) → created_from (label ++ (params_start ++ x)) ≡ or_unreadable (scan_int (parameter x))
unfolding created_from after_marker index has_prefix
created_at x = refl

created_from-signature_params :
    (n : ℕ) → n ≤ 2 ^ 63 - 1 → created_from (label ++ signature_params (pos n)) ≡ ok (pos n)
unfolding signature_params decimal or_unreadable
created_from-signature_params n few =
    created_at (itoa n ++ params_end)
    ∙ ap (λ t. or_unreadable (scan_int t)) (parameter-Digits (itoa n) _ (itoa-digits n))
    ∙ ap or_unreadable (scan_int-itoa n few)

-- No byte of the text is a colon.
abbrev pub Uncoloned : Str → Type 0
Uncoloned s = All (λ c. (c == b':') ≡ false) s

reverse_onto-snoc :
    (s : Str) (b : ℕ) (acc : Str) → reverse_onto (s ++ (b ∷ [])) acc ≡ b ∷ reverse_onto s acc
unfolding reverse_onto
reverse_onto-snoc [] b acc = refl
reverse_onto-snoc (c ∷ s) b acc = reverse_onto-snoc s b (c ∷ acc)

reverse_onto_twice :
    (s acc t : Str) → reverse_onto (reverse_onto s acc) t ≡ reverse_onto acc (s ++ t)
unfolding reverse_onto
reverse_onto_twice [] acc t = refl
reverse_onto_twice (c ∷ s) acc t = reverse_onto_twice s (c ∷ acc) t

reverse_onto-Uncoloned :
    (s acc : Str) → Uncoloned s → Uncoloned acc → Uncoloned (reverse_onto s acc)
unfolding reverse_onto
reverse_onto-Uncoloned [] acc h k = k
reverse_onto-Uncoloned (c ∷ s) acc (l, h) k = reverse_onto-Uncoloned s (c ∷ acc) h (l, k)

drop_byte-Uncoloned : (s : Str) → Uncoloned s → drop_byte b':' s ≡ s
unfolding drop_byte
drop_byte-Uncoloned [] h = refl
drop_byte-Uncoloned (c ∷ s) (l, h) = not_taken (c == b':') _ _ l

trim_end :
    (s : Str)
    → Uncoloned s
    → reverse_onto (drop_byte b':' (reverse_onto (s ++ codes ":") [])) [] ≡ s
unfolding drop_byte reverse_onto
trim_end s h =
    ap (λ t. reverse_onto (drop_byte b':' t) []) (reverse_onto-snoc s b':' [])
    ∙ ap (λ t. reverse_onto t [])
        (drop_byte-Uncoloned (reverse_onto s []) (reverse_onto-Uncoloned s [] h tt))
    ∙ reverse_onto_twice s [] []
    ∙ append-nil' s

trim_byte-colons : (s : Str) → Uncoloned s → trim_byte b':' (b':' ∷ (s ++ codes ":")) ≡ s
unfolding trim_byte drop_byte reverse_onto
trim_byte-colons [] h = refl
trim_byte-colons (c ∷ s) (l, h) =
    ap (λ t. reverse_onto (drop_byte b':' (reverse_onto t [])) []) (not_taken (c == b':') _ _ l)
    ∙ trim_end (c ∷ s) (l, h)

unlabelled : (s : Str) → without_label (label ++ s) ≡ s
unfolding without_label has_prefix
unlabelled s = refl

-- What is used of base64: it decodes what it encoded, which has no colon.
pub record Decodes (g : Signing) : Type 0 where
  pub decoded : (s : Str) → g.decode64 (g.encode64 s) ≡ some s
  pub uncoloned : (s : Str) → Uncoloned (g.encode64 s)

mac_decoded :
    (g : Signing)
    → Decodes g
    → (mac : Str)
    → or_not_base64 (
        g.decode64
          (trim_byte b':' (without_label (label ++ (b':' ∷ (g.encode64 mac ++ codes ":"))))))
      ≡ ok mac
unfolding or_not_base64
mac_decoded g d mac =
    ap (λ t. or_not_base64 (g.decode64 (trim_byte b':' t))) (unlabelled _)
    ∙ ap (λ t. or_not_base64 (g.decode64 t)) (trim_byte-colons (g.encode64 mac) (d.uncoloned mac))
    ∙ ap or_not_base64 (d.decoded mac)

within :
    (rounded created now : ℕ)
    → created ≤ now + replay_window
    → now + second ≤ created + replay_window
    → rounded ≤ created
    → created ≤ rounded + second
    → (ltb (rounded + replay_window) now || ltb (now + replay_window) rounded) ≡ false
within rounded created now a b low high = ground arith

in_window-near :
    (created now : ℕ)
    → created ≤ now + replay_window
    → now + second ≤ created + replay_window
    → in_window now (unix created) ≡ ok tt
unfolding in_window is_outside
in_window-near created now a b =
    let low : created / second * second ≤ created = omega arith in
    let high : created ≤ created / second * second + second = omega arith in
    not_taken
      (ltb (created / second * second + replay_window) now
        || ltb (now + replay_window) (created / second * second))
      _ _ (within (created / second * second) created now a b low high)

code_of-alike :
    (g : Signing) (method asked target seen body secret : Str) (created : ℤ)
    → to_upper g.unicode method ≡ to_upper g.unicode asked
    → normalize_target g target ≡ normalize_target g seen
    → code_of g method target body secret created ≡ code_of g asked seen body secret created
unfolding code_of signature_base
code_of-alike g method asked target seen body secret created e f =
    ap₂
      (λ m t. g.hmac secret (
        codes "\"@method\": "
        ++ (m
            ++ (codes "\n\"@target-uri\": "
                ++ (t
                    ++ (codes "\n\"content-digest\": "
                        ++ (content_digest g body
                            ++ (codes "\n\"@signature-params\": "
                                ++ signature_params created))))))))
      e f

matching_same : (want got : Str) → got ≡ want → matching want got ≡ ok tt
unfolding matching
matching_same want got h = taken (str_eq want got) _ _ (ap (str_eq want) h ∙ str_eq_refl want)

-- With a base64 that decodes what it encoded and writes no colon: what `Sign` wrote is accepted for
-- the same body, a method that is the same in capitals and a target that normalises alike, from five
-- minutes before the time of signing until a second less than five minutes after it, if that time in
-- seconds fits an int64.
pub verify_signed :
    (g : Signing) (method asked target seen body secret : Str) (created now : ℕ)
    → Decodes g
    → to_upper g.unicode method ≡ to_upper g.unicode asked
    → normalize_target g target ≡ normalize_target g seen
    → created / second ≤ 2 ^ 63 - 1
    → created ≤ now + replay_window
    → now + second ≤ created + replay_window
    → let signed = sign g method target body secret created in
      verify g asked seen body secret signed.signature_input signed.signature now ≡ ok tt
unfolding verify sign
verify_signed g method asked target seen body secret created now d e f few early late =
    rw (created_from-signature_params (created / second) few) (
      rw (in_window-near created now early late) (
        rw (mac_decoded g d (code_of g method target body secret (unix created))) (
          matching_same _ _
            (code_of-alike g method asked target seen body secret (unix created) e f))))
