-- ===== src/Webhook/Sign.antt =====
-- internal/webhook/sign.go: the signature of a webhook request, over its method, target, body and
-- time. A time is in nanoseconds, `created` in seconds.
pub mod Verified
pub mod Trusted
mod Tests
use ai_email.Base.{
  ℕ, zero, suc, ◌+◌, ◌-◌, ◌*◌, ◌/◌, Bool, true, false, not, ◌||◌, ◌&&◌, Option, none, some, List,
  [], ◌∷◌, ◌++◌, Str, codes, str_eq, Result, ok, err, ◌>>=◌, ◌>>◌, ltb, leb, ◌==◌, if◌then◌else◌,
  drop, length, index, itoa, to_upper, Unicode, has_prefix, space_width, reverse_onto, ℤ, pos,
  negsuc, parse_int, option_bind,
}

-- What is used of a URL that `url.Parse` read: its path, and `String` of it with a path.
pub record Target : Type 0 where
  pub path : Str
  pub with_path : Str → Str

pub record Signing : Type 0 where
  pub unicode : Unicode
  pub sha256 : Str → Str
  pub hmac : Str → Str → Str
  pub encode64 : Str → Str
  pub decode64 : Str → Option Str
  pub parse_target : Str → Option Target

pub data Problem : Type 0 where
  no_created unreadable_created outside_window not_base64 no_match : Problem

abbrev pub second : ℕ
second = 1000000000

abbrev pub replay_window : ℕ
replay_window = 5 * (60 * second)

-- `ContentDigest`
unfoldable pub content_digest : Signing → Str → Str
content_digest g body = codes "sha-256=:" ++ (g.encode64 (g.sha256 body) ++ codes ":")

abbrev pub or_root : Str → Str
or_root [] = codes "/"
or_root (c ∷ path) = c ∷ path

unfoldable pub normalized : Str → Option Target → Str
normalized raw none = raw
normalized raw (some t) = t.with_path (or_root t.path)

-- `NormalizeTarget`
unfoldable pub normalize_target : Signing → Str → Str
normalize_target g raw = normalized raw (g.parse_target raw)

-- `%d`
unfoldable pub decimal : ℤ → Str
decimal (pos n) = itoa n
decimal (negsuc n) = b'-' ∷ itoa (suc n)

abbrev pub params_start : Str
params_start = codes "(\"@method\" \"@target-uri\" \"content-digest\");created="

abbrev pub params_end : Str
params_end = codes ";keyid=\"aiemail\";alg=\"hmac-sha256\""

-- `signatureParams`
unfoldable pub signature_params : ℤ → Str
signature_params created = params_start ++ (decimal created ++ params_end)

-- `SignatureBase`
unfoldable pub signature_base : Signing → Str → Str → Str → ℤ → Str
signature_base g method target digest created =
    codes "\"@method\": "
    ++ (to_upper g.unicode method
        ++ (codes "\n\"@target-uri\": "
            ++ (normalize_target g target
                ++ (codes "\n\"content-digest\": "
                    ++ (digest
                        ++ (codes "\n\"@signature-params\": " ++ signature_params created))))))

-- The headers that `Sign` sets.
pub record Signed : Type 0 where
  pub content_digest : Str
  pub signature_input : Str
  pub signature : Str

abbrev pub unix : ℕ → ℤ
unix t = pos (t / second)

-- What `Sign` and `Verify` compute of a request.
unfoldable pub code_of : Signing → Str → Str → Str → Str → ℤ → Str
code_of g method target body secret created =
    g.hmac secret (signature_base g method target (content_digest g body) created)

abbrev pub label : Str
label = codes "sig1="

-- `Sign`, with the method and the URL of the request.
unfoldable pub sign : Signing → Str → Str → Str → Str → ℕ → Signed
sign g method target body secret created = record {
  content_digest = content_digest g body;
  signature_input = label ++ signature_params (unix created);
  signature =
      label
      ++ (b':' ∷ (g.encode64 (code_of g method target body secret (unix created)) ++ codes ":"));
}

-- `fmt.Sscanf(s, "%d", …)`: spaces but no line break, a sign, and digits; the rest is not read.
unfoldable pub skip_spaces : ℕ → Str → Option Str
skip_spaces skip [] = some []
skip_spaces (suc skip) (c ∷ s) = skip_spaces skip s
skip_spaces zero (c ∷ s) =
    let w = space_width (c ∷ s) in
    let rest = skip_spaces (w - 1) s in
    if c == b'\n' then none else if w == 0 then some (c ∷ s) else rest

unfoldable pub run_of_digits : Str → Str
run_of_digits [] = []
run_of_digits (c ∷ s) =
    let rest = run_of_digits s in if leb b'0' c && leb c b'9' then c ∷ rest else []

unfoldable pub signed_run : Str → Str
signed_run [] = []
signed_run (c ∷ s) = if c == b'-' || c == b'+' then c ∷ run_of_digits s else run_of_digits (c ∷ s)

unfoldable pub scan_int : Str → Option ℤ
scan_int s = option_bind (skip_spaces 0 s) (λ t. parse_int (signed_run t))

-- The text before the first `;` or `,`.
unfoldable pub parameter : Str → Str
parameter [] = []
parameter (c ∷ s) = let rest = parameter s in if c == b';' || c == b',' then [] else c ∷ rest

abbrev pub marker : Str
marker = codes "created="

unfoldable pub or_unreadable : Option ℤ → Result Problem ℤ
or_unreadable none = err unreadable_created
or_unreadable (some created) = ok created

unfoldable pub after_marker : Str → Option ℕ → Result Problem ℤ
after_marker input none = err no_created
after_marker input (some i) = or_unreadable (scan_int (parameter (drop (i + length marker) input)))

-- `createdFrom`
unfoldable pub created_from : Str → Result Problem ℤ
created_from input = after_marker input (index input marker)

-- Whether the age is more than the window, or less than its negative.
unfoldable pub is_outside : ℕ → ℤ → Bool
is_outside now (pos created) =
    ltb (created * second + replay_window) now || ltb (now + replay_window) (created * second)
is_outside now (negsuc n) = ltb replay_window (now + suc n * second)

unfoldable pub in_window : ℕ → ℤ → Result Problem (Unit {0})
in_window now created = if is_outside now created then err outside_window else ok tt

unfoldable pub drop_byte : ℕ → Str → Str
drop_byte b [] = []
drop_byte b (c ∷ s) = let rest = drop_byte b s in if c == b then rest else c ∷ s

-- `strings.Trim(s, …)` of one byte.
unfoldable pub trim_byte : ℕ → Str → Str
trim_byte b s = reverse_onto (drop_byte b (reverse_onto (drop_byte b s) [])) []

unfoldable pub without_label : Str → Str
without_label s = if has_prefix s label then drop (length label) s else s

unfoldable pub or_not_base64 : Option Str → Result Problem Str
or_not_base64 none = err not_base64
or_not_base64 (some got) = ok got

unfoldable pub matching : Str → Str → Result Problem (Unit {0})
matching want got = if str_eq want got then ok tt else err no_match

-- `Verify`
unfoldable pub verify : Signing → Str → Str → Str → Str → Str → Str → ℕ → Result Problem (Unit {0})
verify g method target body secret input signature now = do
  created ← created_from input
  in_window now created
  got ← or_not_base64 (g.decode64 (trim_byte b':' (without_label signature)))
  matching (code_of g method target body secret created) got
