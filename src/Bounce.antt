-- ===== src/Bounce.antt =====
-- internal/bounce/classify.go: the class of a delivery failure.
-- `Classify` is total: the loops are recursions on the text or on the sections left.
pub mod Scan
pub mod Cases
pub mod Outcomes
pub mod Complaints
pub mod Classes
pub mod Running
mod Tests
use ai_email.Base.{
  ℕ, zero, suc, ◌+◌, ◌-◌, ◌*◌, ◌^◌, Bool, true, false, ◌&&◌, ◌||◌, not, Option, none, some, List,
  [], ◌∷◌, ◌++◌, Str, codes, str_eq, lookup, Unicode, to_lower, contains, any, length, take, join,
  itoa, fields_by, ltb, leb, ◌==◌, if◌then◌else◌, option_bind,
}

pub data Kind : Type 0 where
  unknown soft hard complaint : Kind

-- `Kind.String`
unfoldable pub kind_name : Kind → Str
kind_name soft = codes "soft"
kind_name hard = codes "hard"
kind_name complaint = codes "complaint"
kind_name unknown = codes "unknown"

-- `Kind.Suppresses`
unfoldable pub suppresses : Kind → Bool
suppresses hard = true
suppresses complaint = true
suppresses _ = false

pub record Verdict : Type 0 where
  pub kind : Kind
  pub status : Str
  pub reason : Str
  pub retryable : Bool

-- `Result.Suppresses`
unfoldable pub verdict_suppresses : Verdict → Bool
unfolding suppresses
verdict_suppresses r = suppresses r.kind

unfoldable pub hard_status : List (Str × Str)
hard_status =
    (codes "5.1.1", codes "no such user")
    ∷ (codes "5.1.2", codes "no such domain")
    ∷ (codes "5.1.3", codes "invalid address syntax")
    ∷ (codes "5.1.6", codes "mailbox has moved")
    ∷ (codes "5.1.10", codes "no such user, address rejected")
    ∷ (codes "5.2.1", codes "mailbox disabled")
    ∷ (codes "5.4.4", codes "unable to route to destination")
    ∷ (codes "5.5.4", codes "invalid recipient")
    ∷ (codes "5.7.27", codes "sender address rejected by policy")
    ∷ []

unfoldable pub soft_status : List (Str × Str)
soft_status =
    (codes "4.2.2", codes "mailbox full")
    ∷ (codes "4.2.1", codes "mailbox disabled temporarily")
    ∷ (codes "4.3.2", codes "system not accepting messages")
    ∷ (codes "4.4.1", codes "no answer from host")
    ∷ (codes "4.4.2", codes "bad connection")
    ∷ (codes "4.5.3", codes "too many recipients")
    ∷ (codes "4.7.0", codes "policy deferral, often greylisting")
    ∷ (codes "4.7.1", codes "delivery not authorised, try later")
    ∷ (codes "4.7.28", codes "rate limited by the destination")
    ∷ (codes "5.2.2", codes "mailbox full")
    ∷ []

unfoldable pub complaint_phrases : List Str
complaint_phrases =
    codes "abuse report"
    ∷ codes "feedback-type: abuse"
    ∷ codes "this is an email abuse report"
    ∷ codes "complaint about message"
    ∷ codes "spam report"
    ∷ []

unfoldable pub max_report_bytes : ℕ
max_report_bytes = 2 ^ 20

unfoldable pub is_digit : ℕ → Bool
is_digit b = leb b'0' b && leb b b'9'

-- The inner loop of `parseStatus`: the run of digits at the front, and what follows it.
unfoldable pub digit_run : Str → Str × Str
digit_run [] = ([], [])
digit_run (c ∷ s) =
    let (run, rest) = digit_run s in if is_digit c then (c ∷ run, rest) else ([], c ∷ s)

-- One section: a run of one to three digits.
unfoldable pub section : Str → Option (Str × Str)
section s =
    let (run, rest) = digit_run s in
    if length run == 0 || ltb 3 (length run) then none else some (run, rest)

-- `if end >= len(s) || s[end] != '.'`: what follows the dot.
unfoldable pub after_dot : Str → Option Str
after_dot [] = none
after_dot (c ∷ s) = if c == b'.' then some s else none

-- The sections that are left, with as many dots between them.
unfoldable pub sections : ℕ → Str → Option (List Str)
sections zero s = option_bind (section s) (λ (run, rest). some (run ∷ []))
sections (suc dots) s = option_bind (section s) λ (run, rest).
    option_bind (after_dot rest)
      (λ more. option_bind (sections dots more) (λ parts. some (run ∷ parts)))

unfoldable pub parse_status : Str → Option Str
parse_status s = option_bind (sections 2 s) (λ parts. some (join (codes ".") parts))

-- The loop of `findEnhancedStatus` from one index on; `after_digit` is `i > 0 && isDigit(s[i-1])`.
unfoldable pub find_enhanced_from : Bool → Str → Option Str
find_enhanced_from after_digit [] = none
find_enhanced_from after_digit (c ∷ s) =
    let later = find_enhanced_from (is_digit c) s in
    if not (c == b'4') && not (c == b'5')
    then later
    else if after_digit
    then later
    else elim (parse_status (c ∷ s)) [ none ↦ later | some status ↦ some status ]

unfoldable pub find_enhanced_status : Str → Option Str
find_enhanced_status s = find_enhanced_from false s

unfoldable pub is_reply_separator : ℕ → Bool
is_reply_separator r = r == 32 || r == 10 || r == 13 || r == 9 || r == b'-'

-- One field that may be a reply code.
unfoldable pub reply_code : Str → Option ℕ
reply_code (a ∷ b ∷ c ∷ []) =
    if is_digit a && is_digit b && is_digit c
    then (let code = (a - 48) * 100 + (b - 48) * 10 + (c - 48) in
        if leb 200 code && leb code 599 then some code else none)
    else none
reply_code _ = none

unfoldable pub first_reply_code : List Str → Option ℕ
first_reply_code [] = none
first_reply_code (f ∷ fields) =
    let later = first_reply_code fields in
    elim (reply_code f) [ none ↦ later | some code ↦ some code ]

unfoldable pub find_reply_code : Str → Option ℕ
find_reply_code s = first_reply_code (fields_by is_reply_separator s)

abbrev pub verdict : Kind → Str → Str → Bool → Verdict
verdict k status reason retryable = record {
  kind = k;
  status = status;
  reason = reason;
  retryable = retryable;
}

abbrev pub permanent_reason : Str
permanent_reason = codes "permanent failure reported by the destination"

abbrev pub temporary_reason : Str
temporary_reason = codes "temporary failure reported by the destination"

-- `switch status[0]`, which has no default case.
unfoldable pub by_first_digit : Str → Option Verdict
by_first_digit [] = none
by_first_digit (c ∷ s) =
    if c == b'5'
    then some (verdict hard (c ∷ s) permanent_reason false)
    else if c == b'4'
    then some (verdict soft (c ∷ s) temporary_reason true)
    else none

unfoldable pub by_status : Str → Option Verdict
by_status status = elim (lookup status hard_status) [
  | some reason ↦ some (verdict hard status reason false)
  | none ↦ elim (lookup status soft_status) [
    | some reason ↦ some (verdict soft status reason true)
    | none ↦ by_first_digit status
  ]
]

unfoldable pub by_reply_code : ℕ → Option Verdict
by_reply_code code =
    if leb 500 code
    then some (verdict hard (itoa code) permanent_reason false)
    else if leb 400 code
    then some (verdict soft (itoa code) temporary_reason true)
    else none

abbrev pub unclassified : Verdict
unclassified = verdict unknown [] (codes "could not classify the response") true

-- `response = response[:MaxReportBytes]` where it is longer.
unfoldable pub capped : Str → Str
capped response =
    if ltb max_report_bytes (length response) then take max_report_bytes response else response

unfoldable pub is_complaint : Unicode → Str → Bool
is_complaint u response = any (contains (to_lower u response)) complaint_phrases

-- The two searches after the complaint phrases; a switch that returns nothing falls through.
unfoldable pub classify_reply : Str → Verdict
classify_reply response = elim (option_bind (find_reply_code response) by_reply_code) [
  | some v ↦ v
  | none ↦ unclassified
]

unfoldable pub classify_codes : Str → Verdict
classify_codes response = elim (option_bind (find_enhanced_status response) by_status) [
  | some v ↦ v
  | none ↦ classify_reply response
]

unfoldable pub classify : Unicode → Str → Verdict
classify u response =
    let response' = capped response in
    if is_complaint u response'
    then verdict complaint [] (codes "recipient reported the message as spam") false
    else classify_codes response'
