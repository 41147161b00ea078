-- ===== src/Httpapi/Send/Made.antt =====
-- What each step of `buildMessage` in internal/httpapi/send.go has checked when it ends well.
use ai_email.Base.{
  ℕ, ◌≤◌, ◌<◌, ◌≡◌, refl, sym, ap, ◌∙◌, subst, inl, inr, Bool, true, false, not, Option, none, some,
  List, [], ◌∷◌, Str, str_eq, str_eq_sound, Result, ok, err, Member, All, filter, length,
  Bool-cases, Option-cases, arith, ok-inj, some-inj, none-ne-some, err-ne-ok, Unicode,
}
use ai_email.Httpapi.{
  SendRequest, Server, unchecked_recipients, recipients, html_template, text_template,
  subject_template, subject,
}
use ai_email.Httpapi.Send.{
  decode_recipients, blame, unless, some_allowed, rendered, has_content, check_reply_to,
  check_headers, check_tags, in_future, schedule, domain_problem, require_verified, Content,
  content_of, checked_content, allowed_recipients, sending_domain,
}
use ai_email.Mail.{parse_recipients, validate_subject, validate_custom_header}
use ai_email.Mail.Recipients.{parse_recipients_sound}
use ai_email.Store.{Store, DbError, DomainStatus, DomainRow, answered, next_fails, query, statement}
use ai_email.Store.Keeps.{and_then_stops}
use ai_email.Store.Messages.{Domain, domain_by_name, domain_named}
use ai_email.Store.Steps.{lift, calls, >>=-made, calls_made, found_made}
use ai_email.Store.Suppressions.{Digest, filter_suppressed}
use ai_email.Store.Suppressions.Listed.{listed, filter_suppressed_splits}
use ai_email.Template.{render}

All-filter-not :
    (p : Str → Bool) (xs : List Str) → All (λ a. p a ≡ false) (filter (λ a. not (p a)) xs)
All-filter-not p [] = tt
All-filter-not p (x ∷ xs) = elim (Bool-cases (p x)) [
  | inl e ↦ rw (e, filter) (All-filter-not p xs)
  | inr e ↦ rw (e, filter) (e, All-filter-not p xs)
]

length-filter_le : (p : Str → Bool) (xs : List Str) → length (filter p xs) ≤ length xs
length-filter_le p [] = omega arith
length-filter_le p (x ∷ xs) = elim (Bool-cases (p x)) [
  | inl e ↦ rw (e, filter) (omega (arith, length-filter_le p xs))
  | inr e ↦ rw (e, filter) (omega (arith, length-filter_le p xs))
]

query-failing :
    {A : Type 0} (f : Store → A × Store) (s : Store)
    → next_fails s.outage ≡ true
    → query f s ≡ (err statement, answered s)
unfolding query
query-failing f s h = rw h refl

filter_suppressed-failing :
    (u : Unicode) (sha256 : Digest) (a : Str) (addresses : List Str) (s : Store)
    → next_fails s.outage ≡ true
    → filter_suppressed u sha256 (a ∷ addresses) s ≡ (err statement, answered s)
unfolding filter_suppressed
filter_suppressed-failing u sha256 a addresses s h = and_then_stops _ _ s (query-failing _ s h)

filter_suppressed_made :
    (u : Unicode) (sha256 : Digest) (addresses : List Str) (s : Store)
    {parted : List Str × List Str}
    → (filter_suppressed u sha256 addresses s).0 ≡ ok parted
    → parted.0 ≡ filter (λ a. not (listed u sha256 s a)) addresses
unfolding filter_suppressed
filter_suppressed_made u sha256 [] s h = sym (ap (λ (x : List Str × List Str). x.0) (ok-inj h))
filter_suppressed_made u sha256 (a ∷ addresses) s h =
    elim (filter_suppressed_splits u sha256 (a ∷ addresses) s) [
      | inl e ↦ sym (ap (λ (x : List Str × List Str). x.0) (ok-inj (sym e ∙ h)))
      | inr e ↦
          let down = filter_suppressed-failing u sha256 a addresses s e in
          absurd (
            err-ne-ok
              (sym (ap (λ (x : Result DbError (List Str × List Str) × Store). x.0) down) ∙ h))
    ]

pub blame_made : {E F A : Type 0} (f : E → F) (r : Result E A) {a : A} → blame f r ≡ ok a → r ≡ ok a
blame_made f (err e) h = absurd (err-ne-ok h)
blame_made f (ok a) h = ap ok (ok-inj h)

unless_made :
    {E F : Type 0} (f : E → F) (o : Option E) {a : Unit {0}} → unless f o ≡ ok a → o ≡ none
unless_made f none h = refl
unless_made f (some e) h = absurd (err-ne-ok h)

some_allowed_made :
    (parted : List Str × List Str) {out : List Str}
    → some_allowed parted ≡ ok out
    → (out ≡ parted.0) × (0 < length out)
unfolding some_allowed
some_allowed_made ([], blocked) h = absurd (err-ne-ok h)
some_allowed_made (a ∷ allowed, blocked) h = (sym (ok-inj h), omega (arith, ap length (ok-inj h)))

module _ (sv : Server) (s : Store) where
  abbrev pub IsAllowed : Str → Type 0
  IsAllowed a = listed sv.unicode sv.sha256 s a ≡ false

  pub recipients_made :
      (to : Str) (out : List Str)
      → (allowed_recipients sv to s).0 ≡ ok out
      → (0 < length out) × (length out ≤ 50) × All IsAllowed out
  unfolding allowed_recipients
  recipients_made to out h =
      let (list, _, h, _) = >>=-made (lift (decode_recipients sv.json to)) _ s h in
      let (wanted, b, h, _) =
        >>=-made (lift (blame recipients (parse_recipients sv.unicode sv.address_parser list))) _ s
          h in
      let (parted, c, h, _) =
        >>=-made (calls (λ e. unchecked_recipients) (filter_suppressed sv.unicode sv.sha256 wanted))
          _ s h in
      let (same, some_left) = some_allowed_made parted h in
      let (_, few, _, _) =
        parse_recipients_sound sv.unicode sv.address_parser list wanted
          (blame_made recipients _ b) in
      let e =
        same
        ∙ filter_suppressed_made sv.unicode sv.sha256 wanted s
            (calls_made _ (filter_suppressed sv.unicode sv.sha256 wanted) s c) in
      (
        some_left,
        omega (
          arith,
          ap length e,
          length-filter_le (λ a. not (listed sv.unicode sv.sha256 s a)) wanted,
        ),
        subst (All IsAllowed) (sym e) (All-filter-not (listed sv.unicode sv.sha256 s) wanted),
      )

  checked_content_made :
      (req : SendRequest) (c c' : Content) (t : Store)
      → (checked_content sv req c t).0 ≡ ok c'
      → (c' ≡ c) × (validate_subject c.subject ≡ none) × (check_headers sv req.headers ≡ ok tt)
  unfolding checked_content
  checked_content_made req c c' t h =
      let (_, a, h, _) = >>=-made (lift (unless subject (validate_subject c.subject))) _ t h in
      let (_, _, h, _) = >>=-made (lift (has_content c.html c.text)) _ t h in
      let (_, _, h, _) = >>=-made (lift (check_reply_to sv req.reply_to)) _ t h in
      let (_, b, h, _) = >>=-made (lift (check_headers sv req.headers)) _ t h in
      let (_, _, h, _) = >>=-made (lift (check_tags req.tags)) _ t h in
      (sym (ok-inj h), unless_made subject _ a, b)

  pub content_made :
      (req : SendRequest) (c : Content) (t : Store)
      → (content_of sv req t).0 ≡ ok c
      → (validate_subject c.subject ≡ none) × (check_headers sv req.headers ≡ ok tt)
  unfolding content_of
  content_made req c t h =
      let (line, _, h, _) =
        >>=-made (lift (rendered subject_template (render req.subject req.variables false))) _ t
          h in
      let (html, _, h, _) =
        >>=-made (lift (rendered html_template (render req.html req.variables true))) _ t h in
      let (text, _, h, _) =
        >>=-made (lift (rendered text_template (render req.text req.variables false))) _ t h in
      let (same, a, b) = checked_content_made req _ c t h in
      (ap (λ (x : Content). validate_subject x.subject) same ∙ a, b)

  pub schedule_made : (now : ℕ) (raw : Str) (at : ℕ) → schedule sv now raw ≡ ok (some at) → now ≤ at
  unfolding schedule in_future
  schedule_made now [] at h = absurd (none-ne-some (ok-inj h))
  schedule_made now (c ∷ raw) at h = elim (Option-cases (sv.parse_time (c ∷ raw))) [
    | inl e ↦ absurd (ground arith)
    | inr (n, e) ↦ ground arith
  ]

  pub check_headers-All :
      (headers : List (Str × Str))
      → check_headers sv headers ≡ ok tt
      → All (λ (h : Str × Str). validate_custom_header sv.unicode h.0 h.1 ≡ none) headers
  unfolding check_headers
  check_headers-All [] h = tt
  check_headers-All ((name, value) ∷ rest) h =
      elim (Option-cases (validate_custom_header sv.unicode name value)) [
        | inl e ↦ (e, check_headers-All rest (rw (e, check_headers) at h))
        | inr (p, e) ↦ absurd (err-ne-ok (rw (e, check_headers) at h))
      ]

  domain_named_row :
      (name : Str) (rows : List DomainRow) (d : Domain)
      → domain_named name rows ≡ some d
      → (row : DomainRow) × Member row rows
        × (row.name ≡ name)
        × (row.id ≡ d.id)
        × (row.status ≡ d.status)
  unfolding domain_named
  domain_named_row name [] d h = absurd (none-ne-some h)
  domain_named_row name (r ∷ rows) d h = elim (Bool-cases (str_eq r.name name)) [
    | inl e ↦
        let same = some-inj (rw (e, domain_named) at h) in
        (
          r,
          inl refl,
          str_eq_sound r.name name e,
          ap (λ (x : Domain). x.id) same,
          ap (λ (x : Domain). x.status) same,
        )
    | inr e ↦
        let (row, m, n, i, st) = domain_named_row name rows d (rw (e, domain_named) at h) in
        (row, inr m, n, i, st)
  ]

  require_verified_made :
      (d : Domain) (name : Str) {a : Unit {0}}
      → require_verified d name ≡ ok a
      → d.status ≡ DomainStatus.verified
  unfolding require_verified
  require_verified_made d name h = ground arith

  pub domain_made :
      (name : Str) (d : Domain) (t : Store)
      → (sending_domain name t).0 ≡ ok d
      → (row : DomainRow) × Member row t.domains
        × (row.name ≡ name)
        × (row.id ≡ d.id)
        × (row.status ≡ DomainStatus.verified)
  unfolding sending_domain domain_by_name
  domain_made name d t h =
      let (found, a, h, _) = >>=-made (calls (domain_problem name) (domain_by_name name)) _ t h in
      let (_, b, h, _) =
        >>=-made (lift (require_verified found name)) _
          (calls (domain_problem name) (domain_by_name name) t).1 h in
      let (e, _) =
        found_made (λ u. domain_named name u.domains) t (calls_made _ (domain_by_name name) t a) in
      let (row, m, n, i, st) = domain_named_row name t.domains found e in
      (row, m, n, i ∙ ap (λ (x : Domain). x.id) (ok-inj h), st ∙ require_verified_made found name b)
