-- ===== src/Worker/Webhooks/Trust.antt =====
-- What the domain checker of internal/worker/webhooks.go does to the domains' trust.
use ai_email.Base.{
  ℕ, ◌≡◌, refl, ap, sym, ◌∙◌, Bool, false, inl, inr, List, [], ◌∷◌, map, Option, none, some, ok,
  Bool-cases, Result-cases, if◌then◌else◌, Str, str_eq, trim_space, Unicode, Member, All,
  All-Member, All-of-Member, mem-map, mem-take, mem-filter, ok-inj, err-ne-ok, subst, ap₂,
}
use ai_email.Dnsverify.{
  lookup_error, Resolver, Failure, lookup_fail, verify, of_lookup, recheckable,
}
use ai_email.Store.{DomainStatus, DomainRow, Store, next_fails, query, update_where}
use ai_email.Store.Keeps.{exec_moves, query_moves}
use ai_email.Store.Queue.Claim.{mem-sort_by}
use ai_email.Store.Domains.{
  DomainProof, check_order, has_domain_id, update_domain, domains_due_for_recheck,
  touch_domain_check,
}
use ai_email.Worker.Webhooks.{
  settle_domain, recheck, recheck_all, domain_tick, domain_recheck_interval, domain_batch,
}

-- The status that one check gives to a domain.
unfoldable pub trust_after : Option Failure → DomainStatus → DomainStatus
trust_after none status = DomainStatus.verified
trust_after (some lookup_fail) status = status
trust_after (some _) status = DomainStatus.suspended

abbrev Checked : ℕ → (DomainStatus → DomainStatus) → Store → DomainRow → Type 0
Checked id g s r =
    (q : DomainRow) × Member q s.domains
    × (r.id ≡ q.id)
    × (r.status ≡ (if has_domain_id id q then g q.status else q.status))

abbrev pub statuses : Store → List DomainStatus
statuses s = map (λ (d : DomainRow). d.status) s.domains

statuses-update_where :
    (test : DomainRow → Bool) (f : DomainRow → DomainRow) (rows : List DomainRow)
    → ((r : DomainRow) → (f r).status ≡ r.status)
    → map (λ (d : DomainRow). d.status) (update_where test f rows)
      ≡ map (λ (d : DomainRow). d.status) rows
unfolding update_where
statuses-update_where test f [] same = refl
statuses-update_where test f (r ∷ rows) same = elim (Bool-cases (test r)) [
  | inl e ↦ rw (e, map) (ap₂ (λ x xs. x ∷ xs) (same r) (statuses-update_where test f rows same))
  | inr e ↦ rw (e, map) (ap (λ xs. r.status ∷ xs) (statuses-update_where test f rows same))
]

touched :
    (before : List DomainStatus) (id : ℕ) (s : Store)
    → statuses s ≡ before
    → statuses (touch_domain_check id s).1 ≡ before
unfolding touch_domain_check update_domain
touched before id s h =
    exec_moves (λ t. statuses t ≡ before) (λ t. statuses t ≡ before) _ s (λ t q. q) (λ t q. q)
      (λ t q. statuses-update_where (has_domain_id id) _ t.domains (λ r. refl) ∙ q) h

-- A domain that has a name and a token.
abbrev pub Provable : DomainRow → Type 0
Provable d =
    (str_eq (trim_space d.name) [] ≡ false) × (str_eq (trim_space d.verification_token) [] ≡ false)

down_verdict :
    (u : Unicode) (lookup : Resolver) (name token : Str)
    → ((n : Str) → lookup n ≡ lookup_error)
    → str_eq (trim_space name) [] ≡ false
    → str_eq (trim_space token) [] ≡ false
    → verify u lookup name token ≡ some lookup_fail
unfolding verify of_lookup
down_verdict u lookup name token down h k = rw (h, k, down _) refl

recheck_down :
    (u : Unicode) (lookup : Resolver) (before : List DomainStatus) (d : DomainProof) (s : Store)
    → verify u lookup d.name d.token ≡ some lookup_fail
    → statuses s ≡ before
    → statuses (recheck u lookup d s) ≡ before
unfolding recheck settle_domain recheckable
recheck_down u lookup before d s v h = rw (v, map) (touched before d.id s h)

recheck_all_down :
    (u : Unicode) (lookup : Resolver) (before : List DomainStatus) (due : List DomainProof)
    (s : Store)
    → All (λ d. verify u lookup d.name d.token ≡ some lookup_fail) due
    → statuses s ≡ before
    → statuses (recheck_all u lookup due s) ≡ before
unfolding recheck_all
recheck_all_down u lookup before [] s vs h = h
recheck_all_down u lookup before (d ∷ due) s (v, vs) h =
    recheck_all_down u lookup before due _ vs (recheck_down u lookup before d s v h)

due_statuses :
    (s : Store)
    → statuses (domains_due_for_recheck domain_recheck_interval domain_batch s).1 ≡ statuses s
unfolding domains_due_for_recheck
due_statuses s = query_moves (λ t. statuses t ≡ statuses s) _ s (λ t q. q) (λ t q. q) refl

due_down :
    (u : Unicode) (lookup : Resolver) (s : Store) (due : List DomainProof)
    → ((n : Str) → lookup n ≡ lookup_error)
    → All Provable s.domains
    → (domains_due_for_recheck domain_recheck_interval domain_batch s).0 ≡ ok due
    → All (λ d. verify u lookup d.name d.token ≡ some lookup_fail) due
unfolding domains_due_for_recheck query
due_down u lookup s due down provable h = elim (Bool-cases (next_fails s.outage)) [
  | inl e ↦ absurd (err-ne-ok (rw e at h))
  | inr e ↦
      subst (All (λ d. verify u lookup d.name d.token ≡ some lookup_fail)) (ok-inj (rw e at h)) (
        All-of-Member _ _ (λ d m.
          let (row, n, same) = mem-map _ d _ m in
          let (in_rows, _) =
            mem-filter _ row s.domains
              (mem-sort_by check_order row _ (mem-take domain_batch row _ n)) in
          let (named, tokened) = All-Member Provable row s.domains provable in_rows in
          subst (λ (x : DomainProof). verify u lookup x.name x.token ≡ some lookup_fail) (sym same)
            (down_verdict u lookup row.name row.verification_token down named tokened)))
]

-- While every lookup fails, and if each domain has a name and a token that are not blank, a round
-- of the domain checker changes no domain's status, whatever the database answers.
pub domain_tick_outage :
    (u : Unicode) (lookup : Resolver) (s : Store)
    → ((n : Str) → lookup n ≡ lookup_error)
    → All Provable s.domains
    → statuses (domain_tick u lookup s).1 ≡ statuses s
unfolding domain_tick
domain_tick_outage u lookup s down provable =
    let asked : statuses (domains_due_for_recheck domain_recheck_interval domain_batch s).1
        ≡ statuses s =
      due_statuses s in
    elim (Result-cases (domains_due_for_recheck domain_recheck_interval domain_batch s).0) [
      | inr (problem, e) ↦ rw (e, map) asked
      | inl (due, e) ↦
          rw (e, map)
            (recheck_all_down u lookup (statuses s) due _ (due_down u lookup s due down provable e)
              asked)
    ]
