-- ===== src/Httpapi/Unsubscribing/Stops.antt =====
-- A link of internal/unsubscribe/token.go, followed, puts the recipient on the suppression list.
use ai_email.Base.{
  ℕ, ◌+◌, ◌-◌, ◌*◌, ◌/◌, ◌^◌, ◌≤◌, ◌≡◌, refl, sym, ap, ◌∙◌, subst, Bool, true, ◌||◌, some, Str,
  codes, str_eq, str_eq_refl, Result, ok, to_lower, trim_space, arith,
}
use ai_email.Httpapi.{Reply, Request, Server}
use ai_email.Httpapi.Unsubscribing.{remove, removal_reply, handle_unsubscribe, render_unsubscribe}
use ai_email.Store.{Store, DbError}
use ai_email.Store.Keeps.{Up, exec-Up}
use ai_email.Store.Suppressions.{suppress, suppression_hash}
use ai_email.Store.Suppressions.Listed.{listed, suppress_lists}
use ai_email.Unsubscribe.{Token, second, lifetime, sign, verify}
use ai_email.Base.{Lacks}
use ai_email.Unsubscribe.Roundtrip.{verify-sign}

suppress-Up :
    (sv : Server) (address reason detail id : Str) (s : Store)
    → Up s
    → suppress sv.unicode sv.sha256 address reason detail id s
      ≡ (ok tt, (suppress sv.unicode sv.sha256 address reason detail id s).1)
unfolding suppress
suppress-Up sv address reason detail id s up =
    exec-Up _ s up
    ∙ ap (λ (x : Result DbError (Unit {0}) × Store). (ok tt, x.1)) (sym (exec-Up _ s up))

or_true : (a b : Bool) → b ≡ true → (a || b) ≡ true
or_true a b h = ground arith

abbrev Removed : Server → Token → Reply × Store → Type 0
Removed sv claim x =
    (x.0.status ≡ 200)
    × ((b : Str)
        → suppression_hash sv.unicode sv.sha256 claim.address
          ≡ suppression_hash sv.unicode sv.sha256 b
        → listed sv.unicode sv.sha256 x.1 b ≡ true)

remove-Removed :
    (sv : Server) (claim : Token) (s : Store) → Up s → Removed sv claim (remove sv (ok claim) s)
unfolding remove
remove-Removed sv claim s up =
    let reason = codes "unsubscribe" in
    let detail = codes "requested by the recipient" in
    let done = suppress-Up sv claim.address reason detail claim.message_id s up in
    let (lists, _) =
      suppress_lists sv.unicode sv.sha256 claim.address reason detail claim.message_id s _ done in
    (
      ap (λ (x : Result DbError (Unit {0}) × Store). (removal_reply x.0).status) done
          ∙ (unfold removal_reply render_unsubscribe in refl),
      λ b e.
          lists b
          ∙ or_true _ _ (
              subst (λ h. str_eq (suppression_hash sv.unicode sv.sha256 claim.address) h ≡ true) e
                (str_eq_refl (suppression_hash sv.unicode sv.sha256 claim.address))),
    )

-- While the database is up, a POST with a token that `Sign` made for a message id and an address
-- without zero bytes is answered with 200 until the token expires; then every address is on the
-- suppression list that has the hash of the trimmed and lowered address.
pub unsubscribe_stops :
    (sv : Server) (id address : Str) (made : ℕ) (r : Request) (s : Store)
    → ((x : Str) → sv.codec.decode64 (sv.codec.encode64 x) ≡ some x)
    → ((x : Str) → Lacks b'.' (sv.codec.encode64 x))
    → Lacks 0 id
    → Lacks 0 (to_lower sv.unicode (trim_space address))
    → (made + lifetime) / second ≤ 2 ^ 63 - 1
    → s.now ≤ (made + lifetime) / second * second
    → Up s
    → r.token ≡ sign sv.unicode sv.codec sv.unsubscribe_secret id address made
    → ((handle_unsubscribe sv r s).0.status ≡ 200)
      × ((b : Str)
          → suppression_hash sv.unicode sv.sha256 (to_lower sv.unicode (trim_space address))
            ≡ suppression_hash sv.unicode sv.sha256 b
          → listed sv.unicode sv.sha256 (handle_unsubscribe sv r s).1 b ≡ true)
unfolding handle_unsubscribe
unsubscribe_stops sv id address made r s decodes no_dot h k few live up e =
    let claim : Token = record {
      message_id = id;
      address = to_lower sv.unicode (trim_space address);
      expires_at = (made + lifetime) / second;
    } in
    subst (λ v. Removed sv claim (remove sv v s))
      (sym (
        ap (λ x. verify sv.codec sv.unsubscribe_secret x s.now) e
        ∙ verify-sign sv.unicode sv.codec sv.unsubscribe_secret id address made s.now decodes no_dot
            h k few live))
      (remove-Removed sv claim s up)
