-- ===== src/Crypto/Tests.antt =====
-- Tests of internal/crypto/envelope.go, with a cipher that only shifts.
use ai_email.Base.{
  ◌+◌, ◌-◌, ◌≡◌, refl, ap, ap₂, inr, Option, some, List, [], ◌∷◌, map, Str, codes, str_eq, err,
  arith, ascii_only,
}
use ai_email.Store.{Store, attempt}
use ai_email.Store.Messages.{
  NewMessage, insert_message, insert_row, pack_recipients, row_of, accepted_of,
}
use ai_email.Store.Queue.{has_id}
use ai_email.Store.Tests.{a_store, a_request}
use ai_email.Crypto.{Aead, wrap, unwrap, keeper_of, no_plaintext, bad_ciphertext}
use ai_email.Crypto.Kept.{Opens, IsKept, insert_message_kept}

abbrev pub shifting : Aead
shifting = record {
  nonce_size = 2;
  seal = λ nonce s. map (λ c. c + 100) s;
  open_sealed = λ nonce s. some (map (λ c. c - 100) s);
}

shifted_back : (s : Str) → map (λ c. c - 100) (map (λ c. c + 100) s) ≡ s
shifted_back [] = refl
shifted_back (c ∷ s) = ap₂ (λ x t. x ∷ t) (omega arith) (shifted_back s)

pub shifting-Opens : Opens shifting
shifting-Opens = record {
  opened = λ nonce text n. ap some (shifted_back text);
  has_nonce = omega arith;
}

abbrev first : List Str → Str
first [] = []
first (s ∷ _) = s

abbrev single : Str → Option (List Str)
single s = some (s ∷ [])

abbrev closed_store : Store
closed_store = record a_store { keeper = some (keeper_of shifting first single (codes "no")) }

abbrev to_one : NewMessage
to_one = record a_request { recipients = codes "c@d.org" ∷ [] }

abbrev stored : Store
stored = (insert_message ascii_only (λ s. s) to_one closed_store).1

insert_message_kept_example : IsKept to_one closed_store stored
unfolding insert_message pack_recipients insert_row attempt keeper_of wrap has_id str_eq
insert_message_kept_example =
    insert_message_kept ascii_only (λ s. s) first single to_one closed_store stored
      (accepted_of (row_of to_one ([], [], []) closed_store.now))
      (inr (shifting, codes "no", shifting-Opens, refl, refl)) refl refl

wrap_empty : wrap shifting (codes "no") [] ≡ err no_plaintext
unfolding wrap
wrap_empty = refl

unwrap_short : unwrap shifting (codes "n") ≡ err bad_ciphertext
unfolding unwrap
unwrap_short = refl
