-- ===== src/Console/Tests.antt =====
-- Tests of internal/console: an operator who signs in, revokes and signs out. The hash is no hash, and
-- the encoding no base64, but with its laws.
use ai_email.Base.{
  ◌+◌, ◌-◌, ◌==◌, ◌≡◌, ◌⊎◌, refl, ap, ap₂, true, false, some, [], ◌∷◌, ◌++◌, map, any, Str, codes,
  str_eq, ok, err, arith, Lacks, split, first_field,
}
use ai_email.Console.{
  Hashing, PasswordHash, Form, Request, State, to_login, hash_password, parse_password_hash, verify,
  login, login_with, started, create, get, destroy, logout, guard_post, short_password,
  wrong_format, of_parts,
}
use ai_email.Console.Guarded.{IsAllowed, guard_post_sound}
use ai_email.Console.Alive.{here, next, creates, gets}
use ai_email.Console.Ended
use ai_email.Console.Ended.{logout_lasts}
use ai_email.Console.Password.{hashed_password_accepted, login_opens}
use ai_email.Store.Tests.{a_store}

abbrev shifting : Hashing
shifting = record {
  id_key = λ password salt. password ++ salt;
  encode64 = λ s. map (λ c. c + 100) s;
  decode64 = λ s. some (map (λ c. c - 100) s);
}

shifted_back : (s : Str) → map (λ c. c - 100) (map (λ c. c + 100) s) ≡ s
shifted_back [] = refl
shifted_back (c ∷ s) = ap₂ (λ x t. x ∷ t) (omega arith) (shifted_back s)

no_dollar : (s : Str) → Lacks b'$' (map (λ c. c + 100) s)
no_dollar [] = refl
no_dollar (c ∷ s) =
    let other : (c + 100 == b'$') ≡ false = ground arith in rw (other, any) (no_dollar s)

abbrev password : Str
password = codes "correct horse"

abbrev stored : PasswordHash
stored = record { salt = codes "s"; hash = password ++ codes "s" }

hashed_password_accepted_example :
    (p : PasswordHash) × (parse_password_hash shifting (
        codes "argon2id"
        ++ (b'$'
            ∷ (shifting.encode64 (codes "s")
                ++ (b'$' ∷ shifting.encode64 (password ++ codes "s")))))
      ≡ ok p)
    × (verify shifting p password ≡ true)
unfolding hash_password
hashed_password_accepted_example =
    hashed_password_accepted shifting (codes "s") password _
      (record { decoded = λ s. ap some (shifted_back s); undollared = no_dollar }) refl

abbrev form : Form
form = record { csrf = codes "c"; password = password; address = []; id = codes "1" }

abbrev request : Request
request = record { cookie = some (codes "i"); form = some form }

abbrev before : State
before = record { store = a_store; live = [] }

abbrev tokens : Str × Str
tokens = (codes "i", codes "c")

abbrev signed_in : State
signed_in = (login shifting stored (some tokens) request before).1

-- Another login, and a request with its cookie.
abbrev others_too : State
others_too = record {
  store = a_store;
  live = (get 150 (codes "j") (create 150 (codes "j") (codes "d") signed_in.live)).1;
}

login_opens_example : guard_post logout request others_too ≡ logout form request others_too
unfolding login login_with started verify str_eq
login_opens_example =
    login_opens shifting stored (codes "i") (codes "c") logout form form request request before
      others_too refl refl
      (next (next here (creates 150 (codes "j") (codes "d") signed_in.live (omega arith) refl))
        (gets 150 (codes "j") (create 150 (codes "j") (codes "d") signed_in.live) (omega arith)))
      (omega arith) refl refl refl

guard_post_sound_example :
    ((guard_post logout request signed_in).1.store ≡ a_store)
    ⊎ ((f : Form) × IsAllowed f request signed_in
        × (guard_post logout request signed_in ≡ logout f request signed_in))
unfolding login login_with started verify str_eq
guard_post_sound_example = guard_post_sound logout request signed_in

abbrev signed_out : State
signed_out = (logout form request signed_in).1

abbrev pruned : State
pruned = record { store = a_store; live = destroy (codes "j") signed_out.live }

logout_lasts_example :
    ((guard_post logout request pruned).0 ≡ to_login)
    × ((guard_post logout request pruned).1.store ≡ a_store)
logout_lasts_example =
    logout_lasts logout (codes "i") form request request signed_in pruned refl
      (Ended.next Ended.here (Ended.destroys (codes "j") signed_out.live)) refl

short_refused : hash_password shifting (codes "s") (codes "short") ≡ err short_password
unfolding hash_password
short_refused = refl

plain_refused : parse_password_hash shifting (codes "secret") ≡ err wrong_format
unfolding parse_password_hash split first_field of_parts
plain_refused = refl
