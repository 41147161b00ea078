-- ===== src/Httpapi/Unsubscribing.antt =====
-- internal/httpapi/unsubscribe.go: the page behind an unsubscribe link, and the removal. The request's
-- `token` is the path's; the headers that are the same on every page are `page_headers`.
pub mod Stops
mod Tests
use ai_email.Base.{
  ℕ, Bool, true, false, List, [], ◌∷◌, ◌++◌, Str, codes, Result, ok, err, str_eq, not,
  if◌then◌else◌,
}
use ai_email.Httpapi.{Reply, page, Request, Server}
use ai_email.Store.{Store, DbError}
use ai_email.Store.Suppressions.{suppress}
use ai_email.Template.{escape_html}
use ai_email.Unsubscribe.{Problem, expired, Token, verify}

abbrev pub page_headers : List (Str × Str)
page_headers =
    (codes "Content-Type", codes "text/html; charset=utf-8")
    ∷ (
      codes "Content-Security-Policy",
      codes "default-src 'none'; style-src 'unsafe-inline'; form-action 'self'; "
          ++ codes "base-uri 'none'; frame-ancestors 'none'",
    )
    ∷ (codes "X-Content-Type-Options", codes "nosniff")
    ∷ (codes "X-Frame-Options", codes "DENY")
    ∷ (codes "Cache-Control", codes "no-store")
    ∷ (codes "Referrer-Policy", codes "no-referrer")
    ∷ []

abbrev pub style : Str
style =
    codes "<style>body{background:#0b0f14;color:#e5e7eb;font:16px/1.6 system-ui,sans-serif;"
    ++ (codes "display:grid;place-items:center;min-height:90vh;margin:0}\n"
        ++ (codes "main{max-width:26rem;padding:2rem;text-align:center}\n"
            ++ (codes
                  "button{font:inherit;background:#1a2331;color:#e5e7eb;border:1px solid #1f2937;"
                ++ (codes "border-radius:.5rem;padding:.6rem 1.2rem;cursor:pointer}\n"
                    ++ codes ".muted{color:#9ca3af;font-size:.9rem}</style>"))))

unfoldable pub problem_page : Str → Str
problem_page problem =
    codes "<!doctype html><title>Unsubscribe</title>"
    ++ (style
        ++ (codes "<main><h1>Unsubscribe</h1><p>" ++ (escape_html problem ++ codes "</p></main>")))

unfoldable pub confirm_page : Str → Str
confirm_page address =
    codes "<!doctype html><title>Unsubscribe</title>"
    ++ (style
        ++ (codes "<main><h1>Unsubscribe</h1><p>Stop sending email to <strong>"
            ++ (escape_html address
                ++ (codes "</strong>?</p>"
                    ++ (codes
                          "<form method=\"post\"><button type=\"submit\">Unsubscribe me</button></form>"
                        ++ codes
                            "<p class=\"muted\">Nothing changes until you confirm.</p></main>")))))

abbrev pub done_page : Str
done_page =
    codes "<!doctype html><title>Unsubscribed</title>"
    ++ (style
        ++ (codes "<main><h1>Unsubscribed</h1><p>You will not receive further email from this "
            ++ codes "sender.</p></main>"))

-- The switch of `renderUnsubscribe`.
unfoldable pub page_of : Str → Str → Str
page_of (c ∷ problem) address = problem_page (c ∷ problem)
page_of [] (c ∷ address) = confirm_page (c ∷ address)
page_of [] [] = done_page

-- `renderUnsubscribe`
unfoldable pub render_unsubscribe : ℕ → Str → Str → Reply
render_unsubscribe status problem address = record {
  status = status;
  headers = page_headers;
  body = page (page_of problem address);
}

abbrev pub bad_link : Str
bad_link = codes "This unsubscribe link is not valid or has expired."

abbrev pub try_again : Str
try_again = codes "Something went wrong. Please try again."

unfoldable pub form_reply : Result Problem Token → Reply
form_reply (err _) = render_unsubscribe 400 bad_link []
form_reply (ok claim) = render_unsubscribe 200 [] claim.address

-- `handleUnsubscribeForm`
unfoldable pub handle_unsubscribe_form : Server → Request → Store → Reply × Store
handle_unsubscribe_form sv r s =
    (form_reply (verify sv.codec sv.unsubscribe_secret r.token s.now), s)

unfoldable pub problem_status : Problem → ℕ
problem_status expired = 410
problem_status _ = 400

unfoldable pub removal_reply : Result DbError (Unit {0}) → Reply
removal_reply (err _) = render_unsubscribe 500 try_again []
removal_reply (ok _) = render_unsubscribe 200 [] []

unfoldable pub remove : Server → Result Problem Token → Store → Reply × Store
remove sv (err e) s = (render_unsubscribe (problem_status e) bad_link [], s)
remove sv (ok claim) s =
    let (r, t) =
      suppress sv.unicode sv.sha256 claim.address (codes "unsubscribe")
        (codes "requested by the recipient") claim.message_id s in
    (removal_reply r, t)

-- `handleUnsubscribe`
unfoldable pub handle_unsubscribe : Server → Request → Store → Reply × Store
handle_unsubscribe sv r s = remove sv (verify sv.codec sv.unsubscribe_secret r.token s.now) s
