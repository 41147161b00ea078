-- ===== src/Bounce/Tests.antt =====
-- Runs of `Classify` on inputs like those of classify_test.go.
use ai_email.Base.{◌≡◌, ◌↔◌, refl, ◌++◌, codes, Str, Member, to_lower, ascii_only}
use ai_email.Bounce.{Kind, unknown, soft, hard, complaint, complaint_phrases, capped, classify}
use ai_email.Bounce.Complaints.{classify_complaint_iff}
use ai_email.Bounce.Running.{running}

kind_of : Str → Kind
kind_of s = (classify ascii_only s).kind

classify_tests :
    (kind_of (codes "550 5.1.1 no such user") ≡ hard)
    × (kind_of (codes "452 4.2.2 mailbox full") ≡ soft)
    × (kind_of (codes "552 5.2.2 mailbox full") ≡ soft)
    × (kind_of (codes "Feedback-Type: abuse") ≡ complaint)
    × (kind_of (codes "421 service not available") ≡ soft)
    × (kind_of (codes "550 rejected") ≡ hard)
    × (kind_of (codes "nothing here 12.0.4.1.1") ≡ soft)
    × (kind_of (codes "hello") ≡ unknown)
unfolding kind_of running
classify_tests = (refl, refl, refl, refl, refl, refl, refl, refl)

classify_complaint_iff_example :
    ((classify ascii_only (codes "5.1.1 Spam Report")).kind ≡ complaint) ↔ (
      (phrase : Str) × Member phrase complaint_phrases
      × (pre : Str) × (post : Str) × (to_lower ascii_only (capped (codes "5.1.1 Spam Report"))
          ≡ pre ++ (phrase ++ post)))
classify_complaint_iff_example = classify_complaint_iff ascii_only (codes "5.1.1 Spam Report")
