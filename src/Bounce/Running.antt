-- ===== src/Bounce/Running.antt =====
-- One name to unfold for a run of `Classify`.
use ai_email.Base.{itoa, join, fields_by, to_lower, contains, lookup, str_eq, has_prefix}
use ai_email.Bounce.{
  verdict_suppresses, classify, classify_codes, classify_reply, capped, is_complaint, by_reply_code,
  by_status, by_first_digit, find_reply_code, first_reply_code, reply_code, is_reply_separator,
  find_enhanced_status, find_enhanced_from, parse_status, sections, after_dot, section, digit_run,
  is_digit, max_report_bytes, complaint_phrases, hard_status, soft_status,
}

unfoldable pub running : Unit {0}
unfolding verdict_suppresses classify classify_codes classify_reply capped is_complaint
    by_reply_code by_status by_first_digit find_reply_code first_reply_code reply_code
    is_reply_separator find_enhanced_status find_enhanced_from parse_status sections after_dot
    section digit_run is_digit max_report_bytes complaint_phrases hard_status soft_status itoa join
    fields_by to_lower contains lookup str_eq has_prefix
running = tt
