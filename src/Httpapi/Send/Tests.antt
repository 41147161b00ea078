-- ===== src/Httpapi/Send/Tests.antt =====
-- A request that is accepted, and the same where sending is switched off.
use ai_email.Base.{
  ◌≡◌, ◌⊎◌, refl, false, runes, runes_from, decode, trim_space, trim_start, reverse_onto,
  space_width, space_width_back, to_lower, is_ascii, lower_byte, index, has_prefix, lookup, str_eq,
}
use ai_email.Httpapi.{Server}
use ai_email.Httpapi.Send.{
  accept_send, prepare_send, enabled, read_body, decoded, build_message, decode_recipients,
  allowed_recipients, some_allowed, content_of, checked_content, rendered, has_content,
  check_reply_to, check_headers, check_tags, schedule, sending_domain, require_verified, limited,
  check_quota, below_quota, accepted_reply, handle_send,
}
use ai_email.Httpapi.Send.Prepared.{IsPrepared, IsAccepted, handle_send_accepts}
use ai_email.Httpapi.Send.Refuses.{handle_send_refuses}
use ai_email.Httpapi.Tests.{sample_server, sample_key, sample_request, keyed_store}
use ai_email.Mail.{
  parse_address, contains_control, is_control, has_blank, addr_spec, last_index, split_domain,
  parse_recipients, collect, mem_str, validate_subject,
}
use ai_email.Store.{Store, query, attempt, and_then, exec}
use ai_email.Store.Domains.{found_or}
use ai_email.Store.Keys.{key_of, sends_in_last_hour, sent_lately}
use ai_email.Store.Messages.{
  NewMessage, domain_by_name, domain_named, enqueue_message, transaction, accept_steps,
  insert_message, insert_row, pack_recipients,
}
use ai_email.Store.Queue.{has_id}
use ai_email.Store.Reads.{Reads}
use ai_email.Store.Suppressions.{
  filter_suppressed, found_hashes, split_found, suppression_hash, normalize_address,
}
use ai_email.Template.{
  is_plain, validate_name, validate_names, escape_byte, escape_html, closed, opened, next_tag,
  value_of, shown, within, substitute, finish, written, go_on, render_loop, render,
}

sample_accepted :
    (handle_send sample_server (key_of sample_key) sample_request keyed_store).0.status ≡ 202
unfolding handle_send accept_send prepare_send enabled read_body decoded build_message
    decode_recipients allowed_recipients some_allowed content_of checked_content rendered
    has_content check_reply_to check_headers check_tags schedule sending_domain require_verified
    limited check_quota below_quota accepted_reply parse_address contains_control is_control
    has_blank addr_spec last_index split_domain parse_recipients collect mem_str validate_subject
    runes runes_from decode trim_space trim_start reverse_onto space_width space_width_back to_lower
    is_ascii lower_byte index has_prefix lookup str_eq query attempt and_then exec found_or
    sends_in_last_hour sent_lately domain_by_name domain_named enqueue_message transaction
    accept_steps insert_message insert_row pack_recipients has_id filter_suppressed found_hashes
    split_found suppression_hash normalize_address is_plain validate_name validate_names escape_byte
    escape_html closed opened next_tag value_of shown within substitute finish written go_on
    render_loop render
sample_accepted = refl

handle_send_accepts_example :
    (m : NewMessage) × (t : Store) × IsPrepared sample_server
      (key_of sample_key)
      sample_request
      keyed_store
      m
    × Reads keyed_store t
    × IsAccepted sample_server m t
        (handle_send sample_server (key_of sample_key) sample_request keyed_store).0
        (handle_send sample_server (key_of sample_key) sample_request keyed_store).1
handle_send_accepts_example =
    handle_send_accepts sample_server (key_of sample_key) sample_request keyed_store sample_accepted

abbrev refusing_server : Server
refusing_server = record sample_server { send_enabled = false }

-- Sending is switched off.
switched_off :
    (handle_send refusing_server (key_of sample_key) sample_request keyed_store).0.status ≡ 503
unfolding handle_send accept_send prepare_send enabled
switched_off = refl

handle_send_refuses_example :
    ((handle_send refusing_server (key_of sample_key) sample_request keyed_store).0.status ≡ 202)
    ⊎ Reads keyed_store
        (handle_send refusing_server (key_of sample_key) sample_request keyed_store).1
handle_send_refuses_example =
    handle_send_refuses refusing_server (key_of sample_key) sample_request keyed_store
