-- ===== src/Store/Queue/Events.antt =====
-- `EventsForMessage` of internal/store/queue.go: the history of a message. The field `reason` of a
-- detail, which the database reads out of its JSON, is an argument.
use ai_email.Base.{ℕ, Option, none, some, List, [], map, filter, Str, str_eq, Bool}
use ai_email.Store.{EventType, EventRow, Db, query, sort_by}

pub record Event : Type 0 where
  pub event_type : EventType
  pub detail : Str
  pub occurred_at : ℕ

abbrev pub or_blank : Option Str → Str
or_blank none = []
or_blank (some reason) = reason

abbrev pub event_of : (Str → Option Str) → EventRow → Event
event_of reason_of e = record {
  event_type = e.event_type;
  detail = or_blank (reason_of e.detail);
  occurred_at = e.occurred_at;
}

unfoldable pub is_event_of : Str → EventRow → Bool
is_event_of message_id e = str_eq e.message_id message_id

-- `EventsForMessage`: rows of one time are in the order in which they were inserted.
unfoldable pub events_for_message : (Str → Option Str) → Str → Db (List Event)
events_for_message reason_of message_id = query λ s. (
  map (event_of reason_of)
      (sort_by (λ (e : EventRow). e.occurred_at) (filter (is_event_of message_id) s.events)),
  s,
)
