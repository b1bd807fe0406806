-- ===== src/Cot/Group.antt =====
-- cot/bytes.ts: the bounds on events, groups, outboxes and append calls.
use dreamux.Base.{
  ℕ, ◌+◌, ◌-◌, ◌*◌, Bool, ◌&&◌, List, [], ◌∷◌, ltb, leb, nat_eq, if◌then◌else◌, length,
}
use dreamux.Base.Result.{Result, thrown, returned}
use dreamux.Base.Int.{ℤ, changed_by}
use dreamux.Cot.Bytes.{feishu_cot_event_content_max_bytes}

abbrev pub text_message_event_group_max_bytes : ℕ
text_message_event_group_max_bytes = 224 * 1024

abbrev pub cot_event_encoding_reserve_bytes : ℕ
cot_event_encoding_reserve_bytes = 128

abbrev pub cot_request_encoding_reserve_bytes : ℕ
cot_request_encoding_reserve_bytes = 512

abbrev pub feishu_cot_append_max_bytes : ℕ
feishu_cot_append_max_bytes = 64 * 1024

abbrev pub feishu_cot_append_max_events : ℕ
feishu_cot_append_max_events = 50

abbrev pub feishu_cot_outbox_max_events : ℕ
feishu_cot_outbox_max_events = 400

abbrev pub feishu_cot_outbox_max_bytes : ℕ
feishu_cot_outbox_max_bytes = 256 * 1024

-- What the encodings of an event cost: its type, its content, and its content encoded twice.
pub record EventCosts (Event : Type 0) : Type 0 where
  pub type_bytes : Event → ℕ
  pub content_bytes : Event → ℕ
  pub wire_bytes : Event → ℕ

-- The batch loop compares events of at least 128 bytes with the budget, so a negative one may be 0.
unfoldable pub append_event_bytes_budget : ℕ → ℕ → ℕ
append_event_bytes_budget message_id_bytes cot_id_bytes =
    feishu_cot_append_max_bytes - message_id_bytes - cot_id_bytes
    - cot_request_encoding_reserve_bytes

unfoldable pub outbox_absorbs : ℕ → ℤ → Bool
outbox_absorbs buffered_bytes extra_bytes =
    leb (changed_by buffered_bytes extra_bytes) feishu_cot_outbox_max_bytes

-- The events accepted so far, the newest first, and the bytes that are spent.
pub record Accepted (Event : Type 0) : Type 0 where
  pub spent : ℕ
  pub events : List Event

pub data OversizedContent : Type 0 where
  oversized_content : OversizedContent

module _ {Event : Type 0} (costs : EventCosts Event) where
  abbrev pub cot_event_content_bytes : Event → ℕ
  cot_event_content_bytes event = costs.content_bytes event

  abbrev pub cot_event_bytes : Event → ℕ
  cot_event_bytes event =
      costs.type_bytes event + costs.wire_bytes event + cot_event_encoding_reserve_bytes

  abbrev pub total_bytes : List Event → ℕ
  total_bytes [] = 0
  total_bytes (e ∷ es) = cot_event_bytes e + total_bytes es

  unfoldable pub checked_event : Event → Result OversizedContent Event
  checked_event event =
      if ltb feishu_cot_event_content_max_bytes (cot_event_content_bytes event)
      then thrown oversized_content
      else returned event

  -- The first loop of `boundedTextMessageEventGroup`.
  unfoldable pub accept_within : Accepted Event → List Event → Accepted Event
  accept_within a [] = a
  accept_within a (e ∷ es) =
      let more =
        accept_within (record { spent = a.spent + cot_event_bytes e; events = e ∷ a.events }) es in
      if ltb text_message_event_group_max_bytes (a.spent + cot_event_bytes e) then a else more

  -- The second loop: the newest accepted events go until the marker has room.
  unfoldable pub make_room : ℕ → ℕ → List Event → List Event
  make_room marker_bytes spent [] = []
  make_room marker_bytes spent (e ∷ events) =
      let fewer = make_room marker_bytes (spent - cot_event_bytes e) events in
      if ltb text_message_event_group_max_bytes (spent + marker_bytes) then fewer else e ∷ events

  abbrev pub reversed_onto : List Event → List Event → List Event
  reversed_onto [] events = events
  reversed_onto (e ∷ newest_first) events = reversed_onto newest_first (e ∷ events)

  abbrev pub marked_group :
      Event
      → Event
      → Accepted Event
      → Result OversizedContent Event
      → Result OversizedContent (List Event)
  marked_group start end accepted (thrown e) = thrown e
  marked_group start end accepted (returned marker) = returned (
      start
      ∷ reversed_onto (make_room (cot_event_bytes marker) accepted.spent accepted.events)
          (marker ∷ end ∷ []))

  -- `marker` is the content event of the message with the truncation marker.
  unfoldable pub bounded_text_message_event_group :
      Event → List Event → Event → Event → Result OversizedContent (List Event)
  unfolding accept_within make_room checked_event
  bounded_text_message_event_group start content_events end marker =
      let accepted =
        accept_within (record { spent = cot_event_bytes start + cot_event_bytes end; events = [] })
          content_events in
      if nat_eq (length accepted.events) (length content_events)
      then returned (start ∷ reversed_onto accepted.events (end ∷ []))
      else marked_group start end accepted (checked_event marker)

  unfoldable pub outbox_admits : ℕ → ℕ → List Event → Bool
  outbox_admits buffered_events buffered_bytes incoming =
      leb (buffered_events + length incoming) feishu_cot_outbox_max_events
      && leb (buffered_bytes + total_bytes incoming) feishu_cot_outbox_max_bytes

  -- The comparison with the budget, which may be negative, is written as a sum.
  unfoldable pub append_batch_fits : ℕ → ℕ → List Event → Bool
  append_batch_fits cot_id_bytes message_id_bytes events =
      leb (length events) feishu_cot_append_max_events
      && leb
          (total_bytes events
            + message_id_bytes
            + cot_id_bytes
            + cot_request_encoding_reserve_bytes)
          feishu_cot_append_max_bytes
