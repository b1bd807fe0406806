-- ===== src/Cot/Outbox.antt =====
-- cot/recipients.ts: CotOutbox.
use dreamux.Base.{
  ℕ, zero, suc, ◌+◌, ◌-◌, Bool, Option, none, some, List, [], ◌∷◌, ◌++◌, ltb, nat_eq, if◌then◌else◌,
  length,
}
use dreamux.Base.Int.{ℤ, changed_by}
use dreamux.Cot.Bytes.{feishu_cot_event_content_max_bytes}
use dreamux.Cot.Group.{
  EventCosts, cot_event_bytes, cot_event_content_bytes, total_bytes, outbox_admits, outbox_absorbs,
  append_event_bytes_budget, feishu_cot_append_max_events,
}

pub record CotOutbox (Event : Type 0) : Type 0 where
  pub queue : List Event
  pub byte_total : ℕ
  pub tail_content_bytes : ℕ
  pub dropped_events : ℕ

pub data CotOutboxAdmission : Type 0 where
  accepted : CotOutboxAdmission
  refused : Bool → ℕ → ℕ → CotOutboxAdmission

-- A merge may save bytes: where it joins a surrogate pair, each half costs more than its part.
pub record CotAdjacentMergeResult (Event : Type 0) : Type 0 where
  pub event : Event
  pub extra_content_bytes : ℤ
  pub extra_wire_bytes : ℤ

-- `next` may join the tail of the queue.
abbrev pub CotAdjacentMerge : Type 0 → Type 0
CotAdjacentMerge Event = Event → Event → Option (CotAdjacentMergeResult Event)

abbrev pub last_of {ℓ} : {A : Type ℓ} → List A → Option A
last_of [] = none
last_of (x ∷ xs) = elim (last_of xs) [ none ↦ some x | some y ↦ some y ]

-- `queue[queue.length - 1] = event`.
abbrev pub with_last {ℓ} : {A : Type ℓ} → A → List A → List A
with_last event [] = []
with_last event (x ∷ []) = event ∷ []
with_last event (x ∷ y ∷ xs) = x ∷ with_last event (y ∷ xs)

module _ {Event : Type 0} where
  abbrev pub empty : CotOutbox Event
  empty = record { queue = []; byte_total = 0; tail_content_bytes = 0; dropped_events = 0 }

  unfoldable pub refuse : CotOutbox Event → ℕ → CotOutbox Event × CotOutboxAdmission
  refuse o count = (
    record o { dropped_events = o.dropped_events + count },
    refused (nat_eq o.dropped_events 0) (length o.queue) o.byte_total,
  )

  unfoldable pub clear : CotOutbox Event → CotOutbox Event
  clear o = record o { queue = []; byte_total = 0; tail_content_bytes = 0 }

module _ {Event : Type 0} (costs : EventCosts Event) where
  abbrev pub content_bytes_of : Option Event → ℕ
  content_bytes_of none = 0
  content_bytes_of (some e) = cot_event_content_bytes costs e

  -- `mergeInto`, on what `mergeAdjacent` answered.
  unfoldable pub merge_into :
      CotOutbox Event
      → Option (CotAdjacentMergeResult Event)
      → Option (CotOutbox Event × CotOutboxAdmission)
  unfolding outbox_absorbs refuse
  merge_into o none = none
  merge_into o (some merged) =
      if ltb feishu_cot_event_content_max_bytes
        (changed_by o.tail_content_bytes merged.extra_content_bytes)
      then none
      else if outbox_absorbs o.byte_total merged.extra_wire_bytes
      then some (
        record o {
          queue = with_last merged.event o.queue;
          byte_total = changed_by o.byte_total merged.extra_wire_bytes;
          tail_content_bytes = changed_by o.tail_content_bytes merged.extra_content_bytes;
        },
        accepted,
      )
      else some (refuse o 1)

  unfoldable pub admit_beside : CotOutbox Event → List Event → CotOutbox Event × CotOutboxAdmission
  unfolding outbox_admits refuse
  admit_beside o events =
      if outbox_admits costs (length o.queue) o.byte_total events
      then (
        record o {
          queue = o.queue ++ events;
          byte_total = o.byte_total + total_bytes costs events;
          tail_content_bytes = content_bytes_of (last_of (o.queue ++ events));
        },
        accepted,
      )
      else refuse o (length events)

  -- The merge is tried for one event, where the caller gives a rule and the queue has a tail.
  unfoldable pub try_merge :
      Option (CotAdjacentMerge Event)
      → CotOutbox Event
      → List Event
      → Option Event
      → Option (CotOutbox Event × CotOutboxAdmission)
  unfolding merge_into
  try_merge none o events tail = none
  try_merge (some merge) o events none = none
  try_merge (some merge) o [] (some tail) = none
  try_merge (some merge) o (e ∷ []) (some tail) = merge_into o (merge tail e)
  try_merge (some merge) o (e ∷ f ∷ events) (some tail) = none

  unfoldable pub admit :
      Option (CotAdjacentMerge Event)
      → CotOutbox Event
      → List Event
      → CotOutbox Event × CotOutboxAdmission
  unfolding try_merge admit_beside
  admit merge_adjacent o events = elim (try_merge merge_adjacent o events (last_of o.queue)) [
    | some merged ↦ merged
    | none ↦ admit_beside o events
  ]

  -- The loop of `takeAppendBatch`: how many events and bytes the call still takes. The result is the
  -- batch and the queue that is left.
  unfoldable pub take_batch : ℕ → ℕ → List Event → List Event × List Event
  take_batch zero remaining_bytes queue = ([], queue)
  take_batch (suc room) remaining_bytes [] = ([], [])
  take_batch (suc room) remaining_bytes (e ∷ queue) =
      let rest = take_batch room (remaining_bytes - cot_event_bytes costs e) queue in
      if ltb remaining_bytes (cot_event_bytes costs e)
      then ([], e ∷ queue)
      else (e ∷ rest.0, rest.1)

  unfoldable pub take_append_batch : CotOutbox Event → ℕ → ℕ → CotOutbox Event × List Event
  unfolding take_batch append_event_bytes_budget
  take_append_batch o cot_id_bytes message_id_bytes =
      let taken =
        take_batch feishu_cot_append_max_events
          (append_event_bytes_budget message_id_bytes cot_id_bytes) o.queue in
      (
        record o {
          queue = taken.1;
          byte_total = o.byte_total - total_bytes costs taken.0;
          tail_content_bytes = elim taken.1 [ [] ↦ 0 | e ∷ left ↦ o.tail_content_bytes ];
        },
        taken.0,
      )

  -- What happens to an outbox.
  pub data Call : Type 0 where
    admits : List Event → Call
    merges : CotAdjacentMerge Event → List Event → Call
    takes : ℕ → ℕ → Call
    clears : Call

  -- The outbox after a call, and the batch that the call hands out.
  unfoldable pub step : CotOutbox Event → Call → CotOutbox Event × Option (List Event)
  unfolding admit take_append_batch clear
  step o (admits events) = ((admit none o events).0, none)
  step o (merges merge events) = ((admit (some merge) o events).0, none)
  step o (takes cot_id_bytes message_id_bytes) =
      let taken = take_append_batch o cot_id_bytes message_id_bytes in (taken.0, some taken.1)
  step o clears = (clear o, none)

  unfoldable pub run : CotOutbox Event → List Call → CotOutbox Event
  unfolding step
  run o [] = o
  run o (c ∷ cs) = run (step o c).0 cs
