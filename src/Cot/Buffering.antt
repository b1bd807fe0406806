-- ===== src/Cot/Buffering.antt =====
-- An outbox that is filled, merged, drained and cleared. (cot/recipients.ts)
use dreamux.Base.{
  ℕ, zero, suc, ◌+◌, ◌-◌, ◌≤◌, ◌≡◌, refl, sym, ap, ◌∙◌, true, inl, inr, some, List, [], ◌∷◌, ◌++◌,
  ltb, length, length-append, Bool-cases, Option-cases, arith,
}
use dreamux.Base.Int.{ℤ, pos, negsuc, changed_by, IsChanged}
use dreamux.Cot.Bytes.{feishu_cot_event_content_max_bytes}
use dreamux.Cot.Group.{
  EventCosts, cot_event_bytes, cot_event_content_bytes, total_bytes, outbox_admits, outbox_absorbs,
  append_event_bytes_budget, append_batch_fits, feishu_cot_outbox_max_events,
  feishu_cot_outbox_max_bytes, feishu_cot_append_max_events, feishu_cot_append_max_bytes,
  cot_request_encoding_reserve_bytes,
}
use dreamux.Cot.Outbox.{
  CotOutbox, CotAdjacentMerge, CotAdjacentMergeResult, last_of, with_last, refuse, clear,
  content_bytes_of, merge_into, admit_beside, Call, admits, merges, takes, clears, step, run, empty,
  try_merge, admit, take_batch, take_append_batch,
}

module _ {Event : Type 0} (costs : EventCosts Event) where
  -- The two running totals are exact, and the outbox is within its two bounds.
  pub record IsExact (o : CotOutbox Event) : Type 0 where
    pub counted : o.byte_total ≡ total_bytes costs o.queue
    pub tail_measured : o.tail_content_bytes ≡ content_bytes_of costs (last_of o.queue)
    pub few : length o.queue ≤ feishu_cot_outbox_max_events
    pub small : o.byte_total ≤ feishu_cot_outbox_max_bytes

  -- What a merge rule says of a merged event is what the event costs.
  abbrev pub IsExactMerge : CotAdjacentMerge Event → Type 0
  IsExactMerge merge =
      (tail next : Event) (merged : CotAdjacentMergeResult Event)
      → merge tail next ≡ some merged
      → IsChanged (cot_event_content_bytes costs tail) merged.extra_content_bytes
          (cot_event_content_bytes costs merged.event)
        × IsChanged (cot_event_bytes costs tail) merged.extra_wire_bytes
            (cot_event_bytes costs merged.event)

  total_bytes-append :
      (xs ys : List Event)
      → total_bytes costs (xs ++ ys) ≡ total_bytes costs xs + total_bytes costs ys
  total_bytes-append [] ys = omega arith
  total_bytes-append (x ∷ xs) ys = omega (arith, total_bytes-append xs ys)

  with_last_lem :
      (e tail : Event) (queue : List Event)
      → last_of queue ≡ some tail
      → (total_bytes costs (with_last e queue) + cot_event_bytes costs tail
          ≡ total_bytes costs queue + cot_event_bytes costs e)
        × (last_of (with_last e queue) ≡ some e)
        × (length (with_last e queue) ≡ length queue)
  with_last_lem e tail [] h = ground arith
  with_last_lem e tail (x ∷ []) h = ground arith
  with_last_lem e tail (x ∷ y ∷ queue) h = ground (arith, with_last_lem e tail (y ∷ queue))

  -- The bytes of the tail, and those of the other events.
  last_cost :
      (tail : Event) (queue : List Event)
      → last_of queue ≡ some tail
      → (rest : ℕ) × (cot_event_bytes costs tail + rest ≡ total_bytes costs queue)
  last_cost tail [] h = ground arith
  last_cost tail (x ∷ []) h = (0, ground arith)
  last_cost tail (x ∷ y ∷ queue) h =
      let later = last_cost tail (y ∷ queue) (ground arith) in
      (cot_event_bytes costs x + later.0, omega (arith, later.1))

  take_batch_lem :
      (room remaining_bytes : ℕ) (queue : List Event)
      → (length (take_batch costs room remaining_bytes queue).0 ≤ room)
        × (total_bytes costs (take_batch costs room remaining_bytes queue).0 ≤ remaining_bytes)
        × ((take_batch costs room remaining_bytes queue).0
              ++ (take_batch costs room remaining_bytes queue).1
            ≡ queue)
  unfolding take_batch
  take_batch_lem zero remaining queue = (omega arith, omega arith, refl)
  take_batch_lem (suc room) remaining [] = (omega arith, omega arith, refl)
  take_batch_lem (suc room) remaining (e ∷ queue) =
      let later = take_batch_lem room (remaining - cot_event_bytes costs e) queue in
      elim (Bool-cases (ltb remaining (cot_event_bytes costs e))) [
        | inl over ↦ rw (take_batch, over) (omega arith, omega arith, refl)
        | inr fits ↦
            rw (take_batch, fits)
              (omega (arith, later.0), ground (arith, later.1), ap (λ l. e ∷ l) later.2)
      ]

  last_of-append :
      (xs : List Event) (y : Event) (ys : List Event) → last_of (xs ++ y ∷ ys) ≡ last_of (y ∷ ys)
  last_of-append [] y ys = refl
  last_of-append (x ∷ xs) y ys = ground (arith, last_of-append xs y ys)

  take-IsExact :
      (o : CotOutbox Event) (cot_id_bytes message_id_bytes : ℕ)
      → IsExact o
      → IsExact (take_append_batch costs o cot_id_bytes message_id_bytes).0
  unfolding take_append_batch
  take-IsExact o cot_id_bytes message_id_bytes v =
      let budget = append_event_bytes_budget message_id_bytes cot_id_bytes in
      let taken = take_batch costs feishu_cot_append_max_events budget o.queue in
      let lem = take_batch_lem feishu_cot_append_max_events budget o.queue in
      let parts = lem.2 in
      let sum = ap (total_bytes costs) parts in
      let both = total_bytes-append taken.0 taken.1 in
      record {
        counted = omega (arith, v.counted, sum, both);
        tail_measured = measured taken.0 taken.1 parts;
        few = omega (arith, v.few, ap length parts, length-append taken.0 taken.1);
        small = omega (arith, v.small);
      }
    where
      measured :
          (batch left : List Event)
          → batch ++ left ≡ o.queue
          → elim left [ [] ↦ 0 | e ∷ es ↦ o.tail_content_bytes ]
            ≡ content_bytes_of costs (last_of left)
      measured batch [] h = refl
      measured batch (e ∷ left) h =
          v.tail_measured
          ∙ ap (λ q. content_bytes_of costs (last_of q)) (sym h)
          ∙ ap (content_bytes_of costs) (last_of-append batch e left)

  refuse-IsExact : (o : CotOutbox Event) (count : ℕ) → IsExact o → IsExact (refuse o count).0
  unfolding refuse
  refuse-IsExact o count v = record {
    counted = v.counted;
    tail_measured = v.tail_measured;
    few = v.few;
    small = v.small;
  }

  outbox_admits_lem :
      (o : CotOutbox Event) (events : List Event)
      → outbox_admits costs (length o.queue) o.byte_total events ≡ true
      → (length o.queue + length events ≤ feishu_cot_outbox_max_events)
        × (o.byte_total + total_bytes costs events ≤ feishu_cot_outbox_max_bytes)
  unfolding outbox_admits
  outbox_admits_lem o events h = ground arith

  admit_beside-IsExact :
      (o : CotOutbox Event) (events : List Event)
      → IsExact o
      → IsExact (admit_beside costs o events).0
  unfolding admit_beside outbox_admits
  admit_beside-IsExact o events v =
      let long = length-append o.queue events in
      let counted = v.counted in
      elim (Bool-cases (outbox_admits costs (length o.queue) o.byte_total events)) [
        | inl h ↦
            let fits : (length o.queue + length events ≤ feishu_cot_outbox_max_events)
                × (o.byte_total + total_bytes costs events ≤ feishu_cot_outbox_max_bytes) =
              outbox_admits_lem o events h in
            rw (admit_beside, h)
              record {
                counted = omega (arith, v.counted, total_bytes-append o.queue events);
                tail_measured = refl;
                few = omega (arith, long, fits.0);
                small = fits.1;
              }
        | inr h ↦ rw (admit_beside, h) (refuse-IsExact o (length events) v)
      ]

  changed_total :
      (before after rest all total : ℕ) (extra : ℤ)
      → total + before ≡ all + after
      → before + rest ≡ all
      → IsChanged before extra after
      → changed_by all extra ≡ total
  changed_total before after rest all total (pos n) sum part says = omega arith
  changed_total before after rest all total (negsuc n) sum part says = omega arith

  changed_content :
      (before after content : ℕ) (extra : ℤ)
      → content ≡ before
      → IsChanged before extra after
      → changed_by content extra ≡ after
  changed_content before after content (pos n) same says = omega arith
  changed_content before after content (negsuc n) same says = omega arith

  merged-IsExact :
      (o : CotOutbox Event) (tail : Event) (merged : CotAdjacentMergeResult Event)
      → IsExact o
      → last_of o.queue ≡ some tail
      → IsChanged
          (cot_event_content_bytes costs tail)
          merged.extra_content_bytes
          (cot_event_content_bytes costs merged.event)
      → IsChanged
          (cot_event_bytes costs tail)
          merged.extra_wire_bytes
          (cot_event_bytes costs merged.event)
      → outbox_absorbs o.byte_total merged.extra_wire_bytes ≡ true
      → IsExact (record o {
        queue = with_last merged.event o.queue;
        byte_total = changed_by o.byte_total merged.extra_wire_bytes;
        tail_content_bytes = changed_by o.tail_content_bytes merged.extra_content_bytes;
      })
  unfolding outbox_absorbs
  merged-IsExact o tail merged v last content wire room =
      let lem = with_last_lem merged.event tail o.queue last in
      let measured = v.tail_measured ∙ ap (content_bytes_of costs) last in
      let rest = last_cost tail o.queue last in
      record {
        counted =
            ap (λ total. changed_by total merged.extra_wire_bytes) v.counted
            ∙ changed_total (cot_event_bytes costs tail) (cot_event_bytes costs merged.event) rest.0
                (total_bytes costs o.queue) (total_bytes costs (with_last merged.event o.queue))
                merged.extra_wire_bytes lem.0 rest.1 wire;
        tail_measured =
            changed_content (cot_event_content_bytes costs tail)
              (cot_event_content_bytes costs merged.event) o.tail_content_bytes
              merged.extra_content_bytes measured content
            ∙ sym (ap (content_bytes_of costs) lem.1);
        few = omega (arith, v.few, lem.2);
        small = ground arith;
      }

  admit_one-IsExact :
      (merge : CotAdjacentMerge Event) (o : CotOutbox Event) (e : Event)
      → IsExactMerge merge
      → IsExact o
      → IsExact (admit costs (some merge) o (e ∷ [])).0
  unfolding admit try_merge merge_into
  admit_one-IsExact merge o e exact v = elim (Option-cases (last_of o.queue)) [
    | inl empty ↦ rw (admit, empty) (admit_beside-IsExact o (e ∷ []) v)
    | inr (tail, last) ↦ elim (Option-cases (merge tail e)) [
      | inl apart ↦ rw (admit, last, apart) (admit_beside-IsExact o (e ∷ []) v)
      | inr (merged, m) ↦
          let says = exact tail e merged m in
          elim (Bool-cases (
            ltb feishu_cot_event_content_max_bytes
              (changed_by o.tail_content_bytes merged.extra_content_bytes))) [
                | inl long ↦ rw (admit, last, m, long) (admit_beside-IsExact o (e ∷ []) v)
                | inr short ↦
                    elim (Bool-cases (outbox_absorbs o.byte_total merged.extra_wire_bytes)) [
                      | inl room ↦
                          rw (admit, last, m, short, room)
                            (merged-IsExact o tail merged v last says.0 says.1 room)
                      | inr full ↦ rw (admit, last, m, short, full) (refuse-IsExact o 1 v)
                    ]
              ]
    ]
  ]

  admit-IsExact :
      (merge : CotAdjacentMerge Event) (o : CotOutbox Event) (events : List Event)
      → IsExactMerge merge
      → IsExact o
      → IsExact (admit costs (some merge) o events).0
  unfolding admit try_merge
  admit-IsExact merge o [] exact v = elim (Option-cases (last_of o.queue)) [
    | inl empty ↦ rw (admit, empty) (admit_beside-IsExact o [] v)
    | inr (tail, last) ↦ rw (admit, last) (admit_beside-IsExact o [] v)
  ]
  admit-IsExact merge o (e ∷ []) exact v = admit_one-IsExact merge o e exact v
  admit-IsExact merge o (e ∷ f ∷ events) exact v = elim (Option-cases (last_of o.queue)) [
    | inl empty ↦ rw (admit, empty) (admit_beside-IsExact o (e ∷ f ∷ events) v)
    | inr (tail, last) ↦ rw (admit, last) (admit_beside-IsExact o (e ∷ f ∷ events) v)
  ]

  abbrev pub AllExact : List (Call costs) → Type 0
  AllExact [] = Unit {0}
  AllExact (merges merge events ∷ cs) = IsExactMerge merge × AllExact cs
  AllExact (admits events ∷ cs) = AllExact cs
  AllExact (takes cot_id_bytes message_id_bytes ∷ cs) = AllExact cs
  AllExact (clears ∷ cs) = AllExact cs

  run-IsExact :
      (o : CotOutbox Event) (cs : List (Call costs))
      → AllExact cs
      → IsExact o
      → IsExact (run costs o cs)
  unfolding run step clear admit try_merge
  run-IsExact o [] all v = v
  run-IsExact o (admits events ∷ cs) all v =
      run-IsExact (admit_beside costs o events).0 cs all (admit_beside-IsExact o events v)
  run-IsExact o (merges merge events ∷ cs) all v =
      run-IsExact (admit costs (some merge) o events).0 cs all.1
        (admit-IsExact merge o events all.0 v)
  run-IsExact o (takes cot_id_bytes message_id_bytes ∷ cs) all v =
      run-IsExact (take_append_batch costs o cot_id_bytes message_id_bytes).0 cs all
        (take-IsExact o cot_id_bytes message_id_bytes v)
  run-IsExact o (clears ∷ cs) all v =
      run-IsExact (clear o) cs all
        (record { counted = refl; tail_measured = refl; few = omega arith; small = omega arith })

  batch_fits :
      (cot_id_bytes message_id_bytes : ℕ) (batch : List Event)
      → length batch ≤ feishu_cot_append_max_events
      → total_bytes costs batch
          + message_id_bytes
          + cot_id_bytes
          + cot_request_encoding_reserve_bytes
        ≤ feishu_cot_append_max_bytes
      → append_batch_fits costs cot_id_bytes message_id_bytes batch ≡ true
  unfolding append_batch_fits
  batch_fits cot_id_bytes message_id_bytes batch few small = ground arith

  within :
      (a b total : ℕ)
      → a + b + cot_request_encoding_reserve_bytes ≤ feishu_cot_append_max_bytes
      → total ≤ feishu_cot_append_max_bytes - a - b - cot_request_encoding_reserve_bytes
      → total + a + b + cot_request_encoding_reserve_bytes ≤ feishu_cot_append_max_bytes
  within a b total room le = omega (arith, room, le)

  -- However an outbox is admitted to, merged into, drained and cleared, if each merge rule says by
  -- how much its merged event costs more or less than the tail: it holds at most 400 events, their bytes are its running total and within
  -- the bound, and the tail's content is measured. The next batch is a prefix of the queue, of which the rest
  -- stays, and fits an append call whose ids leave room.
  pub outbox_stays_bounded :
      (cs : List (Call costs))
      → AllExact cs
      → (cot_id_bytes message_id_bytes : ℕ)
      → message_id_bytes + cot_id_bytes + cot_request_encoding_reserve_bytes
        ≤ feishu_cot_append_max_bytes
      → IsExact (run costs empty cs)
        × (append_batch_fits costs cot_id_bytes message_id_bytes
              (take_append_batch costs (run costs empty cs) cot_id_bytes message_id_bytes).1
            ≡ true)
        × ((take_append_batch costs (run costs empty cs) cot_id_bytes message_id_bytes).1
              ++ (take_append_batch costs
                  (run costs empty cs)
                  cot_id_bytes
                  message_id_bytes).0.queue
            ≡ (run costs empty cs).queue)
  unfolding take_append_batch append_event_bytes_budget
  outbox_stays_bounded cs all cot_id_bytes message_id_bytes room =
      let budget = append_event_bytes_budget message_id_bytes cot_id_bytes in
      let lem = take_batch_lem feishu_cot_append_max_events budget (run costs empty cs).queue in
      (
        run-IsExact empty cs all (record {
          counted = refl;
          tail_measured = refl;
          few = omega arith;
          small = omega arith;
        }),
        batch_fits cot_id_bytes message_id_bytes
            (take_batch costs feishu_cot_append_max_events budget (run costs empty cs).queue).0
            lem.0 (within _ _ _ room lem.1),
        lem.2,
      )
