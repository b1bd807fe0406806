-- ===== src/Cot/Tests.antt =====
-- Budgets at small texts and events; a number stands for what it costs. (cot/bytes.ts)
use dreamux.Base.{
  Bool-cases, inl, inr, nat_eq, ltb, ◌&&◌, if◌then◌else◌, ℕ, ◌+◌, ◌-◌, ◌≡◌, refl, true, some, List,
  [], ◌∷◌, ◌++◌, keep, arith,
}
use dreamux.Base.Int.{pos, negsuc, IsChanged}
use dreamux.Base.Result.{returned}
use dreamux.Cot.Bytes.{
  escaped_bytes, prefix_within, truncate_escaped, shrink_for_content_budget, flushed, split_step,
  split_loop, split_chunks, split_for_event_content, feishu_cot_event_content_max_bytes,
}
use dreamux.Cot.Group.{
  EventCosts, checked_event, accept_within, make_room, bounded_text_message_event_group,
  outbox_admits, outbox_absorbs, append_batch_fits, append_event_bytes_budget,
}
use dreamux.Cot.Outbox.{
  CotAdjacentMerge, CotAdjacentMergeResult, Call, admits, merges, empty, refuse, clear, merge_into,
  admit_beside, try_merge, admit, take_batch, take_append_batch, step, run,
}
use dreamux.Cot.Splitting.{concat, AllContentsFit, fits_alone, split_for_event_content_lem}
use dreamux.Cot.Grouping.{IsBounded, bounded_group_lem}
use dreamux.Cot.Buffering.{IsExact, outbox_stays_bounded}

program : Unit {0}
unfolding prefix_within truncate_escaped shrink_for_content_budget flushed split_step split_loop
    split_chunks split_for_event_content checked_event accept_within make_room
    bounded_text_message_event_group outbox_admits outbox_absorbs append_batch_fits
    append_event_bytes_budget refuse clear merge_into admit_beside try_merge admit take_batch
    take_append_batch step run
program = tt

abbrev itself : ℕ → ℕ
itself n = n

-- A content costs 96 bytes and its text.
abbrev content_cost : List ℕ → ℕ
content_cost text = 96 + escaped_bytes itself text

abbrev wrap : List ℕ → List ℕ
wrap text = text

truncated : truncate_escaped itself (3 ∷ []) (4 ∷ 4 ∷ 4 ∷ []) 10 ≡ 4 ∷ 3 ∷ []
unfolding program
truncated = refl

-- The second character fits no event.
abbrev long_text : List ℕ
long_text = 3000 ∷ 5000 ∷ 1000 ∷ 1 ∷ []

two_chunks : split_chunks itself content_cost wrap long_text ≡ (3000 ∷ []) ∷ (1000 ∷ 1 ∷ []) ∷ []
unfolding program
two_chunks = refl

additive :
    (chunk : List ℕ)
    → content_cost (wrap chunk) ≡ content_cost (wrap []) + escaped_bytes itself chunk
additive chunk = omega arith

split_for_event_content_lem_example :
    AllContentsFit itself content_cost (split_for_event_content itself content_cost wrap long_text)
    × (concat (split_chunks itself content_cost wrap long_text)
        ≡ keep
            (fits_alone itself (feishu_cot_event_content_max_bytes - content_cost (wrap [])))
            long_text)
split_for_event_content_lem_example =
    split_for_event_content_lem itself content_cost wrap additive (omega arith) long_text

abbrev costs : EventCosts ℕ
costs = record { type_bytes = λ (n : ℕ). 20; content_bytes = itself; wire_bytes = λ (n : ℕ). n + n }

marker_checked : checked_event costs 30 ≡ returned 30
unfolding program
marker_checked = refl

bounded_group_lem_example :
    (group : List ℕ) × (bounded_text_message_event_group costs 10 (4000 ∷ 4000 ∷ []) 10 30
      ≡ returned group)
    × IsBounded costs 10 (4000 ∷ 4000 ∷ []) 10 30 group
bounded_group_lem_example =
    bounded_group_lem costs 10 (4000 ∷ 4000 ∷ []) 10 30 marker_checked (omega arith)

-- Two increments of one block are one event. The half of a pair that costs 6 bytes saves 2 where it
-- joins.
abbrev joined : CotAdjacentMerge ℕ
joined tail next =
    if nat_eq next 6 && ltb 1 tail
    then some
        (record { event = tail - 2; extra_content_bytes = negsuc 1; extra_wire_bytes = negsuc 3 })
    else some (record {
      event = tail + next;
      extra_content_bytes = pos next;
      extra_wire_bytes = pos (next + next);
    })

abbrev calls : List (Call costs)
calls = admits (100 ∷ 200 ∷ []) ∷ merges joined (50 ∷ []) ∷ merges joined (6 ∷ []) ∷ []

merged_tail : (run costs empty calls).queue ≡ 100 ∷ 248 ∷ []
unfolding program
merged_tail = refl

joined_exact :
    (tail next : ℕ) (merged : CotAdjacentMergeResult ℕ)
    → joined tail next ≡ some merged
    → IsChanged tail merged.extra_content_bytes merged.event
      × IsChanged
          (20 + (tail + tail) + 128)
          merged.extra_wire_bytes
          (20 + (merged.event + merged.event) + 128)
joined_exact tail next merged h = elim (Bool-cases (nat_eq next 6 && ltb 1 tail)) [
  | inl half ↦
      let same : record {
        event = tail - 2;
        extra_content_bytes = negsuc 1;
        extra_wire_bytes = negsuc 3;
      }
          ≡ merged =
        ground arith in
      rw⁻¹ same (ground arith, ground arith)
  | inr whole ↦
      let same : record {
        event = tail + next;
        extra_content_bytes = pos next;
        extra_wire_bytes = pos (next + next);
      }
          ≡ merged =
        ground arith in
      rw⁻¹ same (ground arith, ground arith)
]

outbox_stays_bounded_example :
    IsExact costs (run costs empty calls)
    × (append_batch_fits costs 40 40 (take_append_batch costs (run costs empty calls) 40 40).1
        ≡ true)
    × ((take_append_batch costs (run costs empty calls) 40 40).1
          ++ (take_append_batch costs (run costs empty calls) 40 40).0.queue
        ≡ (run costs empty calls).queue)
outbox_stays_bounded_example =
    outbox_stays_bounded costs calls (joined_exact, (joined_exact, tt)) 40 40 (omega arith)
