-- ===== src/Delivery/Router.antt =====
-- completion-router/index.ts: the router's maps and tails, and the deliveries that run.
use dreamux.Base.{
  ℕ, suc, String, Bool, true, false, Option, none, some, List, [], ◌∷◌, ◌++◌, if◌then◌else◌, nat_eq,
  exists,
}
use dreamux.Base.Dict.{lookup, insert}
use dreamux.Delivery.Policy.{
  Operation, PreparedCompletionDelivery, Ending, deliver_prepared, settle_within_deadline,
}

-- A promise of `enqueue`: the delivery that it waits for, and what it delivers.
pub record Delivery : Type 0 where
  pub id : ℕ
  pub previous : Option ℕ
  pub recipient : String
  pub completion : String

-- The scope's fence, the deadline of an attempt, the delivery of each token and the last delivery of
-- each recipient; the deliveries that are not settled, in the order of the requests, and those that
-- are, with their endings, in the order in which they ended.
pub record CompletionDeliveryPolicy : Type 0 where
  pub is_closing : Bool
  pub attempt_timeout_ms : ℕ
  pub completions : List (String × ℕ)
  pub recipient_tails : List (String × ℕ)
  pub waiting : List Delivery
  pub ended : List (Delivery × Ending)
  pub next_id : ℕ

unfoldable pub initial : ℕ → CompletionDeliveryPolicy
initial attempt_timeout_ms = record {
  is_closing = false;
  attempt_timeout_ms = attempt_timeout_ms;
  completions = [];
  recipient_tails = [];
  waiting = [];
  ended = [];
  next_id = 0;
}

unfoldable pub enqueue : CompletionDeliveryPolicy → String → String → CompletionDeliveryPolicy
unfolding lookup insert
enqueue p initiator completion =
    let delivery : Delivery = record {
      id = p.next_id;
      previous = lookup initiator p.recipient_tails;
      recipient = initiator;
      completion = completion;
    } in
    record p {
      recipient_tails = insert initiator p.next_id p.recipient_tails;
      waiting = p.waiting ++ delivery ∷ [];
      next_id = suc p.next_id;
    }

abbrev pub deliver_folded :
    CompletionDeliveryPolicy
    → String
    → String
    → String
    → Option ℕ
    → CompletionDeliveryPolicy × Option ℕ
deliver_folded p initiator token completion (some existing) = (p, some existing)
deliver_folded p initiator token completion none = (
  record (enqueue p initiator completion) { completions = insert token p.next_id p.completions },
  some p.next_id,
)

-- The delivery whose promise is returned; none where the fence drops the completion.
unfoldable pub deliver_runtime :
    CompletionDeliveryPolicy → String → Option String → String → CompletionDeliveryPolicy × Option ℕ
unfolding enqueue
deliver_runtime p initiator none completion =
    if p.is_closing then (p, none) else (enqueue p initiator completion, some p.next_id)
deliver_runtime p initiator (some token) completion =
    if p.is_closing
    then (p, none)
    else deliver_folded p initiator token completion (lookup token p.completions)

unfoldable pub take_delivery : ℕ → List Delivery → Option (Delivery × List Delivery)
take_delivery id [] = none
take_delivery id (d ∷ waiting) =
    let rest = take_delivery id waiting in
    if nat_eq d.id id
    then some (d, waiting)
    else elim rest [ none ↦ none | some (found, others) ↦ some (found, d ∷ others) ]

abbrev pub is_waiting : Option ℕ → List Delivery → Bool
is_waiting none waiting = false
is_waiting (some id) waiting = exists (λ d. nat_eq d.id id) waiting

-- A delivery runs to its end, if the one that it waits for is settled.
unfoldable pub run_delivery :
    CompletionDeliveryPolicy → ℕ → Operation PreparedCompletionDelivery → CompletionDeliveryPolicy
unfolding take_delivery deliver_prepared settle_within_deadline
run_delivery p id prepare = elim (take_delivery id p.waiting) [
  | none ↦ p
  | some (delivery, others) ↦ if is_waiting delivery.previous p.waiting then p else record p {
    waiting = others;
    ended = p.ended ++ (delivery, (deliver_prepared p.attempt_timeout_ms prepare).ending) ∷ [];
  }
]

pub data Event : Type 0 where
  requests : String → Option String → String → Event
  runs : ℕ → Operation PreparedCompletionDelivery → Event
  closes : Event

unfoldable pub step : CompletionDeliveryPolicy → Event → CompletionDeliveryPolicy
unfolding deliver_runtime run_delivery
step p (requests initiator token completion) = (deliver_runtime p initiator token completion).0
step p (runs id prepare) = run_delivery p id prepare
step p closes = record p { is_closing = true }

unfoldable pub run : CompletionDeliveryPolicy → List Event → CompletionDeliveryPolicy
unfolding step
run p [] = p
run p (e ∷ es) = run (step p e) es
