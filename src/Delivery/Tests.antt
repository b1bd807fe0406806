-- ===== src/Delivery/Tests.antt =====
-- Deliveries of concrete completions. (completion-router/index.ts)
use dreamux.Base.{
  Option, ℕ, String-discrete, zero, suc, ◌≤◌, ◌<◌, ◌≡◌, ◌↔◌, refl, none, some, List, [], ◌∷◌, ◌++◌,
  arith, false,
}
use dreamux.Base.Dict.{lookup, insert}
use dreamux.Delivery.Policy.{
  Operation, settle_within_deadline, PreparedCompletionDelivery, delivered, deliver_prepared,
  attempts, attempt_once, fulfilled, accepted, failed, resolves, hangs, max_delivery_attempts,
}
use dreamux.Delivery.Retry.{Refused, submits-Refused, deliver_prepared-delivered}
use dreamux.Ledger.Results.{TurnAdmission}
use dreamux.Delivery.Agents.{agent_submit}
use dreamux.Delivery.Router.{
  initial, enqueue, deliver_runtime, take_delivery, run_delivery, Delivery, Event, requests, runs,
  closes, step, run,
}
use dreamux.Delivery.Taking.{news_of}
use dreamux.Delivery.News.{accepted_for, settled}
use dreamux.Delivery.Order.{fifo_once}
use dreamux.Delivery.Order
use dreamux.Delivery.Drain.{drain, endings, drain_ends_all}

program : Unit {0}
unfolding String-discrete settle_within_deadline deliver_prepared attempts attempt_once lookup
    insert initial enqueue deliver_runtime take_delivery run_delivery step run drain
program = tt

-- Refused at first, then accepted.
abbrev second_time : PreparedCompletionDelivery
second_time zero = hangs
second_time (suc zero) = resolves 5 (failed "starting")
second_time (suc (suc i)) = resolves 5 accepted

second_time_delivered :
    deliver_prepared 100 (resolves 3 second_time) ≡ record { ending = delivered; submits = 2 }
unfolding program
second_time_delivered = refl

prepared_in_time : settle_within_deadline (resolves 3 second_time) 100 ≡ fulfilled second_time
unfolding program
prepared_in_time = refl

two_submits : 1 < (deliver_prepared 100 (resolves 3 second_time)).submits
unfolding program
two_submits = omega arith

submits-Refused_example :
    Refused second_time 100 1
    × ((deliver_prepared 100 (resolves 3 second_time)).submits ≤ max_delivery_attempts)
submits-Refused_example =
    submits-Refused 100 (resolves 3 second_time) second_time prepared_in_time 1 (omega arith)
      two_submits

deliver_prepared-delivered_example :
    ((deliver_prepared 100 (resolves 3 second_time)).ending ≡ delivered) ↔ (
      settle_within_deadline
        (second_time (deliver_prepared 100 (resolves 3 second_time)).submits)
        100
      ≡ fulfilled accepted)
deliver_prepared-delivered_example =
    deliver_prepared-delivered 100 (resolves 3 second_time) second_time prepared_in_time

-- Two recipients, one token reported twice, and a request behind the fence. The second delivery of
-- the lead may not run before its first, which is dropped.
abbrev events : List Event
events =
    requests "lead" (some "turn-1") "first"
    ∷ requests "other" none "aside"
    ∷ requests "lead" (some "turn-1") "again"
    ∷ requests "lead" none "second"
    ∷ closes
    ∷ requests "lead" none "late"
    ∷ runs 2 (resolves 3 second_time)
    ∷ runs 0 hangs
    ∷ []

accepted_for_lead : accepted_for "lead" (Order.accepted false [] events) ≡ "first" ∷ "second" ∷ []
unfolding program
accepted_for_lead = refl

ended_for_lead : news_of "lead" (settled (run (initial 100) events).ended) ≡ "first" ∷ []
unfolding program
ended_for_lead = refl

fifo_once_example :
    news_of "lead" (settled (run (initial 100) events).ended)
      ++ news_of "lead" (run (initial 100) events).waiting
    ≡ accepted_for "lead" (Order.accepted false [] events)
fifo_once_example = fifo_once 100 "lead" events

-- Whoever waits is given two attempts.
abbrev all_second_time : Delivery → Operation PreparedCompletionDelivery
all_second_time d = resolves 3 second_time

drain_ends_all_example :
    ((drain all_second_time (run (initial 100) events).waiting (run (initial 100) events)).waiting
      ≡ [])
    × ((drain all_second_time (run (initial 100) events).waiting (run (initial 100) events)).ended
        ≡ (run (initial 100) events).ended
          ++ endings
              (run (initial 100) events).attempt_timeout_ms
              all_second_time
              (run (initial 100) events).waiting)
    × (news_of "lead" (
          settled
            (drain all_second_time
              (run (initial 100) events).waiting
              (run (initial 100) events)).ended)
        ≡ accepted_for "lead" (Order.accepted false [] events))
drain_ends_all_example = drain_ends_all 100 events all_second_time "lead"

-- An agent that fails at first, then takes the completion.
abbrev admissions : ℕ → Option TurnAdmission
admissions zero = none
admissions (suc zero) = some (TurnAdmission.failed "starting")
admissions (suc (suc i)) = some (TurnAdmission.submitted "turn-2")

abbrev agent : PreparedCompletionDelivery
agent = agent_submit (λ (i : ℕ). 5) admissions
