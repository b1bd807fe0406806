-- ===== src/Delivery/Policy.antt =====
-- completion-router/index.ts: the attempts of one delivery.
use dreamux.Base.{ℕ, zero, suc, String, ltb, if◌then◌else◌}

-- An Error is its message.
pub data CompletionDeliveryResult : Type 0 where
  accepted : CompletionDeliveryResult
  unsupported failed ambiguous : String → CompletionDeliveryResult

-- What an asynchronous operation does: it throws when called, or settles after so many
-- milliseconds, or never.
pub data Operation {ℓ} (T : Type ℓ) : Type ℓ where
  throws : String → Operation T
  resolves : ℕ → T → Operation T
  rejects : ℕ → String → Operation T
  hangs : Operation T

pub data DeadlineResult {ℓ} (T : Type ℓ) : Type ℓ where
  fulfilled : T → DeadlineResult T
  rejected : String → DeadlineResult T
  timed_out : DeadlineResult T

-- A settlement in the same millisecond as the deadline comes too late.
unfoldable pub settle_within_deadline {ℓ} : {T : Type ℓ} → Operation T → ℕ → DeadlineResult T
settle_within_deadline (throws e) timeout_ms = rejected e
settle_within_deadline (resolves after value) timeout_ms =
    if ltb after timeout_ms then fulfilled value else timed_out
settle_within_deadline (rejects after e) timeout_ms =
    if ltb after timeout_ms then rejected e else timed_out
settle_within_deadline hangs timeout_ms = timed_out

abbrev pub max_delivery_attempts : ℕ
max_delivery_attempts = 3

-- How a delivery ends: the return or the warning that it ends with.
pub data Ending : Type 0 where
  delivered : Ending
  preparation_timed_out : Ending
  preparation_failed : String → Ending
  delivery_timed_out : Ending
  delivery_threw : String → Ending
  delivery_unsupported : String → Ending
  admission_ambiguous : String → Ending
  exhausted_retries : Ending

-- The ending, and the number of calls of `submit`.
pub record Report : Type 0 where
  pub ending : Ending
  pub submits : ℕ

-- What the i-th call of `submit` does, from 1.
abbrev pub PreparedCompletionDelivery : Type 0
PreparedCompletionDelivery = ℕ → Operation CompletionDeliveryResult

-- One pass of the loop body; `again` is what the passes after it report.
unfoldable pub attempt_once : DeadlineResult CompletionDeliveryResult → ℕ → Report → Report
attempt_once timed_out attempt again = record { ending = delivery_timed_out; submits = attempt }
attempt_once (rejected e) attempt again = record { ending = delivery_threw e; submits = attempt }
attempt_once (fulfilled accepted) attempt again = record { ending = delivered; submits = attempt }
attempt_once (fulfilled (unsupported reason)) attempt again = record {
  ending = delivery_unsupported reason;
  submits = attempt;
}
attempt_once (fulfilled (ambiguous e)) attempt again = record {
  ending = admission_ambiguous e;
  submits = attempt;
}
attempt_once (fulfilled (failed e)) attempt again = again

-- The `for` loop from `attempt` on, with so many passes left.
unfoldable pub attempts : PreparedCompletionDelivery → ℕ → ℕ → ℕ → Report
unfolding attempt_once
attempts submit timeout_ms attempt zero = record {
  ending = exhausted_retries;
  submits = max_delivery_attempts;
}
attempts submit timeout_ms attempt (suc left) =
    let again = attempts submit timeout_ms (suc attempt) left in
    attempt_once (settle_within_deadline (submit attempt) timeout_ms) attempt again

abbrev pub submit_prepared : ℕ → DeadlineResult PreparedCompletionDelivery → Report
submit_prepared timeout_ms timed_out = record { ending = preparation_timed_out; submits = 0 }
submit_prepared timeout_ms (rejected e) = record { ending = preparation_failed e; submits = 0 }
submit_prepared timeout_ms (fulfilled submit) = attempts submit timeout_ms 1 max_delivery_attempts

unfoldable pub deliver_prepared : ℕ → Operation PreparedCompletionDelivery → Report
unfolding attempts settle_within_deadline
deliver_prepared timeout_ms prepare =
    submit_prepared timeout_ms (settle_within_deadline prepare timeout_ms)
