-- ===== src/Delivery/Agents.antt =====
-- Deliveries to an agent: the answers of agent/service.ts and agent/admission.ts under completion-router/index.ts.
use dreamux.Base.{ℕ, Option, none, some}
use dreamux.Delivery.Policy.{
  unsupported, CompletionDeliveryResult, resolves, PreparedCompletionDelivery,
}
use dreamux.Ledger.Results.{TurnAdmission, as_completion_delivery_result}

-- `submitCompletionInput`: none where the agent is not writable, else what the admission comes to.
unfoldable pub submit_completion_input : Option TurnAdmission → CompletionDeliveryResult
unfolding as_completion_delivery_result
submit_completion_input none = unsupported "teammate is not writable"
submit_completion_input (some admission) = as_completion_delivery_result admission

-- The i-th submit to an agent answers after some time.
abbrev pub agent_submit : (ℕ → ℕ) → (ℕ → Option TurnAdmission) → PreparedCompletionDelivery
agent_submit after admission i = resolves (after i) (submit_completion_input (admission i))
