-- ===== src/Ledger/Results.antt =====
-- service/agent/admission.ts: the three caller-facing shapes of one admission.
use dreamux.Base.{String, Option, none, some}
use dreamux.Delivery.Policy.{CompletionDeliveryResult}

-- An Error is its message.
pub data TurnAdmission : Type 0 where
  submitted : String → TurnAdmission
  duplicate stopped skipped : TurnAdmission
  failed ambiguous : String → TurnAdmission

pub data SubmissionStatus : Type 0 where
  submitted duplicate stopped failed ambiguous : SubmissionStatus

pub record AgentEntitySubmissionResult : Type 0 where
  pub status : SubmissionStatus
  pub error : Option String

unfoldable pub to_submission_result : TurnAdmission → AgentEntitySubmissionResult
to_submission_result (TurnAdmission.submitted turn) = record {
  status = SubmissionStatus.submitted;
  error = none;
}
to_submission_result TurnAdmission.duplicate = record {
  status = SubmissionStatus.duplicate;
  error = none;
}
to_submission_result TurnAdmission.stopped = record {
  status = SubmissionStatus.stopped;
  error = none;
}
to_submission_result (TurnAdmission.failed e) = record {
  status = SubmissionStatus.failed;
  error = some e;
}
to_submission_result (TurnAdmission.ambiguous e) = record {
  status = SubmissionStatus.ambiguous;
  error = some e;
}
to_submission_result TurnAdmission.skipped = record {
  status = SubmissionStatus.stopped;
  error = some "turn skipped";
}

unfoldable pub as_completion_delivery_result : TurnAdmission → CompletionDeliveryResult
as_completion_delivery_result (TurnAdmission.submitted turn) = CompletionDeliveryResult.accepted
as_completion_delivery_result TurnAdmission.duplicate = CompletionDeliveryResult.accepted
as_completion_delivery_result TurnAdmission.stopped =
    CompletionDeliveryResult.unsupported "runtime stopped"
as_completion_delivery_result (TurnAdmission.failed e) = CompletionDeliveryResult.failed e
as_completion_delivery_result (TurnAdmission.ambiguous e) = CompletionDeliveryResult.ambiguous e
as_completion_delivery_result TurnAdmission.skipped =
    CompletionDeliveryResult.failed "completion delivery unexpectedly skipped"

unfoldable pub failed_admission_reason : TurnAdmission → Option String
failed_admission_reason (TurnAdmission.submitted turn) = none
failed_admission_reason TurnAdmission.duplicate = none
failed_admission_reason TurnAdmission.stopped = some "the agent runtime is not running"
failed_admission_reason TurnAdmission.skipped = some "the agent runtime skipped this input"
failed_admission_reason (TurnAdmission.failed e) = some e
failed_admission_reason (TurnAdmission.ambiguous e) = some e
