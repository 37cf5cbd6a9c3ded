-- ===== src/Operation/Types.antt =====
-- operations/types.py: the rows of `operations` and `operation_attempts`, and the errors that
-- operations/store.py, operations/service.py and operations/state_machine.py raise. A timestamp is
-- the number of microseconds since an epoch, in UTC: the ISO texts that the tables hold sort alike.
use incidentlens.Common.{ℕ, String, Bool, true, false, Option, List}
use incidentlens.Machine.Status.{OperationStatus}
use incidentlens.Operation.Json.{Json}
use incidentlens.Machine.Core.{IllegalTransition}

pub data OperationKind : Type 0 where
  agent_message target_test investigation_start rollback report_generate : OperationKind

pub record Operation : Type 0 where
  pub operation_id : String
  pub kind : OperationKind
  pub status : OperationStatus
  pub target_id : String
  pub created_by : String
  pub session_id : Option String
  pub investigation_id : Option String
  pub request_payload : Option Json
  pub progress_summary : Option String
  pub error_code : Option String
  pub error_message : Option String
  pub claim_token : Option String
  pub claimed_at : Option ℕ
  pub created_at : ℕ
  pub updated_at : ℕ
  pub finished_at : Option ℕ

-- `status` is a plain text, as in the source.
pub record OperationAttempt : Type 0 where
  pub attempt_id : String
  pub operation_id : String
  pub status : String
  pub claimed_by : Option String
  pub started_at : Option ℕ
  pub finished_at : Option ℕ
  pub created_at : ℕ

-- The client's view: no payload, no claim, no actor.
pub record OperationView : Type 0 where
  pub operation_id : String
  pub kind : OperationKind
  pub status : OperationStatus
  pub target_id : String
  pub session_id : Option String
  pub investigation_id : Option String
  pub progress_summary : Option String
  pub error_code : Option String
  pub error_message : Option String
  pub created_at : ℕ
  pub updated_at : ℕ
  pub finished_at : Option ℕ

pub data OperationError : Type 0 where
  operation_not_found operation_already_exists operation_not_claimable : OperationError
  concurrent_operation_update integrity_error limit_out_of_range payload_invalid : OperationError
  illegal_transition : IllegalTransition → OperationError
  operation_not_cancellable : OperationStatus → OperationError

-- A published event: the payload of `OperationEventPublisher.operation_status_changed`.
pub record OperationEvent : Type 0 where
  pub event_type : OperationStatus
  pub operation_id : String
  pub kind : OperationKind
  pub status : OperationStatus
  pub target_id : String
  pub session_id : Option String
  pub investigation_id : Option String
  pub summary_preview : Option String

-- The two tables, and the events appended to the shared stream.
pub record Db : Type 0 where
  pub operations : List Operation
  pub attempts : List OperationAttempt
  pub events : List OperationEvent

abbrev pub status_is : OperationStatus → OperationStatus → Bool
status_is OperationStatus.queued OperationStatus.queued = true
status_is OperationStatus.running OperationStatus.running = true
status_is OperationStatus.cancel_requested OperationStatus.cancel_requested = true
status_is OperationStatus.succeeded OperationStatus.succeeded = true
status_is OperationStatus.failed OperationStatus.failed = true
status_is OperationStatus.cancelled OperationStatus.cancelled = true
status_is OperationStatus.uncertain OperationStatus.uncertain = true
status_is _ _ = false

abbrev pub operation_key : Operation → String
operation_key op = op.operation_id

abbrev pub attempt_key : OperationAttempt → String
attempt_key a = a.attempt_id
