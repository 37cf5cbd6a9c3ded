-- ===== src/Operation/Service.antt =====
-- operations/service.py and operations/events.py: `OperationService` over the store, with the
-- events that it publishes. Each call that draws an id takes it as an argument. The log redactor of
-- logs/redaction.py is a parameter: the number is the bound on the length of its result.
use incidentlens.Common.{ℕ, String, Option, none, some, [], ◌∷◌, ◌++◌, ok, pure, raise, ◌>>=◌}
use mathlib.Core.Option
use incidentlens.Machine.Status.{OperationStatus}
use incidentlens.Operation.Json.{Json, Payload, malformed, json}
use incidentlens.Operation.Types.{
  OperationKind, Operation, OperationView, OperationEvent, payload_invalid,
  operation_not_cancellable,
}
use incidentlens.Operation.Payload.{redact_json_value}
use incidentlens.Operation.Store
use incidentlens.Operation.Store.{Store}

-- `_STATUS_EVENT_TYPES`: one event type for each status, so the status stands for it.
abbrev pub status_event_type : OperationStatus → OperationStatus
status_event_type s = s

abbrev pub max_error_message_length : ℕ
max_error_message_length = 2000

abbrev pub max_progress_summary_length : ℕ
max_progress_summary_length = 2000

abbrev pub preview_width : ℕ
preview_width = 600

-- The arguments of `create_operation`.
pub record NewOperation : Type 0 where
  pub kind : OperationKind
  pub target_id : String
  pub created_by : String
  pub session_id : Option String
  pub investigation_id : Option String
  pub request_payload : Option Payload
  pub progress_summary : Option String

-- `OperationService.to_view`.
unfoldable pub to_view : Operation → OperationView
to_view op = record {
  operation_id = op.operation_id;
  kind = op.kind;
  status = op.status;
  target_id = op.target_id;
  session_id = op.session_id;
  investigation_id = op.investigation_id;
  progress_summary = op.progress_summary;
  error_code = op.error_code;
  error_message = op.error_message;
  created_at = op.created_at;
  updated_at = op.updated_at;
  finished_at = op.finished_at;
}

module _ (redact : ℕ → String → String) where
  abbrev pub operation_event : Operation → OperationEvent
  operation_event op = record {
    event_type = status_event_type op.status;
    operation_id = op.operation_id;
    kind = op.kind;
    status = op.status;
    target_id = op.target_id;
    session_id = op.session_id;
    investigation_id = op.investigation_id;
    summary_preview = Option.map (redact preview_width) op.progress_summary;
  }

  -- `operation_status_changed`; `operation_queued` and `operation_running` are the same call.
  abbrev pub operation_status_changed : Operation → Store Operation
  operation_status_changed op db =
      (ok op, record db { events = db.events ++ operation_event op ∷ [] })

  -- `_redact_json_payload`.
  abbrev pub redact_json_payload : Option Payload → Store (Option Json)
  redact_json_payload none = pure none
  redact_json_payload (some malformed) = raise payload_invalid
  redact_json_payload (some (json v)) = pure (some (redact_json_value redact none v))

  -- The row that `create_operation` inserts.
  abbrev pub new_row : String → NewOperation → ℕ → Option Json → Operation
  new_row id new now payload = record {
    operation_id = id;
    kind = new.kind;
    status = OperationStatus.queued;
    target_id = new.target_id;
    created_by = new.created_by;
    session_id = new.session_id;
    investigation_id = new.investigation_id;
    request_payload = payload;
    progress_summary = Option.map (redact max_progress_summary_length) new.progress_summary;
    error_code = none;
    error_message = none;
    claim_token = none;
    claimed_at = none;
    created_at = now;
    updated_at = now;
    finished_at = none;
  }

  unfoldable pub create_operation : String → NewOperation → ℕ → Store Operation
  create_operation id new now = do
    payload ← redact_json_payload new.request_payload
    stored ← Store.create (new_row id new now payload)
    operation_status_changed stored

  unfoldable pub claim : String → String → ℕ → String → Store Operation
  claim id worker now attempt_id = do
    claimed ← Store.claim id worker now attempt_id
    operation_status_changed claimed

  unfoldable pub transition :
      String → OperationStatus → Option String → Option String → Option String → ℕ → Store Operation
  transition id target summary code message now = do
    op ← Store.get id
    updated ←
        Store.transition op target now (Option.map (redact max_progress_summary_length) summary)
          code (Option.map (redact max_error_message_length) message)
    operation_status_changed updated

  unfoldable pub requeue : String → ℕ → Store Operation
  requeue id now = do
    op ← Store.get id
    updated ← Store.requeue op now
    operation_status_changed updated

  -- The branches of `cancel`, by the status that it has read.
  unfoldable pub cancel_at : String → OperationStatus → Operation → ℕ → Store Operation
  unfolding transition
  cancel_at id OperationStatus.cancel_requested op now = pure op
  cancel_at id OperationStatus.cancelled op now = pure op
  cancel_at id OperationStatus.queued op now =
      transition id OperationStatus.cancelled none none none now
  cancel_at id OperationStatus.running op now =
      transition id OperationStatus.cancel_requested none none none now
  cancel_at id status op now = raise (operation_not_cancellable status)

  unfoldable pub cancel : String → ℕ → Store Operation
  cancel id now = do op ← Store.get id; cancel_at id op.status op now
