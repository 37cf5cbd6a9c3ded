-- ===== src/Events/Types.antt =====
-- events/types.py, and the pages of events/store.py. A payload is the fields of a JSON object.
use incidentlens.Common.{ℕ, String, Bool, List, Option}
use incidentlens.Operation.Json.{Fields}

pub data RuntimeEventType : Type 0 where
  project_created project_updated project_deleted approval_requested : RuntimeEventType
  approval_approved approval_rejected approval_consumed changeset_created : RuntimeEventType
  changeset_status_changed changeset_rolled_back docker_action_requested : RuntimeEventType
  docker_action_started docker_action_completed docker_action_failed : RuntimeEventType
  remote_session_connected remote_session_disconnected remote_session_failed : RuntimeEventType
  remote_operation_started remote_operation_completed log_subscription_started : RuntimeEventType
  log_subscription_paused log_subscription_resumed log_subscription_deleted : RuntimeEventType
  log_batch_written log_source_rotated log_backpressure log_subscription_error : RuntimeEventType
  investigation_created investigation_started investigation_status_changed : RuntimeEventType
  investigation_completed investigation_cancelled investigation_failed : RuntimeEventType
  operation_queued operation_running operation_cancel_requested : RuntimeEventType
  operation_succeeded operation_failed operation_cancelled operation_uncertain : RuntimeEventType
  agent_run_started agent_run_status_changed agent_run_completed : RuntimeEventType
  agent_run_failed agent_run_cancelled agent_hook agent_text_delta : RuntimeEventType
  agent_message_completed model_round_started model_round_completed : RuntimeEventType
  tool_proposed policy_decided todo_changed hypothesis_changed : RuntimeEventType
  conclusion_created context_compacted safety_state_changed tool_call_started : RuntimeEventType
  tool_call_status_changed tool_call_completed child_run_started : RuntimeEventType
  child_run_completed evidence_appended registry_proposal_created : RuntimeEventType
  registry_proposal_decided recovery_started recovery_completed : RuntimeEventType

unfoldable pub event_type_value : RuntimeEventType → String
event_type_value project_created = "project.created"
event_type_value project_updated = "project.updated"
event_type_value project_deleted = "project.deleted"
event_type_value approval_requested = "approval.requested"
event_type_value approval_approved = "approval.approved"
event_type_value approval_rejected = "approval.rejected"
event_type_value approval_consumed = "approval.consumed"
event_type_value changeset_created = "changeset.created"
event_type_value changeset_status_changed = "changeset.status_changed"
event_type_value changeset_rolled_back = "changeset.rolled_back"
event_type_value docker_action_requested = "docker_action.requested"
event_type_value docker_action_started = "docker_action.started"
event_type_value docker_action_completed = "docker_action.completed"
event_type_value docker_action_failed = "docker_action.failed"
event_type_value remote_session_connected = "remote_session.connected"
event_type_value remote_session_disconnected = "remote_session.disconnected"
event_type_value remote_session_failed = "remote_session.failed"
event_type_value remote_operation_started = "remote_operation.started"
event_type_value remote_operation_completed = "remote_operation.completed"
event_type_value log_subscription_started = "log.subscription_started"
event_type_value log_subscription_paused = "log.subscription_paused"
event_type_value log_subscription_resumed = "log.subscription_resumed"
event_type_value log_subscription_deleted = "log.subscription_deleted"
event_type_value log_batch_written = "log.batch_written"
event_type_value log_source_rotated = "log.source_rotated"
event_type_value log_backpressure = "log.backpressure"
event_type_value log_subscription_error = "log.subscription_error"
event_type_value investigation_created = "investigation.created"
event_type_value investigation_started = "investigation.started"
event_type_value investigation_status_changed = "investigation.status_changed"
event_type_value investigation_completed = "investigation.completed"
event_type_value investigation_cancelled = "investigation.cancelled"
event_type_value investigation_failed = "investigation.failed"
event_type_value operation_queued = "operation.queued"
event_type_value operation_running = "operation.running"
event_type_value operation_cancel_requested = "operation.cancel_requested"
event_type_value operation_succeeded = "operation.succeeded"
event_type_value operation_failed = "operation.failed"
event_type_value operation_cancelled = "operation.cancelled"
event_type_value operation_uncertain = "operation.uncertain"
event_type_value agent_run_started = "agent_run.started"
event_type_value agent_run_status_changed = "agent_run.status_changed"
event_type_value agent_run_completed = "agent_run.completed"
event_type_value agent_run_failed = "agent_run.failed"
event_type_value agent_run_cancelled = "agent_run.cancelled"
event_type_value agent_hook = "agent_hook"
event_type_value agent_text_delta = "agent.text.delta"
event_type_value agent_message_completed = "agent.message.completed"
event_type_value model_round_started = "model_round.started"
event_type_value model_round_completed = "model_round.completed"
event_type_value tool_proposed = "tool.proposed"
event_type_value policy_decided = "policy.decided"
event_type_value todo_changed = "todo.changed"
event_type_value hypothesis_changed = "hypothesis.changed"
event_type_value conclusion_created = "conclusion.created"
event_type_value context_compacted = "context.compacted"
event_type_value safety_state_changed = "safety_state.changed"
event_type_value tool_call_started = "tool_call.started"
event_type_value tool_call_status_changed = "tool_call.status_changed"
event_type_value tool_call_completed = "tool_call.completed"
event_type_value child_run_started = "child_run.started"
event_type_value child_run_completed = "child_run.completed"
event_type_value evidence_appended = "evidence.appended"
event_type_value registry_proposal_created = "registry_proposal.created"
event_type_value registry_proposal_decided = "registry_proposal.decided"
event_type_value recovery_started = "recovery.started"
event_type_value recovery_completed = "recovery.completed"

pub record RuntimeEvent : Type 0 where
  pub event_id : String
  pub sequence : ℕ
  pub event_type : RuntimeEventType
  pub occurred_at : ℕ
  pub payload : Fields

-- A row of `runtime_events`.
pub record EventRow : Type 0 where
  pub event : RuntimeEvent
  pub schema_version : ℕ
  pub session_id : Option String
  pub target_id : Option String
  pub investigation_id : Option String

-- The table, and the largest sequence that was ever given (`AUTOINCREMENT`).
pub record EventTable : Type 0 where
  pub rows : List EventRow
  pub last_sequence : ℕ

pub data EventError : Type 0 where
  integrity_error value_error : EventError

pub record RuntimeEventPage : Type 0 where
  pub items : List RuntimeEvent
  pub next_after_sequence : ℕ
  pub has_more : Bool
  pub latest_sequence : ℕ
  pub earliest_available_sequence : ℕ
