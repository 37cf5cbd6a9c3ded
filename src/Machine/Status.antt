-- ===== src/Machine/Status.antt =====
-- The status enums of investigation/state_machine.py and operations/types.py. A `StrEnum` member is
-- a string: members of different enums with the same value compare equal, so a status carries
-- its enum beside its value.
use incidentlens.Common.{String, Bool, true, false, str_eq}

pub data InvestigationStatus : Type 0 where
  created running waiting_approval waiting_registry_update paused_budget : InvestigationStatus
  paused_missing_evidence paused_uncertain_state cancel_requested : InvestigationStatus
  cancelled failed completed : InvestigationStatus

pub data AgentRunStatus : Type 0 where
  created running waiting_tool waiting_children waiting_approval paused_budget : AgentRunStatus
  paused_missing_evidence paused_uncertain_state cancel_requested : AgentRunStatus
  cancelled failed completed : AgentRunStatus

pub data ToolCallStatus : Type 0 where
  planned waiting_approval running succeeded failed uncertain cancelled : ToolCallStatus

pub data HypothesisStatus : Type 0 where
  proposed active confirmed refuted superseded : HypothesisStatus

pub data OperationStatus : Type 0 where
  queued running cancel_requested succeeded failed cancelled uncertain : OperationStatus

-- `type(status)`.
pub data StatusType : Type 0 where
  investigation_status agent_run_status tool_call_status : StatusType
  hypothesis_status operation_status : StatusType

-- A status of any enum, as it reaches a `StateMachine`.
pub data Status : Type 0 where
  investigation : InvestigationStatus → Status
  agent_run : AgentRunStatus → Status
  tool_call : ToolCallStatus → Status
  hypothesis : HypothesisStatus → Status
  operation : OperationStatus → Status

abbrev pub status_type : Status → StatusType
status_type (investigation s) = StatusType.investigation_status
status_type (agent_run s) = StatusType.agent_run_status
status_type (tool_call s) = StatusType.tool_call_status
status_type (hypothesis s) = StatusType.hypothesis_status
status_type (operation s) = StatusType.operation_status

abbrev pub same_type : StatusType → StatusType → Bool
same_type StatusType.investigation_status StatusType.investigation_status = true
same_type StatusType.agent_run_status StatusType.agent_run_status = true
same_type StatusType.tool_call_status StatusType.tool_call_status = true
same_type StatusType.hypothesis_status StatusType.hypothesis_status = true
same_type StatusType.operation_status StatusType.operation_status = true
same_type _ _ = false

abbrev pub investigation_value : InvestigationStatus → String
investigation_value InvestigationStatus.created = "created"
investigation_value InvestigationStatus.running = "running"
investigation_value InvestigationStatus.waiting_approval = "waiting_approval"
investigation_value InvestigationStatus.waiting_registry_update = "waiting_registry_update"
investigation_value InvestigationStatus.paused_budget = "paused_budget"
investigation_value InvestigationStatus.paused_missing_evidence = "paused_missing_evidence"
investigation_value InvestigationStatus.paused_uncertain_state = "paused_uncertain_state"
investigation_value InvestigationStatus.cancel_requested = "cancel_requested"
investigation_value InvestigationStatus.cancelled = "cancelled"
investigation_value InvestigationStatus.failed = "failed"
investigation_value InvestigationStatus.completed = "completed"

abbrev pub agent_run_value : AgentRunStatus → String
agent_run_value AgentRunStatus.created = "created"
agent_run_value AgentRunStatus.running = "running"
agent_run_value AgentRunStatus.waiting_tool = "waiting_tool"
agent_run_value AgentRunStatus.waiting_children = "waiting_children"
agent_run_value AgentRunStatus.waiting_approval = "waiting_approval"
agent_run_value AgentRunStatus.paused_budget = "paused_budget"
agent_run_value AgentRunStatus.paused_missing_evidence = "paused_missing_evidence"
agent_run_value AgentRunStatus.paused_uncertain_state = "paused_uncertain_state"
agent_run_value AgentRunStatus.cancel_requested = "cancel_requested"
agent_run_value AgentRunStatus.cancelled = "cancelled"
agent_run_value AgentRunStatus.failed = "failed"
agent_run_value AgentRunStatus.completed = "completed"

abbrev pub tool_call_value : ToolCallStatus → String
tool_call_value ToolCallStatus.planned = "planned"
tool_call_value ToolCallStatus.waiting_approval = "waiting_approval"
tool_call_value ToolCallStatus.running = "running"
tool_call_value ToolCallStatus.succeeded = "succeeded"
tool_call_value ToolCallStatus.failed = "failed"
tool_call_value ToolCallStatus.uncertain = "uncertain"
tool_call_value ToolCallStatus.cancelled = "cancelled"

abbrev pub hypothesis_value : HypothesisStatus → String
hypothesis_value HypothesisStatus.proposed = "proposed"
hypothesis_value HypothesisStatus.active = "active"
hypothesis_value HypothesisStatus.confirmed = "confirmed"
hypothesis_value HypothesisStatus.refuted = "refuted"
hypothesis_value HypothesisStatus.superseded = "superseded"

abbrev pub operation_value : OperationStatus → String
operation_value OperationStatus.queued = "queued"
operation_value OperationStatus.running = "running"
operation_value OperationStatus.cancel_requested = "cancel_requested"
operation_value OperationStatus.succeeded = "succeeded"
operation_value OperationStatus.failed = "failed"
operation_value OperationStatus.cancelled = "cancelled"
operation_value OperationStatus.uncertain = "uncertain"

-- `status.value`.
abbrev pub value : Status → String
value (investigation s) = investigation_value s
value (agent_run s) = agent_run_value s
value (tool_call s) = tool_call_value s
value (hypothesis s) = hypothesis_value s
value (operation s) = operation_value s

-- Equality of two members, and of a member with a dict key or a set element: that of the strings.
abbrev pub status_eq : Status → Status → Bool
status_eq a b = str_eq (value a) (value b)
