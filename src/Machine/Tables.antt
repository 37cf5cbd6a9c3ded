-- ===== src/Machine/Tables.antt =====
-- The transition tables and the machines of investigation/state_machine.py and
-- operations/state_machine.py.
use incidentlens.Common.{List, [], ◌∷◌}
use incidentlens.Machine.Status.{
  InvestigationStatus, AgentRunStatus, ToolCallStatus, HypothesisStatus, OperationStatus, Status,
  investigation, agent_run, tool_call, hypothesis, operation,
}
use incidentlens.Machine.Core.{StateMachine, Table, state_machine}

abbrev pub investigation_terminal : List Status
investigation_terminal =
    investigation InvestigationStatus.cancelled
    ∷ investigation InvestigationStatus.failed
    ∷ investigation InvestigationStatus.completed
    ∷ []

abbrev pub investigation_transitions : Table
investigation_transitions =
    (
      investigation InvestigationStatus.created,
      investigation InvestigationStatus.running
          ∷ investigation InvestigationStatus.failed
          ∷ investigation InvestigationStatus.cancelled
          ∷ [],
    )
    ∷ (
      investigation InvestigationStatus.running,
      investigation InvestigationStatus.waiting_approval
          ∷ investigation InvestigationStatus.waiting_registry_update
          ∷ investigation InvestigationStatus.paused_budget
          ∷ investigation InvestigationStatus.paused_missing_evidence
          ∷ investigation InvestigationStatus.paused_uncertain_state
          ∷ investigation InvestigationStatus.cancel_requested
          ∷ investigation InvestigationStatus.failed
          ∷ investigation InvestigationStatus.completed
          ∷ [],
    )
    ∷ (
      investigation InvestigationStatus.waiting_approval,
      investigation InvestigationStatus.running
          ∷ investigation InvestigationStatus.cancel_requested
          ∷ investigation InvestigationStatus.failed
          ∷ [],
    )
    ∷ (
      investigation InvestigationStatus.waiting_registry_update,
      investigation InvestigationStatus.running
          ∷ investigation InvestigationStatus.cancel_requested
          ∷ investigation InvestigationStatus.failed
          ∷ [],
    )
    ∷ (
      investigation InvestigationStatus.paused_budget,
      investigation InvestigationStatus.running
          ∷ investigation InvestigationStatus.cancel_requested
          ∷ investigation InvestigationStatus.failed
          ∷ [],
    )
    ∷ (
      investigation InvestigationStatus.paused_missing_evidence,
      investigation InvestigationStatus.running
          ∷ investigation InvestigationStatus.cancel_requested
          ∷ investigation InvestigationStatus.failed
          ∷ [],
    )
    ∷ (
      investigation InvestigationStatus.paused_uncertain_state,
      investigation InvestigationStatus.running
          ∷ investigation InvestigationStatus.cancel_requested
          ∷ investigation InvestigationStatus.failed
          ∷ [],
    )
    ∷ (
      investigation InvestigationStatus.cancel_requested,
      investigation InvestigationStatus.cancelled ∷ investigation InvestigationStatus.failed ∷ [],
    )
    ∷ (investigation InvestigationStatus.cancelled, [])
    ∷ (investigation InvestigationStatus.failed, [])
    ∷ (investigation InvestigationStatus.completed, [])
    ∷ []

abbrev pub investigation_machine : StateMachine
investigation_machine = state_machine investigation_transitions investigation_terminal

abbrev pub agent_run_terminal : List Status
agent_run_terminal =
    agent_run AgentRunStatus.cancelled
    ∷ agent_run AgentRunStatus.failed
    ∷ agent_run AgentRunStatus.completed
    ∷ []

abbrev pub agent_run_transitions : Table
agent_run_transitions =
    (
      agent_run AgentRunStatus.created,
      agent_run AgentRunStatus.running
          ∷ agent_run AgentRunStatus.failed
          ∷ agent_run AgentRunStatus.cancelled
          ∷ [],
    )
    ∷ (
      agent_run AgentRunStatus.running,
      agent_run AgentRunStatus.waiting_tool
          ∷ agent_run AgentRunStatus.waiting_children
          ∷ agent_run AgentRunStatus.waiting_approval
          ∷ agent_run AgentRunStatus.paused_budget
          ∷ agent_run AgentRunStatus.paused_missing_evidence
          ∷ agent_run AgentRunStatus.paused_uncertain_state
          ∷ agent_run AgentRunStatus.cancel_requested
          ∷ agent_run AgentRunStatus.failed
          ∷ agent_run AgentRunStatus.completed
          ∷ [],
    )
    ∷ (
      agent_run AgentRunStatus.waiting_tool,
      agent_run AgentRunStatus.running
          ∷ agent_run AgentRunStatus.cancel_requested
          ∷ agent_run AgentRunStatus.failed
          ∷ [],
    )
    ∷ (
      agent_run AgentRunStatus.waiting_children,
      agent_run AgentRunStatus.running
          ∷ agent_run AgentRunStatus.cancel_requested
          ∷ agent_run AgentRunStatus.failed
          ∷ [],
    )
    ∷ (
      agent_run AgentRunStatus.waiting_approval,
      agent_run AgentRunStatus.running
          ∷ agent_run AgentRunStatus.cancel_requested
          ∷ agent_run AgentRunStatus.failed
          ∷ [],
    )
    ∷ (
      agent_run AgentRunStatus.paused_budget,
      agent_run AgentRunStatus.running
          ∷ agent_run AgentRunStatus.cancel_requested
          ∷ agent_run AgentRunStatus.failed
          ∷ [],
    )
    ∷ (
      agent_run AgentRunStatus.paused_missing_evidence,
      agent_run AgentRunStatus.running
          ∷ agent_run AgentRunStatus.cancel_requested
          ∷ agent_run AgentRunStatus.failed
          ∷ [],
    )
    ∷ (
      agent_run AgentRunStatus.paused_uncertain_state,
      agent_run AgentRunStatus.running
          ∷ agent_run AgentRunStatus.cancel_requested
          ∷ agent_run AgentRunStatus.failed
          ∷ [],
    )
    ∷ (
      agent_run AgentRunStatus.cancel_requested,
      agent_run AgentRunStatus.cancelled ∷ agent_run AgentRunStatus.failed ∷ [],
    )
    ∷ (agent_run AgentRunStatus.cancelled, [])
    ∷ (agent_run AgentRunStatus.failed, [])
    ∷ (agent_run AgentRunStatus.completed, [])
    ∷ []

abbrev pub agent_run_machine : StateMachine
agent_run_machine = state_machine agent_run_transitions agent_run_terminal

abbrev pub tool_call_terminal : List Status
tool_call_terminal =
    tool_call ToolCallStatus.succeeded
    ∷ tool_call ToolCallStatus.failed
    ∷ tool_call ToolCallStatus.uncertain
    ∷ tool_call ToolCallStatus.cancelled
    ∷ []

abbrev pub tool_call_transitions : Table
tool_call_transitions =
    (
      tool_call ToolCallStatus.planned,
      tool_call ToolCallStatus.waiting_approval
          ∷ tool_call ToolCallStatus.running
          ∷ tool_call ToolCallStatus.succeeded
          ∷ tool_call ToolCallStatus.failed
          ∷ tool_call ToolCallStatus.uncertain
          ∷ tool_call ToolCallStatus.cancelled
          ∷ [],
    )
    ∷ (
      tool_call ToolCallStatus.waiting_approval,
      tool_call ToolCallStatus.running
          ∷ tool_call ToolCallStatus.failed
          ∷ tool_call ToolCallStatus.cancelled
          ∷ [],
    )
    ∷ (
      tool_call ToolCallStatus.running,
      tool_call ToolCallStatus.waiting_approval
          ∷ tool_call ToolCallStatus.succeeded
          ∷ tool_call ToolCallStatus.failed
          ∷ tool_call ToolCallStatus.uncertain
          ∷ tool_call ToolCallStatus.cancelled
          ∷ [],
    )
    ∷ (tool_call ToolCallStatus.succeeded, [])
    ∷ (tool_call ToolCallStatus.failed, [])
    ∷ (tool_call ToolCallStatus.uncertain, [])
    ∷ (tool_call ToolCallStatus.cancelled, [])
    ∷ []

abbrev pub tool_call_machine : StateMachine
tool_call_machine = state_machine tool_call_transitions tool_call_terminal

abbrev pub hypothesis_terminal : List Status
hypothesis_terminal =
    hypothesis HypothesisStatus.confirmed
    ∷ hypothesis HypothesisStatus.refuted
    ∷ hypothesis HypothesisStatus.superseded
    ∷ []

abbrev pub hypothesis_transitions : Table
hypothesis_transitions =
    (
      hypothesis HypothesisStatus.proposed,
      hypothesis HypothesisStatus.active
          ∷ hypothesis HypothesisStatus.confirmed
          ∷ hypothesis HypothesisStatus.refuted
          ∷ hypothesis HypothesisStatus.superseded
          ∷ [],
    )
    ∷ (
      hypothesis HypothesisStatus.active,
      hypothesis HypothesisStatus.confirmed
          ∷ hypothesis HypothesisStatus.refuted
          ∷ hypothesis HypothesisStatus.superseded
          ∷ [],
    )
    ∷ (hypothesis HypothesisStatus.confirmed, [])
    ∷ (hypothesis HypothesisStatus.refuted, [])
    ∷ (hypothesis HypothesisStatus.superseded, [])
    ∷ []

abbrev pub hypothesis_machine : StateMachine
hypothesis_machine = state_machine hypothesis_transitions hypothesis_terminal

abbrev pub operation_terminal : List Status
operation_terminal =
    operation OperationStatus.succeeded
    ∷ operation OperationStatus.failed
    ∷ operation OperationStatus.cancelled
    ∷ operation OperationStatus.uncertain
    ∷ []

abbrev pub operation_transitions : Table
operation_transitions =
    (
      operation OperationStatus.queued,
      operation OperationStatus.running
          ∷ operation OperationStatus.cancel_requested
          ∷ operation OperationStatus.cancelled
          ∷ [],
    )
    ∷ (
      operation OperationStatus.running,
      operation OperationStatus.succeeded
          ∷ operation OperationStatus.failed
          ∷ operation OperationStatus.cancel_requested
          ∷ operation OperationStatus.uncertain
          ∷ [],
    )
    ∷ (
      operation OperationStatus.cancel_requested,
      operation OperationStatus.cancelled
          ∷ operation OperationStatus.failed
          ∷ operation OperationStatus.uncertain
          ∷ [],
    )
    ∷ (operation OperationStatus.succeeded, [])
    ∷ (operation OperationStatus.failed, [])
    ∷ (operation OperationStatus.cancelled, [])
    ∷ (operation OperationStatus.uncertain, [])
    ∷ []

abbrev pub operation_machine : StateMachine
operation_machine = state_machine operation_transitions operation_terminal

-- The module-level machines, by the entity that they are for.
pub data Entity : Type 0 where
  investigations agent_runs tool_calls hypotheses operations : Entity

abbrev pub machine : Entity → StateMachine
machine Entity.investigations = investigation_machine
machine Entity.agent_runs = agent_run_machine
machine Entity.tool_calls = tool_call_machine
machine Entity.hypotheses = hypothesis_machine
machine Entity.operations = operation_machine
