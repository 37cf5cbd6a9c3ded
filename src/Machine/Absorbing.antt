-- ===== src/Machine/Absorbing.antt =====
-- Terminal statuses of the machines of investigation/state_machine.py and
-- operations/state_machine.py.
use incidentlens.Common.{◌≡◌, refl, ◌↔◌, true, false, [], Bool-cases, ◌⊎◌, inl, inr}
use incidentlens.Machine.Status.{
  Status, InvestigationStatus, AgentRunStatus, ToolCallStatus, HypothesisStatus, OperationStatus,
  investigation, agent_run, tool_call, hypothesis, operation,
}
use incidentlens.Machine.Core.{StateMachine, is_foreign, is_terminal, can_transition, targets_of}
use incidentlens.Machine.Tables.{
  investigation_machine, agent_run_machine, tool_call_machine, hypothesis_machine,
  operation_machine, Entity, machine,
}

-- What decides it: a terminal status has an empty entry, and any other has a way out.
abbrev IsExit : StateMachine → Status → Type 0
IsExit m s =
    ((is_terminal m s ≡ true) × (targets_of m.table s ≡ []))
    ⊎ ((is_terminal m s ≡ false) × ((t : Status) × (can_transition m s t ≡ true)))

splits_of_exit :
    (m : StateMachine) (s : Status)
    → is_foreign m s ≡ false
    → IsExit m s
    → (is_terminal m s ≡ true) ↔ ((t : Status) → can_transition m s t ≡ false)
unfolding can_transition
splits_of_exit m s own exit = elim exit [
  | inl (done, empty) ↦ (
    (λ _ t. elim (Bool-cases (is_foreign m t)) [
      | inl f ↦ rw (own, f)
      | inr f ↦ rw (own, f, empty)
    ]),
    λ _. done,
  )
  | inr (more, way) ↦ ((λ done. cc), λ stuck. cc (stuck way.0))
]

investigation_exits :
    (s : Status) → is_foreign investigation_machine s ≡ false → IsExit investigation_machine s
unfolding can_transition is_terminal
investigation_exits (investigation InvestigationStatus.created) own =
    inr (refl, (investigation InvestigationStatus.failed, refl))
investigation_exits (investigation InvestigationStatus.running) own =
    inr (refl, (investigation InvestigationStatus.failed, refl))
investigation_exits (investigation InvestigationStatus.waiting_approval) own =
    inr (refl, (investigation InvestigationStatus.failed, refl))
investigation_exits (investigation InvestigationStatus.waiting_registry_update) own =
    inr (refl, (investigation InvestigationStatus.failed, refl))
investigation_exits (investigation InvestigationStatus.paused_budget) own =
    inr (refl, (investigation InvestigationStatus.failed, refl))
investigation_exits (investigation InvestigationStatus.paused_missing_evidence) own =
    inr (refl, (investigation InvestigationStatus.failed, refl))
investigation_exits (investigation InvestigationStatus.paused_uncertain_state) own =
    inr (refl, (investigation InvestigationStatus.failed, refl))
investigation_exits (investigation InvestigationStatus.cancel_requested) own =
    inr (refl, (investigation InvestigationStatus.failed, refl))
investigation_exits (investigation InvestigationStatus.cancelled) own = inl (refl, refl)
investigation_exits (investigation InvestigationStatus.failed) own = inl (refl, refl)
investigation_exits (investigation InvestigationStatus.completed) own = inl (refl, refl)
investigation_exits _ own = cc

agent_run_exits : (s : Status) → is_foreign agent_run_machine s ≡ false → IsExit agent_run_machine s
unfolding can_transition is_terminal
agent_run_exits (agent_run AgentRunStatus.created) own =
    inr (refl, (agent_run AgentRunStatus.failed, refl))
agent_run_exits (agent_run AgentRunStatus.running) own =
    inr (refl, (agent_run AgentRunStatus.failed, refl))
agent_run_exits (agent_run AgentRunStatus.waiting_tool) own =
    inr (refl, (agent_run AgentRunStatus.failed, refl))
agent_run_exits (agent_run AgentRunStatus.waiting_children) own =
    inr (refl, (agent_run AgentRunStatus.failed, refl))
agent_run_exits (agent_run AgentRunStatus.waiting_approval) own =
    inr (refl, (agent_run AgentRunStatus.failed, refl))
agent_run_exits (agent_run AgentRunStatus.paused_budget) own =
    inr (refl, (agent_run AgentRunStatus.failed, refl))
agent_run_exits (agent_run AgentRunStatus.paused_missing_evidence) own =
    inr (refl, (agent_run AgentRunStatus.failed, refl))
agent_run_exits (agent_run AgentRunStatus.paused_uncertain_state) own =
    inr (refl, (agent_run AgentRunStatus.failed, refl))
agent_run_exits (agent_run AgentRunStatus.cancel_requested) own =
    inr (refl, (agent_run AgentRunStatus.failed, refl))
agent_run_exits (agent_run AgentRunStatus.cancelled) own = inl (refl, refl)
agent_run_exits (agent_run AgentRunStatus.failed) own = inl (refl, refl)
agent_run_exits (agent_run AgentRunStatus.completed) own = inl (refl, refl)
agent_run_exits _ own = cc

tool_call_exits : (s : Status) → is_foreign tool_call_machine s ≡ false → IsExit tool_call_machine s
unfolding can_transition is_terminal
tool_call_exits (tool_call ToolCallStatus.planned) own =
    inr (refl, (tool_call ToolCallStatus.failed, refl))
tool_call_exits (tool_call ToolCallStatus.waiting_approval) own =
    inr (refl, (tool_call ToolCallStatus.failed, refl))
tool_call_exits (tool_call ToolCallStatus.running) own =
    inr (refl, (tool_call ToolCallStatus.failed, refl))
tool_call_exits (tool_call ToolCallStatus.succeeded) own = inl (refl, refl)
tool_call_exits (tool_call ToolCallStatus.failed) own = inl (refl, refl)
tool_call_exits (tool_call ToolCallStatus.uncertain) own = inl (refl, refl)
tool_call_exits (tool_call ToolCallStatus.cancelled) own = inl (refl, refl)
tool_call_exits _ own = cc

hypothesis_exits :
    (s : Status) → is_foreign hypothesis_machine s ≡ false → IsExit hypothesis_machine s
unfolding can_transition is_terminal
hypothesis_exits (hypothesis HypothesisStatus.proposed) own =
    inr (refl, (hypothesis HypothesisStatus.superseded, refl))
hypothesis_exits (hypothesis HypothesisStatus.active) own =
    inr (refl, (hypothesis HypothesisStatus.superseded, refl))
hypothesis_exits (hypothesis HypothesisStatus.confirmed) own = inl (refl, refl)
hypothesis_exits (hypothesis HypothesisStatus.refuted) own = inl (refl, refl)
hypothesis_exits (hypothesis HypothesisStatus.superseded) own = inl (refl, refl)
hypothesis_exits _ own = cc

operation_exits : (s : Status) → is_foreign operation_machine s ≡ false → IsExit operation_machine s
unfolding can_transition is_terminal
operation_exits (operation OperationStatus.queued) own =
    inr (refl, (operation OperationStatus.running, refl))
operation_exits (operation OperationStatus.running) own =
    inr (refl, (operation OperationStatus.succeeded, refl))
operation_exits (operation OperationStatus.cancel_requested) own =
    inr (refl, (operation OperationStatus.failed, refl))
operation_exits (operation OperationStatus.succeeded) own = inl (refl, refl)
operation_exits (operation OperationStatus.failed) own = inl (refl, refl)
operation_exits (operation OperationStatus.cancelled) own = inl (refl, refl)
operation_exits (operation OperationStatus.uncertain) own = inl (refl, refl)
operation_exits _ own = cc

exits : (e : Entity) (s : Status) → is_foreign (machine e) s ≡ false → IsExit (machine e) s
exits Entity.investigations = investigation_exits
exits Entity.agent_runs = agent_run_exits
exits Entity.tool_calls = tool_call_exits
exits Entity.hypotheses = hypothesis_exits
exits Entity.operations = operation_exits

-- In each of the five machines a status of its enum is terminal exactly when no move leaves it.
terminal_iff_no_move :
    (e : Entity) (s : Status)
    → is_foreign (machine e) s ≡ false
    → (is_terminal (machine e) s ≡ true) ↔ ((t : Status) → can_transition (machine e) s t ≡ false)
terminal_iff_no_move e s own = splits_of_exit (machine e) s own (exits e s own)
