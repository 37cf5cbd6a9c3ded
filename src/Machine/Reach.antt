-- ===== src/Machine/Reach.antt =====
-- Runs of the machines of investigation/state_machine.py and operations/state_machine.py: sequences
-- of accepted moves.
use incidentlens.Common.{◌≡◌, refl, true, false, Bool}
use mathlib.Core.Bool.{false≢true}
use incidentlens.Machine.Status.{
  Status, InvestigationStatus, AgentRunStatus, OperationStatus, investigation, agent_run, tool_call,
  hypothesis, operation,
}
use incidentlens.Machine.Core.{StateMachine, can_transition}
use incidentlens.Machine.Tables.{
  investigation_machine, agent_run_machine, operation_machine, tool_call_machine,
  hypothesis_machine, Entity, machine,
}

-- `Reach m s t`: accepted moves lead from `s` to `t`.
pub data Reach (m : StateMachine) (s : Status) : Status → Type 0 where
  here : Reach m s s
  move : {t u : Status} → Reach m s t → can_transition m t u ≡ true → Reach m s u

-- Where a status stays once a cancellation was requested.
abbrev pub is_cancelling : Status → Bool
is_cancelling (investigation InvestigationStatus.cancel_requested) = true
is_cancelling (investigation InvestigationStatus.cancelled) = true
is_cancelling (investigation InvestigationStatus.failed) = true
is_cancelling (agent_run AgentRunStatus.cancel_requested) = true
is_cancelling (agent_run AgentRunStatus.cancelled) = true
is_cancelling (agent_run AgentRunStatus.failed) = true
is_cancelling (operation OperationStatus.cancel_requested) = true
is_cancelling (operation OperationStatus.cancelled) = true
is_cancelling (operation OperationStatus.failed) = true
is_cancelling (operation OperationStatus.uncertain) = true
is_cancelling _ = false

investigation_move_cancelling :
    (s t : Status)
    → is_cancelling s ≡ true
    → can_transition investigation_machine s t ≡ true
    → is_cancelling t ≡ true
unfolding can_transition
investigation_move_cancelling (investigation InvestigationStatus.cancel_requested)
      (investigation InvestigationStatus.cancelled) h a =
    refl
investigation_move_cancelling (investigation InvestigationStatus.cancel_requested)
      (investigation InvestigationStatus.failed) h a =
    refl
investigation_move_cancelling (investigation InvestigationStatus.cancel_requested) (investigation _)
      h a =
    absurd (false≢true a)
investigation_move_cancelling (investigation InvestigationStatus.cancelled) (investigation t) h a =
    absurd (false≢true a)
investigation_move_cancelling (investigation InvestigationStatus.failed) (investigation t) h a =
    absurd (false≢true a)
investigation_move_cancelling (investigation InvestigationStatus.cancel_requested) t h a =
    absurd (false≢true a)
investigation_move_cancelling (investigation InvestigationStatus.cancelled) t h a =
    absurd (false≢true a)
investigation_move_cancelling (investigation InvestigationStatus.failed) t h a =
    absurd (false≢true a)
investigation_move_cancelling (investigation s) t h a = cc
investigation_move_cancelling s t h a = absurd (false≢true a)

agent_run_move_cancelling :
    (s t : Status)
    → is_cancelling s ≡ true
    → can_transition agent_run_machine s t ≡ true
    → is_cancelling t ≡ true
unfolding can_transition
agent_run_move_cancelling (agent_run AgentRunStatus.cancel_requested)
      (agent_run AgentRunStatus.cancelled) h a =
    refl
agent_run_move_cancelling (agent_run AgentRunStatus.cancel_requested)
      (agent_run AgentRunStatus.failed) h a =
    refl
agent_run_move_cancelling (agent_run AgentRunStatus.cancel_requested) (agent_run _) h a =
    absurd (false≢true a)
agent_run_move_cancelling (agent_run AgentRunStatus.cancelled) (agent_run t) h a =
    absurd (false≢true a)
agent_run_move_cancelling (agent_run AgentRunStatus.failed) (agent_run t) h a =
    absurd (false≢true a)
agent_run_move_cancelling (agent_run AgentRunStatus.cancel_requested) t h a = absurd (false≢true a)
agent_run_move_cancelling (agent_run AgentRunStatus.cancelled) t h a = absurd (false≢true a)
agent_run_move_cancelling (agent_run AgentRunStatus.failed) t h a = absurd (false≢true a)
agent_run_move_cancelling (agent_run s) t h a = cc
agent_run_move_cancelling s t h a = absurd (false≢true a)

operation_move_cancelling :
    (s t : Status)
    → is_cancelling s ≡ true
    → can_transition operation_machine s t ≡ true
    → is_cancelling t ≡ true
unfolding can_transition
operation_move_cancelling (operation OperationStatus.cancel_requested)
      (operation OperationStatus.cancelled) h a =
    refl
operation_move_cancelling (operation OperationStatus.cancel_requested)
      (operation OperationStatus.failed) h a =
    refl
operation_move_cancelling (operation OperationStatus.cancel_requested)
      (operation OperationStatus.uncertain) h a =
    refl
operation_move_cancelling (operation OperationStatus.cancel_requested) (operation _) h a =
    absurd (false≢true a)
operation_move_cancelling (operation OperationStatus.cancelled) (operation t) h a =
    absurd (false≢true a)
operation_move_cancelling (operation OperationStatus.failed) (operation t) h a =
    absurd (false≢true a)
operation_move_cancelling (operation OperationStatus.uncertain) (operation t) h a =
    absurd (false≢true a)
operation_move_cancelling (operation OperationStatus.cancel_requested) t h a = absurd (false≢true a)
operation_move_cancelling (operation OperationStatus.cancelled) t h a = absurd (false≢true a)
operation_move_cancelling (operation OperationStatus.failed) t h a = absurd (false≢true a)
operation_move_cancelling (operation OperationStatus.uncertain) t h a = absurd (false≢true a)
operation_move_cancelling (operation s) t h a = cc
operation_move_cancelling s t h a = absurd (false≢true a)

tool_call_move_cancelling :
    (s t : Status)
    → is_cancelling s ≡ true
    → can_transition tool_call_machine s t ≡ true
    → is_cancelling t ≡ true
unfolding can_transition
tool_call_move_cancelling (tool_call s) t h a = cc
tool_call_move_cancelling s t h a = absurd (false≢true a)

hypothesis_move_cancelling :
    (s t : Status)
    → is_cancelling s ≡ true
    → can_transition hypothesis_machine s t ≡ true
    → is_cancelling t ≡ true
unfolding can_transition
hypothesis_move_cancelling (hypothesis s) t h a = cc
hypothesis_move_cancelling s t h a = absurd (false≢true a)

move_cancelling :
    (e : Entity) (s t : Status)
    → is_cancelling s ≡ true
    → can_transition (machine e) s t ≡ true
    → is_cancelling t ≡ true
move_cancelling Entity.investigations = investigation_move_cancelling
move_cancelling Entity.agent_runs = agent_run_move_cancelling
move_cancelling Entity.tool_calls = tool_call_move_cancelling
move_cancelling Entity.hypotheses = hypothesis_move_cancelling
move_cancelling Entity.operations = operation_move_cancelling

-- After a requested cancellation no sequence of moves runs or completes the investigation, the
-- agent run or the operation: it stays requested, is cancelled, fails, or (an operation) ends
-- uncertain.
pub cancelling_never_resumes :
    (e : Entity) {s t : Status}
    → Reach (machine e) s t
    → is_cancelling s ≡ true
    → is_cancelling t ≡ true
cancelling_never_resumes e here h = h
cancelling_never_resumes e (move {t = t} {u = u} r a) h =
    move_cancelling e t u (cancelling_never_resumes e r h) a
