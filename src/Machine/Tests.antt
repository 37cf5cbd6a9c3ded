-- ===== src/Machine/Tests.antt =====
-- The machines of investigation/state_machine.py on concrete statuses.
use incidentlens.Common.{◌≡◌, refl, true}
use incidentlens.Machine.Status.{
  Status, InvestigationStatus, AgentRunStatus, investigation, agent_run,
}
use incidentlens.Machine.Core.{can_transition}
use incidentlens.Machine.Tables.{Entity, investigation_machine}
use incidentlens.Machine.Reach.{Reach, here, move, is_cancelling, cancelling_never_resumes}

abbrev inv_running : Status
inv_running = investigation InvestigationStatus.running

abbrev inv_cancel_requested : Status
inv_cancel_requested = investigation InvestigationStatus.cancel_requested

abbrev inv_failed : Status
inv_failed = investigation InvestigationStatus.failed

abbrev inv_completed : Status
inv_completed = investigation InvestigationStatus.completed

abbrev run_running : Status
run_running = agent_run AgentRunStatus.running

abbrev run_completed : Status
run_completed = agent_run AgentRunStatus.completed

cancel_path : Reach investigation_machine inv_cancel_requested inv_failed
unfolding can_transition
cancel_path = move here refl

cancelling_never_resumes_example : is_cancelling inv_failed ≡ true
cancelling_never_resumes_example = cancelling_never_resumes Entity.investigations cancel_path refl
