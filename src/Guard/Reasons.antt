-- ===== src/Guard/Reasons.antt =====
-- `_pause_status_for` and `_stop_reason_for` of investigation/orchestrator.py, which read the
-- reason of a refusal.
use incidentlens.Common.{String, ◌||◌, if◌then◌else◌, contains}
use incidentlens.Machine.Status.{AgentRunStatus}
use incidentlens.Guard.Types.{StopReason}

unfoldable pub pause_status_for : String → AgentRunStatus
pause_status_for reason =
    if contains reason "no-new-evidence" || contains reason "no new evidence"
    then AgentRunStatus.paused_missing_evidence
    else AgentRunStatus.paused_budget

unfoldable pub stop_reason_for : String → StopReason
stop_reason_for reason =
    if contains reason "round"
    then StopReason.budget_rounds
    else if contains reason "tool-call"
    then StopReason.budget_tool_calls
    else if contains reason "wall-clock" || contains reason "wall clock"
    then StopReason.budget_time
    else if contains reason "no-new-evidence" || contains reason "no new evidence"
    then StopReason.budget_no_new_evidence
    else if contains reason "output"
    then StopReason.budget_output
    else if contains reason "evidence budget"
    then StopReason.budget_evidence
    else if contains reason "child budget"
    then StopReason.budget_children
    else StopReason.budget_rounds
