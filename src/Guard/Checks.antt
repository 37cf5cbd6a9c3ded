-- ===== src/Guard/Checks.antt =====
-- class InvestigationGuard of investigation/guard.py. A verdict is `(allowed, reason)`. A time is in
-- microseconds; the elapsed time is compared by adding the budget to the start.
use Prim.Native.String.{◌++◌}
use incidentlens.Common.{
  ℕ, String, ◌+◌, ◌*◌, Bool, true, false, not, Option, none, some, List, [], ◌∷◌, if◌then◌else◌,
  leb, ltb, any, filter, str_eq,
}
use incidentlens.Machine.Status.{
  InvestigationStatus, AgentRunStatus, investigation, agent_run, agent_run_value,
  investigation_value,
}
use incidentlens.Machine.Core.{is_terminal}
use incidentlens.Machine.Tables.{investigation_machine, agent_run_machine}
use incidentlens.Guard.Types.{
  AgentRun, Investigation, AgentRunKind, EvidenceReference, Conclusion, Hypothesis, ChildReport,
}

-- A Python `int`: `pos n` is n, `negsuc n` is -(n + 1).
pub data ℤ : Type 0 where
  pos negsuc : ℕ → ℤ

abbrev pub Verdict : Type 0
Verdict = Bool × String

-- `if checked[0] is False: return checked`, else go on.
abbrev pub unless_refused : Verdict → Verdict → Verdict
unless_refused checked next = if not checked.0 then checked else next

abbrev pub is_running_run : AgentRunStatus → Bool
is_running_run AgentRunStatus.running = true
is_running_run _ = false

abbrev pub is_running_investigation : InvestigationStatus → Bool
is_running_investigation InvestigationStatus.running = true
is_running_investigation _ = false

-- `_check_executable`, on the status.
abbrev pub check_executable : AgentRunStatus → Verdict
check_executable s =
    if is_terminal agent_run_machine (agent_run s)
    then (false, "run is terminal")
    else if not (is_running_run s)
    then (false, "run is not executable in status '" ++ (agent_run_value s ++ "'"))
    else (true, "run is executable")

-- `_check_investigation_executable`, on the status.
abbrev pub check_investigation_executable : InvestigationStatus → Verdict
check_investigation_executable s =
    if is_terminal investigation_machine (investigation s)
    then (false, "investigation is terminal")
    else if not (is_running_investigation s)
    then (false, "investigation is not executable in status '" ++ (investigation_value s ++ "'"))
    else (true, "investigation is executable")

-- `elapsed >= max_wall_clock_seconds`.
abbrev pub is_over_time : Option ℕ → ℕ → ℕ → Bool
is_over_time none max_seconds now = false
is_over_time (some started) max_seconds now = leb (started + max_seconds * 1000000) now

unfoldable pub check_wall_clock : AgentRun → ℕ → Verdict
check_wall_clock run now =
    if is_over_time run.started_at run.budget.max_wall_clock_seconds now
    then (false, "wall-clock budget exhausted")
    else (true, "wall-clock budget available")

unfoldable pub check_investigation_wall_clock : Investigation → ℕ → Verdict
check_investigation_wall_clock inv now =
    if is_over_time inv.started_at inv.budget.max_wall_clock_seconds now
    then (false, "investigation wall-clock budget exhausted")
    else (true, "investigation wall-clock budget available")

unfoldable pub is_stalled_no_new_evidence : AgentRun → Verdict
is_stalled_no_new_evidence run =
    if leb run.budget.max_no_new_evidence_rounds run.usage.consecutive_no_new_evidence_rounds
    then (false, "no-new-evidence budget exhausted")
    else (true, "no-new-evidence budget available")

unfoldable pub is_investigation_stalled_no_new_evidence : Investigation → Verdict
is_investigation_stalled_no_new_evidence inv =
    if leb inv.budget.max_no_new_evidence_rounds inv.usage.consecutive_no_new_evidence_rounds
    then (false, "investigation no-new-evidence budget exhausted")
    else (true, "investigation no-new-evidence budget available")

unfoldable pub check_before_model_turn : AgentRun → ℕ → Verdict
check_before_model_turn run now = unless_refused (check_executable run.status) (
    if leb run.budget.max_rounds run.usage.rounds
    then (false, "round budget exhausted")
    else unless_refused (is_stalled_no_new_evidence run) (check_wall_clock run now))

unfoldable pub check_before_tool_execution : AgentRun → ℕ → Verdict
check_before_tool_execution run now = unless_refused (check_executable run.status) (
    if leb run.budget.max_tool_calls run.usage.tool_calls
    then (false, "tool-call budget exhausted")
    else check_wall_clock run now)

unfoldable pub check_investigation_before_model_turn : Investigation → ℕ → Verdict
check_investigation_before_model_turn inv now =
    unless_refused (check_investigation_executable inv.status) (
      if leb inv.budget.max_rounds inv.usage.rounds
      then (false, "investigation round budget exhausted")
      else unless_refused (is_investigation_stalled_no_new_evidence inv)
          (check_investigation_wall_clock inv now))

unfoldable pub check_investigation_before_tool_execution : Investigation → ℕ → Verdict
check_investigation_before_tool_execution inv now =
    unless_refused (check_investigation_executable inv.status) (
      if leb inv.budget.max_tool_calls inv.usage.tool_calls
      then (false, "investigation tool-call budget exhausted")
      else check_investigation_wall_clock inv now)

unfoldable pub can_investigation_accept_output : Investigation → ℤ → Verdict
can_investigation_accept_output inv (negsuc n) = (false, "output_bytes must not be negative")
can_investigation_accept_output inv (pos output_bytes) =
    if ltb inv.budget.max_total_output_bytes (inv.usage.total_output_bytes + output_bytes)
    then (false, "investigation cumulative output budget exceeded")
    else (true, "investigation output within budget")

unfoldable pub can_investigation_accept_new_evidence : Investigation → Verdict
can_investigation_accept_new_evidence inv =
    if leb inv.budget.max_evidence inv.usage.evidence_count
    then (false, "investigation evidence budget exhausted")
    else (true, "investigation evidence budget available")

unfoldable pub can_accept_output : AgentRun → ℤ → Verdict
can_accept_output run (negsuc n) = (false, "output_bytes must not be negative")
can_accept_output run (pos output_bytes) =
    if ltb run.budget.max_output_bytes_per_tool output_bytes
    then (false, "per-tool output budget exceeded")
    else if ltb run.budget.max_total_output_bytes (run.usage.total_output_bytes + output_bytes)
    then (false, "cumulative output budget exceeded")
    else (true, "output within budget")

abbrev pub is_child : AgentRunKind → Bool
is_child AgentRunKind.child = true
is_child AgentRunKind.parent = false

unfoldable pub can_spawn_child : AgentRun → Investigation → Verdict
can_spawn_child run inv =
    if is_child run.kind
    then (false, "child run must not delegate grandchildren")
    else if leb inv.budget.max_children inv.usage.children
    then (false, "child budget exhausted")
    else (true, "child budget available")

unfoldable pub can_accept_new_evidence : AgentRun → Verdict
can_accept_new_evidence run =
    if leb run.budget.max_evidence run.usage.evidence_count
    then (false, "evidence budget exhausted")
    else (true, "evidence budget available")

abbrev pub is_known : List EvidenceReference → String → Bool
is_known evidence id = any (λ (e : EvidenceReference). str_eq e.evidence_id id) evidence

-- `set(evidence_ids) - known`, of which only the emptiness is asked.
abbrev pub missing : List EvidenceReference → List String → List String
missing evidence ids = filter (λ id. not (is_known evidence id)) ids

abbrev pub is_empty {ℓ} : {A : Type ℓ} → List A → Bool
is_empty [] = true
is_empty (_ ∷ _) = false

-- `_validate_citations`.
unfoldable pub validate_citations : AgentRun → List String → String → Verdict
validate_citations run evidence_ids subject =
    if is_empty evidence_ids
    then (false, subject ++ " cites no evidence")
    else if not (is_empty (missing run.evidence evidence_ids))
    then (false, subject ++ " cites evidence not collected in this investigation")
    else (true, subject ++ " is grounded in current evidence")

abbrev pub validate_conclusion : AgentRun → Conclusion → Verdict
validate_conclusion run c = validate_citations run c.evidence_ids "conclusion"

abbrev pub validate_hypothesis : AgentRun → Hypothesis → Verdict
validate_hypothesis run h = validate_citations run h.evidence_ids "hypothesis"

abbrev pub validate_child_report : AgentRun → ChildReport → Verdict
validate_child_report run r = validate_citations run r.evidence_ids "child report"
