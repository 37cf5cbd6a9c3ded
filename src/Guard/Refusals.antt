-- ===== src/Guard/Refusals.antt =====
-- The stop reason that investigation/orchestrator.py reads from a refusal of investigation/guard.py.
use mathlib.Core.Bool.{true≢false}
use incidentlens.Common.{ℕ, ◌≡◌, ◌≤◌, true, false, inl, inr, Bool-cases, leb, leb→le}
use incidentlens.Machine.Status.{InvestigationStatus, AgentRunStatus}
use incidentlens.Machine.Core.{is_terminal}
use incidentlens.Guard.Types.{AgentRun, Investigation, StopReason}
use incidentlens.Guard.Checks.{
  Verdict, is_over_time, check_wall_clock, check_investigation_wall_clock,
  is_stalled_no_new_evidence, is_investigation_stalled_no_new_evidence, check_before_model_turn,
  check_before_tool_execution, check_investigation_before_model_turn,
}
use incidentlens.Guard.Reasons.{stop_reason_for}

-- The budget of a run that a stop reason names is used up.
abbrev pub IsExhausted : AgentRun → ℕ → StopReason → Type 0
IsExhausted run now StopReason.budget_rounds = run.budget.max_rounds ≤ run.usage.rounds
IsExhausted run now StopReason.budget_tool_calls = run.budget.max_tool_calls ≤ run.usage.tool_calls
IsExhausted run now StopReason.budget_no_new_evidence =
    run.budget.max_no_new_evidence_rounds ≤ run.usage.consecutive_no_new_evidence_rounds
IsExhausted run now StopReason.budget_time =
    is_over_time run.started_at run.budget.max_wall_clock_seconds now ≡ true
IsExhausted run now _ = ⊥

abbrev pub IsInvestigationExhausted : Investigation → ℕ → StopReason → Type 0
IsInvestigationExhausted inv now StopReason.budget_rounds = inv.budget.max_rounds ≤ inv.usage.rounds
IsInvestigationExhausted inv now StopReason.budget_tool_calls =
    inv.budget.max_tool_calls ≤ inv.usage.tool_calls
IsInvestigationExhausted inv now StopReason.budget_no_new_evidence =
    inv.budget.max_no_new_evidence_rounds ≤ inv.usage.consecutive_no_new_evidence_rounds
IsInvestigationExhausted inv now StopReason.budget_time =
    is_over_time inv.started_at inv.budget.max_wall_clock_seconds now ≡ true
IsInvestigationExhausted inv now _ = ⊥

model_turn_refusal :
    (run : AgentRun) (now : ℕ)
    → run.status ≡ AgentRunStatus.running
    → (check_before_model_turn run now).0 ≡ false
    → IsExhausted run now (stop_reason_for (check_before_model_turn run now).1)
unfolding check_before_model_turn is_stalled_no_new_evidence check_wall_clock is_terminal
    stop_reason_for
model_turn_refusal run now s refused =
    elim (Bool-cases (leb run.budget.max_rounds run.usage.rounds)) [
      | inl a ↦ rw (s, a) (leb→le run.budget.max_rounds run.usage.rounds a)
      | inr a ↦
          elim (Bool-cases (
            leb run.budget.max_no_new_evidence_rounds
              run.usage.consecutive_no_new_evidence_rounds)) [
                | inl b ↦
                    rw (s, a, b)
                      (leb→le run.budget.max_no_new_evidence_rounds
                        run.usage.consecutive_no_new_evidence_rounds b)
                | inr b ↦
                    elim (Bool-cases
                      (is_over_time run.started_at run.budget.max_wall_clock_seconds now)) [
                        | inl c ↦ rw (s, a, b, c) c
                        | inr c ↦ absurd (true≢false (rw (s, a, b, c) at refused))
                      ]
              ]
    ]

tool_execution_refusal :
    (run : AgentRun) (now : ℕ)
    → run.status ≡ AgentRunStatus.running
    → (check_before_tool_execution run now).0 ≡ false
    → IsExhausted run now (stop_reason_for (check_before_tool_execution run now).1)
unfolding check_before_tool_execution check_wall_clock is_terminal stop_reason_for
tool_execution_refusal run now s refused =
    elim (Bool-cases (leb run.budget.max_tool_calls run.usage.tool_calls)) [
      | inl a ↦ rw (s, a) (leb→le run.budget.max_tool_calls run.usage.tool_calls a)
      | inr a ↦
          elim (Bool-cases (is_over_time run.started_at run.budget.max_wall_clock_seconds now)) [
            | inl c ↦ rw (s, a, c) c
            | inr c ↦ absurd (true≢false (rw (s, a, c) at refused))
          ]
    ]

pub data RunCheck : Type 0 where
  before_model_turn before_tool_execution : RunCheck

abbrev pub check : RunCheck → AgentRun → ℕ → Verdict
check before_model_turn run now = check_before_model_turn run now
check before_tool_execution run now = check_before_tool_execution run now

-- When the check of a model turn or of a tool call refuses a running run, the stop reason that the
-- orchestrator reads from the text of the refusal names a budget of the run that is used up.
run_refusal :
    (c : RunCheck) (run : AgentRun) (now : ℕ)
    → run.status ≡ AgentRunStatus.running
    → (check c run now).0 ≡ false
    → IsExhausted run now (stop_reason_for (check c run now).1)
run_refusal before_model_turn run now s refused = model_turn_refusal run now s refused
run_refusal before_tool_execution run now s refused = tool_execution_refusal run now s refused

-- When the check of the investigation refuses a model turn while it is running, the stop reason
-- read from the refusal names a budget of the investigation that is used up.
pub investigation_turn_refusal :
    (inv : Investigation) (now : ℕ)
    → inv.status ≡ InvestigationStatus.running
    → (check_investigation_before_model_turn inv now).0 ≡ false
    → IsInvestigationExhausted inv now
        (stop_reason_for (check_investigation_before_model_turn inv now).1)
unfolding check_investigation_before_model_turn is_investigation_stalled_no_new_evidence
    check_investigation_wall_clock is_terminal stop_reason_for
investigation_turn_refusal inv now s refused =
    elim (Bool-cases (leb inv.budget.max_rounds inv.usage.rounds)) [
      | inl a ↦ rw (s, a) (leb→le inv.budget.max_rounds inv.usage.rounds a)
      | inr a ↦
          elim (Bool-cases (
            leb inv.budget.max_no_new_evidence_rounds
              inv.usage.consecutive_no_new_evidence_rounds)) [
                | inl b ↦
                    rw (s, a, b)
                      (leb→le inv.budget.max_no_new_evidence_rounds
                        inv.usage.consecutive_no_new_evidence_rounds b)
                | inr b ↦
                    elim (Bool-cases
                      (is_over_time inv.started_at inv.budget.max_wall_clock_seconds now)) [
                        | inl c ↦ rw (s, a, b, c) c
                        | inr c ↦ absurd (true≢false (rw (s, a, b, c) at refused))
                      ]
              ]
    ]
