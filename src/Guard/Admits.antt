-- ===== src/Guard/Admits.antt =====
-- When the checks of investigation/guard.py allow, as plain statements about budgets and usage.
use incidentlens.Common.{
  ℕ, ◌≡◌, refl, sym, ap, ◌+◌, ◌*◌, ◌<◌, ◌≤◌, ◌↔◌, true, false, Option, none, some, arith,
}
use mathlib.Core.Bool.{false≢true}
use incidentlens.Machine.Status.{InvestigationStatus, AgentRunStatus}
use incidentlens.Machine.Core.{is_terminal}
use incidentlens.Guard.Types.{AgentRun, Investigation, AgentRunKind}
use incidentlens.Guard.Checks.{
  ℤ, pos, negsuc, check_executable, check_investigation_executable, is_over_time, is_running_run,
  is_running_investigation, check_wall_clock, check_investigation_wall_clock,
  is_stalled_no_new_evidence, is_investigation_stalled_no_new_evidence, check_before_model_turn,
  check_before_tool_execution, check_investigation_before_model_turn,
  check_investigation_before_tool_execution, can_accept_output, can_investigation_accept_output,
  can_spawn_child, is_child,
}

pub executable_lem : (s : AgentRunStatus) → (check_executable s).0 ≡ is_running_run s
unfolding is_terminal
executable_lem AgentRunStatus.running = refl
executable_lem _ = refl

pub investigation_executable_lem :
    (s : InvestigationStatus) → (check_investigation_executable s).0 ≡ is_running_investigation s
unfolding is_terminal
investigation_executable_lem InvestigationStatus.running = refl
investigation_executable_lem _ = refl

-- A run that has started is in time before its budget of seconds has elapsed.
abbrev pub IsInTime : Option ℕ → ℕ → ℕ → Type 0
IsInTime none max_seconds now = Unit
IsInTime (some started) max_seconds now = now < started + max_seconds * 1000000

IsInTime-iff :
    (started : Option ℕ) (max_seconds now : ℕ)
    → (is_over_time started max_seconds now ≡ false) ↔ IsInTime started max_seconds now
IsInTime-iff none max_seconds now = ((λ h. tt), λ h. refl)
IsInTime-iff (some t) max_seconds now = ((λ h. ground arith), λ h. ground arith)

running_iff : (s : AgentRunStatus) → (is_running_run s ≡ true) ↔ (s ≡ AgentRunStatus.running)
running_iff s = ((λ h. ground arith), λ h. ground arith)

model_turn_iff :
    (run : AgentRun) (now : ℕ)
    → ((check_before_model_turn run now).0 ≡ true) ↔ (
        (run.status ≡ AgentRunStatus.running)
        × (run.usage.rounds < run.budget.max_rounds)
        × (run.usage.consecutive_no_new_evidence_rounds < run.budget.max_no_new_evidence_rounds)
        × IsInTime run.started_at run.budget.max_wall_clock_seconds now)
unfolding check_before_model_turn is_stalled_no_new_evidence check_wall_clock
model_turn_iff run now = (
  (λ h. ground (
    arith,
    executable_lem run.status,
    running_iff run.status,
    IsInTime-iff run.started_at run.budget.max_wall_clock_seconds now,
  )),
  λ h. ground (
    arith,
    executable_lem run.status,
    running_iff run.status,
    IsInTime-iff run.started_at run.budget.max_wall_clock_seconds now,
  ),
)

tool_execution_iff :
    (run : AgentRun) (now : ℕ)
    → ((check_before_tool_execution run now).0 ≡ true) ↔ (
        (run.status ≡ AgentRunStatus.running)
        × (run.usage.tool_calls < run.budget.max_tool_calls)
        × IsInTime run.started_at run.budget.max_wall_clock_seconds now)
unfolding check_before_tool_execution check_wall_clock
tool_execution_iff run now = (
  (λ h. ground (
    arith,
    executable_lem run.status,
    running_iff run.status,
    IsInTime-iff run.started_at run.budget.max_wall_clock_seconds now,
  )),
  λ h. ground (
    arith,
    executable_lem run.status,
    running_iff run.status,
    IsInTime-iff run.started_at run.budget.max_wall_clock_seconds now,
  ),
)

-- A model turn is allowed exactly for a run that is running, has rounds left, has not used up its
-- rounds without new evidence, and is in time; a tool call exactly for a run that is running, has
-- tool calls left and is in time.
pub run_iff :
    (run : AgentRun) (now : ℕ)
    → (((check_before_model_turn run now).0 ≡ true) ↔ (
        (run.status ≡ AgentRunStatus.running)
        × (run.usage.rounds < run.budget.max_rounds)
        × (run.usage.consecutive_no_new_evidence_rounds < run.budget.max_no_new_evidence_rounds)
        × IsInTime run.started_at run.budget.max_wall_clock_seconds now))
      × (((check_before_tool_execution run now).0 ≡ true) ↔ (
          (run.status ≡ AgentRunStatus.running)
          × (run.usage.tool_calls < run.budget.max_tool_calls)
          × IsInTime run.started_at run.budget.max_wall_clock_seconds now))
run_iff run now = (model_turn_iff run now, tool_execution_iff run now)

running_investigation_iff :
    (s : InvestigationStatus)
    → (is_running_investigation s ≡ true) ↔ (s ≡ InvestigationStatus.running)
running_investigation_iff s = ((λ h. ground arith), λ h. ground arith)

-- The checks of the investigation allow a model turn and a tool call exactly while it is running,
-- has rounds left and has not used up its rounds without new evidence, or has tool calls left, and
-- is in time.
pub investigation_iff :
    (inv : Investigation) (now : ℕ)
    → (((check_investigation_before_model_turn inv now).0 ≡ true) ↔ (
        (inv.status ≡ InvestigationStatus.running)
        × (inv.usage.rounds < inv.budget.max_rounds)
        × (inv.usage.consecutive_no_new_evidence_rounds < inv.budget.max_no_new_evidence_rounds)
        × IsInTime inv.started_at inv.budget.max_wall_clock_seconds now))
      × (((check_investigation_before_tool_execution inv now).0 ≡ true) ↔ (
          (inv.status ≡ InvestigationStatus.running)
          × (inv.usage.tool_calls < inv.budget.max_tool_calls)
          × IsInTime inv.started_at inv.budget.max_wall_clock_seconds now))
unfolding check_investigation_before_model_turn check_investigation_before_tool_execution
    is_investigation_stalled_no_new_evidence check_investigation_wall_clock
investigation_iff inv now =
    let e = investigation_executable_lem inv.status in
    let r = running_investigation_iff inv.status in
    let t = IsInTime-iff inv.started_at inv.budget.max_wall_clock_seconds now in
    (
      ((λ h. ground (arith, e, r, t)), λ h. ground (arith, e, r, t)),
      ((λ h. ground (arith, e, r, t)), λ h. ground (arith, e, r, t)),
    )

-- An output is accepted by the run and by the investigation exactly where its size is a number of
-- bytes within the budget of one tool, and both totals stay within theirs.
accept_output_iff :
    (run : AgentRun) (inv : Investigation) (output_bytes : ℤ)
    → (((can_accept_output run output_bytes).0 ≡ true)
        × ((can_investigation_accept_output inv output_bytes).0 ≡ true))
      ↔ ((n : ℕ) × (output_bytes ≡ pos n)
          × (n ≤ run.budget.max_output_bytes_per_tool)
          × (run.usage.total_output_bytes + n ≤ run.budget.max_total_output_bytes)
          × (inv.usage.total_output_bytes + n ≤ inv.budget.max_total_output_bytes))
unfolding can_accept_output can_investigation_accept_output
accept_output_iff run inv (pos n) = (
  (λ h. (n, refl, ground arith, ground arith, ground arith)),
  λ (m, e, a, b, c). (ground arith, ground arith),
)
accept_output_iff run inv (negsuc n) =
    ((λ h. absurd (false≢true h.0)), λ (m, e, _, _, _). ground arith)

kind_iff : (k : AgentRunKind) → is_child k ≡ false → k ≡ AgentRunKind.parent
kind_iff AgentRunKind.parent h = refl
kind_iff AgentRunKind.child h = absurd (false≢true (sym h))

-- A child is spawned exactly by a parent run, while the investigation has children left.
pub spawn_child_iff :
    (run : AgentRun) (inv : Investigation)
    → ((can_spawn_child run inv).0 ≡ true)
      ↔ ((run.kind ≡ AgentRunKind.parent) × (inv.usage.children < inv.budget.max_children))
unfolding can_spawn_child
spawn_child_iff run inv = (
  (λ h. (kind_iff run.kind (ground arith), ground arith)),
  λ (e, b). ground (arith, ap is_child e),
)
