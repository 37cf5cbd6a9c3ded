-- ===== src/Operation/Recovery.antt =====
-- operations/recovery.py: the startup classification of the operations that a restart has left.
pub mod Row
pub mod Pass
pub mod Settles
pub mod Safety
use Prim.Native.String.{◌++◌}
use incidentlens.Common.{
  ℕ, String, ◌+◌, Bool, true, false, ◌&&◌, Option, none, some, List, [], ◌∷◌, ok, err, pure, ◌>>=◌,
  if◌then◌else◌, all, any,
}
use incidentlens.Machine.Status.{
  InvestigationStatus, AgentRunStatus, OperationStatus, investigation, agent_run,
}
use incidentlens.Machine.Core.{is_terminal}
use incidentlens.Machine.Tables.{investigation_machine, agent_run_machine}
use incidentlens.Operation.Types.{
  OperationKind, Operation, concurrent_operation_update, illegal_transition,
}
use incidentlens.Operation.Store.{Store, list_non_terminal}
use incidentlens.Operation.Service

-- What recovery reads of an investigation: its status and the statuses of its agent runs.
pub record Linked : Type 0 where
  pub status : InvestigationStatus
  pub runs : List AgentRunStatus

pub record RecoverySummary : Type 0 where
  pub scanned : ℕ
  pub uncertain_rollbacks : ℕ
  pub requeued_target_tests : ℕ
  pub reconciled_agent_operations : ℕ
  pub requeued_reports : ℕ
  pub finalised_cancels : ℕ

-- `OperationRecoverySummary()`.
abbrev pub no_summary : RecoverySummary
no_summary = record {
  scanned = 0;
  uncertain_rollbacks = 0;
  requeued_target_tests = 0;
  reconciled_agent_operations = 0;
  requeued_reports = 0;
  finalised_cancels = 0;
}

-- The counter of the summary that a decision raises.
pub data Bucket : Type 0 where
  uncertain_rollbacks requeued_target_tests reconciled_agent_operations : Bucket
  requeued_reports finalised_cancels : Bucket

abbrev pub bump : Option Bucket → RecoverySummary → RecoverySummary
bump none s = s
bump (some Bucket.uncertain_rollbacks) s = record s {
  uncertain_rollbacks = s.uncertain_rollbacks + 1;
}
bump (some Bucket.requeued_target_tests) s = record s {
  requeued_target_tests = s.requeued_target_tests + 1;
}
bump (some Bucket.reconciled_agent_operations) s = record s {
  reconciled_agent_operations = s.reconciled_agent_operations + 1;
}
bump (some Bucket.requeued_reports) s = record s { requeued_reports = s.requeued_reports + 1 }
bump (some Bucket.finalised_cancels) s = record s { finalised_cancels = s.finalised_cancels + 1 }

-- `_DANGEROUS_RUNNING_KINDS`; also `_DANGEROUS_KINDS` of operations/dispatcher.py.
abbrev pub is_dangerous : OperationKind → Bool
is_dangerous OperationKind.rollback = true
is_dangerous _ = false

-- `except (IllegalTransition, ConcurrentOperationUpdate): return False`.
abbrev pub best_effort : Store Operation → Store Bool
best_effort call db =
    let (r, db') = call db in
    elim r [
      | ok _ ↦ (ok true, db')
      | err (illegal_transition _) ↦ (ok false, db')
      | err concurrent_operation_update ↦ (ok false, db')
      | err e ↦ (err e, db')
    ]

-- `if self._transition(…): return (bucket, 1)`, else `return None`.
abbrev pub counted : Bucket → Store Bool → Store (Option Bucket)
counted bucket call = do done ← call; pure (if done then some bucket else none)

abbrev pub is_completed : InvestigationStatus → Bool
is_completed InvestigationStatus.completed = true
is_completed _ = false

abbrev pub is_completed_run : AgentRunStatus → Bool
is_completed_run AgentRunStatus.completed = true
is_completed_run _ = false

abbrev pub is_terminal_run : AgentRunStatus → Bool
is_terminal_run s = is_terminal agent_run_machine (agent_run s)

abbrev pub non_empty {ℓ} : {A : Type ℓ} → List A → Bool
non_empty [] = false
non_empty (_ ∷ _) = true

abbrev pub outcome : Bool → OperationStatus
outcome done = if done then OperationStatus.succeeded else OperationStatus.failed

abbrev pub interrupted_summary : String
interrupted_summary =
    "interrupted by restart; remote outcome cannot be confirmed and is never replayed"

abbrev pub finalised_summary : String
finalised_summary = "cancellation finalised after restart"

module _ (redact : ℕ → String → String) (investigations : String → Option Linked) (now : ℕ) where
  -- `OperationRecovery._transition`.
  abbrev pub try_transition : Operation → OperationStatus → String → Store Bool
  try_transition op target summary =
      best_effort (Service.transition redact op.operation_id target (some summary) none none now)

  -- `OperationRecovery._requeue`.
  abbrev pub try_requeue : Operation → Store Bool
  try_requeue op = best_effort (Service.requeue redact op.operation_id now)

  -- The part of `_reconcile_agent_kind` below the lookup of the investigation.
  abbrev pub reconcile_linked : Operation → String → Option Linked → Store Bool
  reconcile_linked op id none =
      try_transition op OperationStatus.failed
        ("orphaned agent operation: linked investigation " ++ id ++ " no longer exists")
  reconcile_linked op id (some linked) =
      if is_terminal investigation_machine (investigation linked.status)
      then try_transition op (outcome (is_completed linked.status))
          ("linked investigation " ++ id ++ " is terminal")
      else if non_empty linked.runs && all is_terminal_run linked.runs
      then try_transition op (outcome (any is_completed_run linked.runs))
          ("linked runs of " ++ id ++ " are terminal")
      else try_requeue op

  -- `_reconcile_agent_kind`.
  abbrev pub reconcile_agent_kind : Operation → Option String → Store Bool
  reconcile_agent_kind op none =
      try_transition op OperationStatus.failed
        "orphaned agent operation: no linked investigation to reconcile"
  reconcile_agent_kind op (some id) = reconcile_linked op id (investigations id)

  -- The per-kind rules of `_classify`, for a running row.
  abbrev pub classify_running : OperationKind → Operation → Store (Option Bucket)
  classify_running OperationKind.rollback op = counted Bucket.uncertain_rollbacks (
      try_transition op OperationStatus.uncertain
        "interrupted by restart; remote outcome cannot be confirmed and is never replayed")
  classify_running OperationKind.target_test op =
      counted Bucket.requeued_target_tests (try_requeue op)
  classify_running OperationKind.agent_message op =
      counted Bucket.reconciled_agent_operations (reconcile_agent_kind op op.investigation_id)
  classify_running OperationKind.investigation_start op =
      counted Bucket.reconciled_agent_operations (reconcile_agent_kind op op.investigation_id)
  classify_running OperationKind.report_generate op =
      counted Bucket.requeued_reports (try_requeue op)

  -- `_classify`, by the status of the row.
  abbrev pub classify_at : OperationStatus → Operation → Store (Option Bucket)
  classify_at OperationStatus.cancel_requested op =
      counted Bucket.finalised_cancels
        (try_transition op OperationStatus.cancelled finalised_summary)
  classify_at OperationStatus.running op = classify_running op.kind op
  classify_at _ op = pure none

  unfoldable pub classify : Operation → Store (Option Bucket)
  classify op = classify_at op.status op

  -- The loop of `recover`.
  unfoldable pub recover_rows : RecoverySummary → List Operation → Store RecoverySummary
  recover_rows summary [] = pure summary
  recover_rows summary (op ∷ ops) = do
    decision ← classify op
    recover_rows (bump decision (record summary { scanned = summary.scanned + 1 })) ops

  unfoldable pub recover : Store RecoverySummary
  recover db = recover_rows no_summary (list_non_terminal db) db
