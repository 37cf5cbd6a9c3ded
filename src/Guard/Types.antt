-- ===== src/Guard/Types.antt =====
-- The types of investigation/types.py that investigation/guard.py reads, as records without their length bounds.
use incidentlens.Common.{ℕ, String, Option, List}
use incidentlens.Machine.Status.{InvestigationStatus, AgentRunStatus, HypothesisStatus}

pub record InvestigationBudget : Type 0 where
  pub max_rounds : ℕ
  pub max_tool_calls : ℕ
  pub max_children : ℕ
  pub max_wall_clock_seconds : ℕ
  pub max_total_output_bytes : ℕ
  pub max_evidence : ℕ
  pub max_no_new_evidence_rounds : ℕ

pub record AgentBudget : Type 0 where
  pub max_rounds : ℕ
  pub max_tool_calls : ℕ
  pub max_wall_clock_seconds : ℕ
  pub max_output_bytes_per_tool : ℕ
  pub max_total_output_bytes : ℕ
  pub max_evidence : ℕ
  pub max_no_new_evidence_rounds : ℕ

pub record UsageCounters : Type 0 where
  pub rounds : ℕ
  pub tool_calls : ℕ
  pub children : ℕ
  pub wall_clock_seconds : ℕ
  pub total_output_bytes : ℕ
  pub evidence_count : ℕ
  pub consecutive_no_new_evidence_rounds : ℕ

pub record EvidenceReference : Type 0 where
  pub evidence_id : String
  pub operation_id : String
  pub summary : String

pub data AgentRunKind : Type 0 where
  parent child : AgentRunKind

pub data StopReason : Type 0 where
  completed budget_rounds budget_tool_calls budget_time budget_output budget_evidence : StopReason
  budget_children budget_no_new_evidence missing_evidence pending_approval : StopReason
  uncertain_state cancelled failed : StopReason

-- `LogScope` of logs/types.py.
pub data LogScope : Type 0 where
  host container : LogScope

-- A path is its text.
pub record AgentScope : Type 0 where
  pub project_id : String
  pub target_id : String
  pub scope : LogScope
  pub service_name : Option String
  pub container_name : Option String
  pub allowed_host_paths : List String
  pub allowed_container_paths : List String

pub record Hypothesis : Type 0 where
  pub hypothesis_id : String
  pub agent_run_id : String
  pub summary : String
  pub facts : List String
  pub inferences : List String
  pub unknowns : List String
  pub evidence_ids : List String
  pub status : HypothesisStatus
  pub created_at : ℕ
  pub updated_at : ℕ

pub record Conclusion : Type 0 where
  pub summary : String
  pub facts : List String
  pub inferences : List String
  pub unknowns : List String
  pub limitations : List String
  pub evidence_ids : List String

pub data ChildReportStatus : Type 0 where
  complete partial : ChildReportStatus

pub record ChildReport : Type 0 where
  pub agent_run_id : String
  pub parent_run_id : String
  pub status : ChildReportStatus
  pub summary : String
  pub findings : List String
  pub inferences : List String
  pub unknowns : List String
  pub limitations : List String
  pub evidence_ids : List String
  pub stop_reason : StopReason
  pub created_at : ℕ

pub record Investigation : Type 0 where
  pub investigation_id : String
  pub incident_id : String
  pub project_id : String
  pub target_id : String
  pub service : String
  pub symptom : String
  pub status : InvestigationStatus
  pub budget : InvestigationBudget
  pub usage : UsageCounters
  pub stop_reason : Option StopReason
  pub created_at : ℕ
  pub updated_at : ℕ
  pub started_at : Option ℕ
  pub completed_at : Option ℕ

pub record AgentRun : Type 0 where
  pub agent_run_id : String
  pub investigation_id : String
  pub parent_run_id : Option String
  pub kind : AgentRunKind
  pub scope : AgentScope
  pub status : AgentRunStatus
  pub budget : AgentBudget
  pub usage : UsageCounters
  pub stop_reason : Option StopReason
  pub evidence : List EvidenceReference
  pub hypotheses : List Hypothesis
  pub created_at : ℕ
  pub updated_at : ℕ
  pub started_at : Option ℕ
  pub completed_at : Option ℕ
