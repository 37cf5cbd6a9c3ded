-- ===== src/Guard/Tests.antt =====
-- The theorems about the guard at concrete runs.
use incidentlens.Common.{String, ◌≡◌, ◌↔◌, true, List, [], ◌∷◌, some, none}
use incidentlens.Machine.Status.{HypothesisStatus, InvestigationStatus, AgentRunStatus}
use incidentlens.Guard.Types.{
  AgentRun, Investigation, AgentRunKind, UsageCounters, Conclusion, Hypothesis, ChildReport,
  ChildReportStatus, LogScope, StopReason,
}
use incidentlens.Guard.Checks.{validate_conclusion, validate_hypothesis, validate_child_report}
use incidentlens.Guard.Citations.{IsGrounded, IsGrounded-iff}

abbrev used : UsageCounters
used = record {
  rounds = 8;
  tool_calls = 16;
  children = 1;
  wall_clock_seconds = 0;
  total_output_bytes = 1000;
  evidence_count = 1;
  consecutive_no_new_evidence_rounds = 0;
}

abbrev run : AgentRun
run = record {
  agent_run_id = "run_1";
  investigation_id = "inv_1";
  parent_run_id = none;
  scope = record {
    project_id = "shop";
    target_id = "host_1";
    scope = LogScope.host;
    service_name = none;
    container_name = none;
    allowed_host_paths = [];
    allowed_container_paths = [];
  };
  stop_reason = none;
  hypotheses = [];
  created_at = 1;
  updated_at = 5;
  completed_at = none;
  kind = AgentRunKind.parent;
  status = AgentRunStatus.running;
  budget = record {
    max_rounds = 8;
    max_tool_calls = 16;
    max_wall_clock_seconds = 1800;
    max_output_bytes_per_tool = 524288;
    max_total_output_bytes = 4194304;
    max_evidence = 100;
    max_no_new_evidence_rounds = 3;
  };
  usage = used;
  evidence = record { evidence_id = "ev_1"; operation_id = "op_1"; summary = "log" } ∷ [];
  started_at = some 5;
}

abbrev inv : Investigation
inv = record {
  investigation_id = "inv_1";
  incident_id = "inc_1";
  project_id = "shop";
  target_id = "host_1";
  service = "web";
  symptom = "errors";
  stop_reason = none;
  created_at = 1;
  updated_at = 5;
  completed_at = none;
  status = InvestigationStatus.running;
  budget = record {
    max_rounds = 8;
    max_tool_calls = 64;
    max_children = 4;
    max_wall_clock_seconds = 7200;
    max_total_output_bytes = 16777216;
    max_evidence = 300;
    max_no_new_evidence_rounds = 3;
  };
  usage = used;
  started_at = none;
}

abbrev cited : List String
cited = "ev_1" ∷ "ev_2" ∷ []

abbrev conclusion : Conclusion
conclusion = record {
  summary = "the disk is full";
  facts = [];
  inferences = [];
  unknowns = [];
  limitations = [];
  evidence_ids = cited;
}

abbrev hypothesis : Hypothesis
hypothesis = record {
  hypothesis_id = "hyp_1";
  agent_run_id = "run_1";
  summary = "the disk is full";
  facts = [];
  inferences = [];
  unknowns = [];
  evidence_ids = cited;
  status = HypothesisStatus.proposed;
  created_at = 6;
  updated_at = 6;
}

abbrev child_report : ChildReport
child_report = record {
  agent_run_id = "run_2";
  parent_run_id = "run_1";
  status = ChildReportStatus.partial;
  summary = "nothing found";
  findings = [];
  inferences = [];
  unknowns = [];
  limitations = [];
  evidence_ids = [];
  stop_reason = StopReason.cancelled;
  created_at = 7;
}

IsGrounded-iff_example :
    (((validate_conclusion run conclusion).0 ≡ true) ↔ IsGrounded run cited)
    × (((validate_hypothesis run hypothesis).0 ≡ true) ↔ IsGrounded run cited)
    × (((validate_child_report run child_report).0 ≡ true) ↔ IsGrounded run [])
IsGrounded-iff_example = IsGrounded-iff run conclusion hypothesis child_report
