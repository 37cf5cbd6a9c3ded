-- ===== src/Manager/Runs.antt =====
-- A whole run of apply_body, a rollback with an approval, and the end of a verification.
use incidentlens.Common.{
  String, Bool, true, false, none, some, [], ◌∷◌, Result, ok, ◌≡◌, refl, codes, ◌⊎◌, same_text,
}
use incidentlens.Policy.Paths.{slash, host, ServiceRegistration}
use incidentlens.Changes.Types.{applied, ChangeSetRow, failed}
use incidentlens.Manager.Types.{
  Config, write, ChangeSetRequest, Intent, World, no_progress, Failure, ChangeResult,
}
use incidentlens.Manager.Apply.{apply_body}
use incidentlens.Manager.Rollback.{rollback, verify, says_failed}
use incidentlens.Manager.Guards.{Stopped, IsRolling, rollback-IsRolling}
use incidentlens.Manager.Samples.{Files, py, backend, config, at, world, journal_db}
use incidentlens.Changes.Store.{set_status}
use incidentlens.Manager.Verified.{IsAt, verdict_of, verify_lem}

-- An approval of any intent, once.
abbrev consume : String → Intent → Bool → Bool × Bool
consume id intent fresh = (fresh, false)

abbrev service : ServiceRegistration
service = record {
  compose_service = codes "app";
  container_names = [];
  local_source_path = none;
  container_path_hints = [];
  allowed_log_paths = [];
  allowed_host_paths = record { root = slash; parts = codes "srv" ∷ [] } ∷ [];
  allowed_container_paths = [];
  protected_remote_paths = [];
  allowed_validation_scripts = [];
}

abbrev request : ChangeSetRequest
request = record {
  changeset_id = "chs-2";
  first = record {
    operation_id = "fch-9";
    incident_id = "inc-1";
    project_id = "prj-1";
    target_id = "web-1";
    service = "app";
    scope = host;
    path = at ".env";
    mutation = write none (codes "A=1") none;
  };
  others = [];
  verification_plan = "curl";
  rollback_plan = "restore";
}

abbrev approving : Config
approving = record config { has_approvals = true }

abbrev start : World Files Bool
start = record {
  journal_db = record { changesets = []; file_changes = [] };
  disk = record { key_file = none; backups = [] };
  files = λ q. none;
  approvals = true;
  events = [];
  progress = no_progress;
}

abbrev run : Result Failure ChangeResult × World Files Bool
run =
    apply_body py backend approving 9 (codes "T") (codes "k") (λ f. codes "n") consume request
      service [] (some "apr-1") start

abbrev result : ChangeResult
result = record {
  changeset_id = "chs-2";
  status = applied;
  applied_files = at ".env" ∷ [];
  error = none;
  uncertain = false;
}

abbrev applied_row : ChangeSetRow
applied_row = record {
  changeset_id = "chs-1";
  incident_id = "inc-1";
  project_id = "prj-1";
  target_id = "web-1";
  service_name = "app";
  status = applied;
  created_at = 5;
  updated_at = 6;
  verification_plan = "curl";
  rollback_plan = "restore";
  approval_id = none;
}

abbrev applied_world : World Files (Unit {0})
applied_world = record world { journal_db = record journal_db { changesets = applied_row ∷ [] } }

verify_lem_example :
    (u : World Files (Unit {0})) × (verify py backend config 9
        (λ id intent a. (true, a))
        "chs-1"
        (codes " Failed")
        applied_world
      ≡ (ok tt, u))
    × IsAt "chs-1" (set_status (verdict_of py (codes " Failed")) 9 applied_row) applied_world u
verify_lem_example =
    verify_lem config 9 py backend (λ id intent a. (true, a)) "chs-1" (codes " Failed") applied_row
      applied_world refl refl

failed_test : verdict_of py (codes " Failed") ≡ failed
unfolding says_failed same_text
failed_test = refl

-- Two files were applied, and an approval is there.
abbrev rolling : World Files Bool
rolling = record start { journal_db = record journal_db { changesets = applied_row ∷ [] } }

rollback-IsRolling_example :
    Stopped (rollback py backend approving 9 consume "chs-1" (some "apr-1") rolling) rolling
    ⊎ IsRolling py approving consume "chs-1"
        (some "apr-1")
        rolling
        (rollback py backend approving 9 consume "chs-1" (some "apr-1") rolling).1
rollback-IsRolling_example =
    rollback-IsRolling py backend approving 9 consume "chs-1" (some "apr-1") rolling
