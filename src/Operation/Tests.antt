-- ===== src/Operation/Tests.antt =====
-- The operations of operations/ on a small table: the theorems at inputs that meet their
-- hypotheses.
use incidentlens.Common.{ℕ, String, ◌≡◌, refl, true, Option, none, some, [], ◌∷◌, err}
use incidentlens.Common.Keyed.{string_key, find, IsUnique}
use incidentlens.Machine.Status.{OperationStatus, queued, running, cancel_requested, succeeded}
use incidentlens.Machine.Core.{assert_transition, can_transition, is_terminal}
use incidentlens.Operation.Json.{Json, json, object, field, text, end}
use incidentlens.Operation.Payload.{redact_json_value}
use incidentlens.Operation.Service.{NewOperation, create_operation}
use incidentlens.Operation.Store.{create}
use incidentlens.Operation.Types.{
  OperationKind, Operation, operation_not_claimable, concurrent_operation_update, Db, operation_key,
}
use incidentlens.Operation.Store
use incidentlens.Operation.Store.{
  claim, get, list_non_terminal, in_terminal, set_claimed, set_moved,
}
use incidentlens.Operation.Claimed.{ClaimEnds, claim-Ends}
use incidentlens.Operation.Races.{claim_once, transition_once}
use incidentlens.Operation.Service
use incidentlens.Operation.Service.{cancel, cancel_at}
use incidentlens.Operation.Recovery.{Linked, recover, recover_rows, classify}
use incidentlens.Operation.Recovery.Row.{is_left}
use incidentlens.Operation.Recovery.Settles.{Settlement, recover_lem}
use incidentlens.Operation.Recovery.Safety.{recover_quiet, recover_never_replays}

abbrev row : String → OperationKind → OperationStatus → Option String → ℕ → Operation
row id kind status inv created = record {
  operation_id = id;
  kind = kind;
  status = status;
  target_id = "host_1";
  created_by = "owner";
  session_id = none;
  investigation_id = inv;
  request_payload = none;
  progress_summary = none;
  error_code = none;
  error_message = none;
  claim_token = none;
  claimed_at = none;
  created_at = created;
  updated_at = created;
  finished_at = none;
}

abbrev fresh_report : Operation
fresh_report = row "op_a" OperationKind.report_generate queued none 1

abbrev live_rollback : Operation
live_rollback = row "op_b" OperationKind.rollback running none 2

abbrev live_agent : Operation
live_agent = row "op_c" OperationKind.agent_message running (some "inv_1") 3

abbrev tables : Db
tables = record {
  operations = live_agent ∷ live_rollback ∷ fresh_report ∷ [];
  attempts = [];
  events = [];
}

tables-IsUnique : IsUnique operation_key tables.operations
tables-IsUnique = (refl, (refl, (refl, tt)))

abbrev keep_text : ℕ → String → String
keep_text n s = s

abbrev no_investigations : String → Option Linked
no_investigations id = none

claim-Ends_example : ClaimEnds "op_a" "w0" 9 "att_1" tables (claim "op_a" "w0" 9 "att_1" tables)
claim-Ends_example = claim-Ends "op_a" "w0" 9 "att_1" tables tables-IsUnique

abbrev claimed_tables : Db
claimed_tables = (claim "op_a" "w0" 9 "att_1" tables).1

claim_once_example :
    claim "op_a" "w1" 10 "att_2" claimed_tables ≡ (err operation_not_claimable, claimed_tables)
unfolding claim get
claim_once_example =
    claim_once "op_a" "w0" "w1" 9 10 "att_1" "att_2" tables {op = set_claimed "w0" 9 fresh_report}
      tables-IsUnique refl

abbrev moved_tables : Db
moved_tables = (Store.transition live_rollback succeeded 9 none none none tables).1

transition_once_example :
    Store.transition live_rollback cancel_requested 10 none none none moved_tables
    ≡ (err concurrent_operation_update, moved_tables)
unfolding Store.transition Store.apply_transition get assert_transition can_transition
transition_once_example =
    transition_once live_rollback succeeded cancel_requested 9 10 none none none none none none
      tables {r = set_moved succeeded none none none (some 9) 9 live_rollback} tables-IsUnique refl

abbrev cancelled_tables : Db
cancelled_tables = (cancel keep_text "op_b" 9 tables).1

recover_lem_example :
    Settlement no_investigations tables (recover keep_text no_investigations 9 tables)
recover_lem_example = recover_lem keep_text no_investigations 9 tables tables-IsUnique

abbrev recovered_tables : Db
recovered_tables = (recover keep_text no_investigations 9 tables).1

recover_never_replays_example :
    claim "op_b" "w0" 10 "att_1" recovered_tables ≡ (err operation_not_claimable, recovered_tables)
recover_never_replays_example =
    recover_never_replays keep_text no_investigations 9 tables tables-IsUnique "op_b" "w0" 10
      "att_1" live_rollback refl refl refl

recover_report : find operation_key "op_a" recovered_tables.operations ≡ some fresh_report
unfolding recover recover_rows classify list_non_terminal Service.transition Service.requeue
    Store.transition Store.apply_transition Store.requeue get assert_transition can_transition
    is_terminal
recover_report = refl

recover_quiet_example : is_left fresh_report.status ≡ true
recover_quiet_example =
    recover_quiet keep_text no_investigations 9 tables tables-IsUnique "op_a" fresh_report
      recover_report

abbrev new_message : NewOperation
new_message = record {
  kind = OperationKind.agent_message;
  target_id = "host_1";
  created_by = "owner";
  session_id = none;
  investigation_id = none;
  request_payload = some (json (object (field "Token" (text "abc") end)));
  progress_summary = none;
}

abbrev hidden : Json
hidden = object (field "Token" (text "[REDACTED_TOKEN]") end)

abbrev new_tables : Db
unfolding create_operation create redact_json_value
new_tables = (create_operation keep_text "op_z" new_message 9 tables).1
