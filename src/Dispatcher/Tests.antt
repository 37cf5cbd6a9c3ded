-- ===== src/Dispatcher/Tests.antt =====
-- The theorems about the dispatcher at concrete tables.
use incidentlens.Common.{ℕ, String, ◌≡◌, refl, Bool, true, false, Option, none, some, [], ◌∷◌}
use incidentlens.Common.Keyed.{string_key, find, IsUnique}
use incidentlens.Machine.Status.{OperationStatus}
use incidentlens.Operation.Types.{Operation, OperationKind, OperationError, Db, operation_key}
use incidentlens.Dispatcher.State.{Dispatcher}
use incidentlens.Dispatcher.Select.{claim_next}
use incidentlens.Dispatcher.Finish.{OperationResult, returned, settle, start}
use incidentlens.Operation.Recovery.{recover, recover_rows, classify}
use incidentlens.Operation.Store.{list_non_terminal}
use incidentlens.Dispatcher.Serial.{Serial}
use incidentlens.Dispatcher.Reach.{started, IsReachable, claims, reachable-Serial}
use incidentlens.Dispatcher.Ends.{Leaves, settle_lem}

abbrev row : String → OperationKind → OperationStatus → Option String → ℕ → Operation
row id kind status session created = record {
  operation_id = id;
  kind = kind;
  status = status;
  target_id = "host_1";
  created_by = "owner";
  session_id = session;
  investigation_id = none;
  request_payload = none;
  progress_summary = none;
  error_code = none;
  error_message = none;
  claim_token = none;
  claimed_at = none;
  created_at = created;
  updated_at = created;
  finished_at = none;
}

abbrev requested : Operation
requested = row "op_c" OperationKind.target_test OperationStatus.cancel_requested none 3

abbrev tables : Db
tables = record {
  operations =
      row "op_a" OperationKind.rollback OperationStatus.queued none 1
      ∷ row "op_b" OperationKind.rollback OperationStatus.queued (some "s_1") 2
      ∷ requested
      ∷ [];
  attempts = [];
  events = [];
}

tables-IsUnique : IsUnique operation_key tables.operations
tables-IsUnique = (refl, (refl, (refl, tt)))

abbrev keep_text : ℕ → String → String
keep_text n s = s

abbrev describe : OperationError → String
describe e = "error"

abbrev every_kind : OperationKind → Bool
every_kind kind = true

abbrev draw : Operation → String
draw op = op.operation_id

abbrev first_claimed : Dispatcher
first_claimed = (claim_next keep_text every_kind "dispatcher:0" 9 draw (started tables)).1

reachable-Serial_example : Serial first_claimed
reachable-Serial_example = reachable-Serial keep_text describe every_kind first_claimed (
    claims "dispatcher:0" 9 draw (started tables) tables-IsUnique (λ op. refl)
      (IsReachable.start tables))

abbrev success : OperationResult
success = record { summary = "done"; error_code = none; error_message = none }

settle_lem_example :
    Leaves "op_c" OperationStatus.failed
      (settle keep_text describe 9 requested (returned success) tables).1
settle_lem_example =
    settle_lem keep_text describe 9 requested requested tables tables-IsUnique refl
      (returned success)

abbrev crashed : Dispatcher
crashed = record {
  active = false;
  in_flight = [];
  active_sessions = [];
  active_dangerous_targets = [];
  db = record {
    operations = row "op_a" OperationKind.target_test OperationStatus.queued none 1 ∷ [];
    attempts = [];
    events = [];
  };
}

abbrev waiting : Operation
waiting = row "op_a" OperationKind.target_test OperationStatus.queued none 1

waiting_found :
    find operation_key "op_a" (start keep_text describe 9 (λ id. none) crashed).1.db.operations
    ≡ some waiting
unfolding start recover recover_rows classify list_non_terminal
waiting_found = refl

abbrev interrupted : Db
interrupted = record {
  operations =
      row "op_r" OperationKind.rollback OperationStatus.running none 1
      ∷ row "op_t" OperationKind.target_test OperationStatus.running none 2
      ∷ [];
  attempts = [];
  events = [];
}
