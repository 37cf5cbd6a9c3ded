-- ===== src/Operation/Store.antt =====
-- operations/store.py: `OperationStore`, each method as one transaction on the tables. A method
-- that raises leaves the tables as they were (`ROLLBACK`).
use incidentlens.Common.{
  ℕ, String, Bool, ◌&&◌, not, Option, none, some, List, str_eq, if◌then◌else◌, leb, ◌==◌, filter,
  take, coalesce, is_some, ok, err, Action,
}
use incidentlens.Common.Sql.{update_where, rowcount, insert_row, order_by}
use incidentlens.Common.Keyed.{string_key, has_key, find}
use incidentlens.Machine.Status.{OperationStatus, operation, operation_value}
use incidentlens.Machine.Core.{assert_transition, mem_status}
use incidentlens.Machine.Tables.{operation_machine, operation_terminal}
use incidentlens.Operation.Types.{
  Operation, OperationAttempt, OperationError, operation_not_found, operation_already_exists,
  operation_not_claimable, concurrent_operation_update, integrity_error, limit_out_of_range,
  illegal_transition, Db, status_is, operation_key, attempt_key,
}

-- `status in OPERATION_TERMINAL`.
abbrev pub in_terminal : OperationStatus → Bool
in_terminal s = mem_status (operation s) operation_terminal

abbrev pub Store : Type 0 → Type 0
Store = Action Db OperationError

-- `OperationStore.get`.
unfoldable pub get : String → Store Operation
get id db = elim (find operation_key id db.operations) [
  | none ↦ (err operation_not_found, db)
  | some op ↦ (ok op, db)
]

unfoldable pub list_queued : ℕ → Store (List Operation)
unfolding order_by
list_queued limit db =
    if leb 1 limit && leb limit 1000
    then (
      ok (
          take limit (
            order_by (λ op. op.created_at)
              (filter (λ op. status_is op.status OperationStatus.queued) db.operations))),
      db,
    )
    else (err limit_out_of_range, db)

unfoldable pub list_attempts : String → Db → List OperationAttempt
unfolding order_by
list_attempts id db =
    order_by (λ a. a.created_at) (filter (λ a. str_eq a.operation_id id) db.attempts)

unfoldable pub list_non_terminal : Db → List Operation
unfolding order_by
list_non_terminal db =
    order_by (λ op. op.created_at) (filter (λ op. not (in_terminal op.status)) db.operations)

-- `OperationStore.create`: the primary key refuses a second row with the id.
unfoldable pub create : Operation → Store Operation
create op db =
    if is_some (find operation_key op.operation_id db.operations)
    then (err operation_already_exists, db)
    else (ok op, record db { operations = insert_row op db.operations })

-- `WHERE operation_id = ? AND status = ?`.
abbrev pub at_status : String → OperationStatus → Operation → Bool
at_status id status op = has_key operation_key id op && status_is op.status status

-- `SET status = 'running', claim_token = ?, claimed_at = ?, updated_at = ?`.
abbrev pub set_claimed : String → ℕ → Operation → Operation
set_claimed token now op = record op {
  status = OperationStatus.running;
  claim_token = some token;
  claimed_at = some now;
  updated_at = now;
}

abbrev pub running_attempt : String → String → String → ℕ → OperationAttempt
running_attempt attempt_id id token now = record {
  attempt_id = attempt_id;
  operation_id = id;
  status = "running";
  claimed_by = some token;
  started_at = some now;
  finished_at = none;
  created_at = now;
}

-- What `rowcount == 0` raises, after the look at whether the row is there.
abbrev pub missed : {A : Type 0} → String → OperationError → Store A
missed id e db =
    if is_some (find operation_key id db.operations)
    then (err e, db)
    else (err operation_not_found, db)

-- `OperationStore.claim`; `attempt_id` is the id that `uuid4` draws.
unfoldable pub claim : String → String → ℕ → String → Store Operation
claim id token now attempt_id db =
    if rowcount (at_status id OperationStatus.queued) db.operations == 0
    then missed id operation_not_claimable db
    else if is_some (find attempt_key attempt_id db.attempts)
    then (err integrity_error, db)
    else get id (record db {
      operations =
          update_where (at_status id OperationStatus.queued) (set_claimed token now) db.operations;
      attempts = insert_row (running_attempt attempt_id id token now) db.attempts;
    })

-- The `SET` of a transition; `COALESCE` keeps what the call leaves out.
abbrev pub set_moved :
    OperationStatus
    → Option String
    → Option String
    → Option String
    → Option ℕ
    → ℕ
    → Operation
    → Operation
set_moved target summary code message finished now op = record op {
  status = target;
  progress_summary = coalesce summary op.progress_summary;
  error_code = coalesce code op.error_code;
  error_message = coalesce message op.error_message;
  finished_at = finished;
  updated_at = now;
}

abbrev pub is_open_attempt : String → OperationAttempt → Bool
is_open_attempt id a = str_eq a.operation_id id && str_eq a.status "running"

abbrev pub set_finished : OperationStatus → ℕ → OperationAttempt → OperationAttempt
set_finished target now a = record a { status = operation_value target; finished_at = some now }

-- `now_utc if target in OPERATION_TERMINAL else operation.finished_at`.
abbrev pub end_of : Operation → OperationStatus → ℕ → Option ℕ
end_of op target now = if in_terminal target then some now else op.finished_at

-- The transaction of a transition that the state machine has let through.
unfoldable pub apply_transition :
    Operation
    → OperationStatus
    → ℕ
    → Option String
    → Option String
    → Option String
    → Store Operation
apply_transition op target now summary code message db =
    if rowcount (at_status op.operation_id op.status) db.operations == 0
    then (err concurrent_operation_update, db)
    else get op.operation_id (record db {
      operations =
          update_where (at_status op.operation_id op.status)
            (set_moved target summary code message (end_of op target now) now) db.operations;
      attempts =
          if in_terminal target
          then update_where (is_open_attempt op.operation_id) (set_finished target now) db.attempts
          else db.attempts;
    })

-- `OperationStore.transition`: `op` is the caller's copy of the row, which may be stale.
unfoldable pub transition :
    Operation
    → OperationStatus
    → ℕ
    → Option String
    → Option String
    → Option String
    → Store Operation
transition op target now summary code message db =
    elim (assert_transition operation_machine (operation op.status) (operation target)) [
      | err e ↦ (err (illegal_transition e), db)
      | ok _ ↦ apply_transition op target now summary code message db
    ]

-- `SET status = 'queued', claim_token = NULL, claimed_at = NULL, updated_at = ?`.
abbrev pub set_requeued : ℕ → Operation → Operation
set_requeued now op = record op {
  status = OperationStatus.queued;
  claim_token = none;
  claimed_at = none;
  updated_at = now;
}

-- `OperationStore.requeue`.
unfoldable pub requeue : Operation → ℕ → Store Operation
requeue op now db =
    if rowcount (at_status op.operation_id OperationStatus.running) db.operations == 0
    then missed op.operation_id concurrent_operation_update db
    else get op.operation_id (record db {
      operations =
          update_where (at_status op.operation_id OperationStatus.running) (set_requeued now)
            db.operations;
    })

-- `OperationStore.heartbeat`.
unfoldable pub heartbeat : String → ℕ → Db → Bool × Db
heartbeat id now db = (
  rowcount (at_status id OperationStatus.running) db.operations == 1,
  record db {
    operations =
        update_where (at_status id OperationStatus.running)
          (λ op. record op { claimed_at = some now; updated_at = now }) db.operations;
  },
)
