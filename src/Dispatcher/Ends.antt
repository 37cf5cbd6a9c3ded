-- ===== src/Dispatcher/Ends.antt =====
-- The status that `_execute` of operations/dispatcher.py leaves, by the status that it finds.

use mathlib.Core.Path.{subst}
use incidentlens.Common.{
  ℕ, String, ◌≡◌, refl, sym, Bool, true, false, Option, none, some, if◌then◌else◌, ok, err, Result,
}
use incidentlens.Common.Keyed.{string_key, find, IsUnique}
use incidentlens.Machine.Status.{OperationStatus, operation}
use incidentlens.Machine.Core.{illegal_move}
use incidentlens.Operation.Types.{Operation, OperationError, Db, operation_key, illegal_transition}
use incidentlens.Operation.Service
use incidentlens.Operation.Moves.{allowed}
use incidentlens.Operation.Effects.{service_move, service_moved_db, service_transition_lem}
use incidentlens.Operation.Footprint.{moved_find}
use incidentlens.Operation.Recovery.{best_effort}
use incidentlens.Dispatcher.Finish.{
  OperationResult, Ended, returned, raised, cancelled, message_or_code, report, after_report,
  safe_transition_failed, settle,
}

-- The status that a handler's end asks for.
abbrev pub reported : Option String → OperationStatus
reported none = OperationStatus.succeeded
reported (some code) = OperationStatus.failed

abbrev pub finished_running : Ended → OperationStatus
finished_running cancelled = OperationStatus.running
finished_running (raised text) = OperationStatus.failed
finished_running (returned result) = reported result.error_code

abbrev pub finished_requested : Ended → OperationStatus
finished_requested cancelled = OperationStatus.cancel_requested
finished_requested _ = OperationStatus.failed

-- The status of the row after the handler's end.
abbrev pub finished : OperationStatus → Ended → OperationStatus
finished OperationStatus.running ended = finished_running ended
finished OperationStatus.cancel_requested ended = finished_requested ended
finished s ended = s

abbrev pub try_failed : OperationStatus → OperationStatus
try_failed s = if allowed s OperationStatus.failed then OperationStatus.failed else s

abbrev pub try_reported : OperationStatus → OperationStatus → OperationStatus
try_reported s target = if allowed s target then target else try_failed s

finished-raised : (s : OperationStatus) (text : String) → try_failed s ≡ finished s (raised text)
finished-raised OperationStatus.running text = refl
finished-raised OperationStatus.cancel_requested text = refl
finished-raised OperationStatus.queued text = refl
finished-raised _ text = refl

finished_returned :
    (s : OperationStatus) (result : OperationResult) (code : Option String)
    → result.error_code ≡ code
    → try_reported s (reported code) ≡ finished s (returned result)
finished_returned OperationStatus.running result none e = rw e refl
finished_returned OperationStatus.running result (some c) e = rw e refl
finished_returned OperationStatus.cancel_requested result none e = refl
finished_returned OperationStatus.cancel_requested result (some c) e = refl
finished_returned OperationStatus.queued result none e = refl
finished_returned OperationStatus.queued result (some c) e = refl
finished_returned _ result none e = refl
finished_returned _ result (some c) e = refl

-- The row with the id has the status.
pub record Leaves (id : String) (s : OperationStatus) (db : Db) : Type 0 where
  pub row : Operation
  pub found : find operation_key id db.operations ≡ some row
  pub status : row.status ≡ s

module _ (redact : ℕ → String → String) (describe : OperationError → String) (now : ℕ)
    (op row : Operation) (db : Db) (u : IsUnique operation_key db.operations)
    (e : find operation_key op.operation_id db.operations ≡ some row) where
  moved-Leaves :
      (target : OperationStatus) (summary code message : Option String)
      → Leaves op.operation_id target
          (service_moved_db redact target summary code message now row db)
  moved-Leaves target summary code message = record {
    row = service_move redact target summary code message now row;
    found = moved_find redact op.operation_id now db row u e target summary code message;
    status = refl;
  }

  -- What the transition to `target` returns, if it is `legal`.
  abbrev moving :
      OperationStatus
      → Option String
      → Option String
      → Option String
      → Bool
      → Result OperationError Operation × Db
  moving target summary code message legal =
      if legal
      then (
        ok (service_move redact target summary code message now row),
        service_moved_db redact target summary code message now row db,
      )
      else (err (illegal_transition (illegal_move (operation row.status) (operation target))), db)

  caught-Leaves :
      (target : OperationStatus) (summary code message : Option String) (legal : Bool)
      → Leaves op.operation_id
          (if legal then target else row.status)
          (best_effort (λ _. moving target summary code message legal) db).1
  caught-Leaves target summary code message true = moved-Leaves target summary code message
  caught-Leaves target summary code message false = record { row = row; found = e; status = refl }

  -- The tables after a transition whose refusal is swallowed.
  best_effort-Leaves :
      (target : OperationStatus) (summary code message : Option String)
      → Leaves op.operation_id
          (if allowed row.status target then target else row.status)
          (best_effort
            (Service.transition redact op.operation_id target summary code message now)
            db).1
  best_effort-Leaves target summary code message =
      subst
        (λ (o : Result OperationError Operation × Db).
          Leaves op.operation_id (if allowed row.status target then target else row.status)
            (best_effort (λ _. o) db).1)
        (sym (
          service_transition_lem redact op.operation_id target summary code message now db row u e))
        (caught-Leaves target summary code message (allowed row.status target))

  reported-Leaves :
      (target : OperationStatus) (summary code message : Option String) (legal : Bool)
      → Leaves op.operation_id
          (if legal then target else try_failed row.status)
          (after_report redact describe now op (moving target summary code message legal)).1
  reported-Leaves target summary code message true = moved-Leaves target summary code message
  reported-Leaves target summary code message false =
      (best_effort-Leaves OperationStatus.failed (some "handler failed") (some "operation_failed") (
        some
          (describe (illegal_transition (illegal_move (operation row.status) (operation target))))))

  report-Leaves :
      (result : OperationResult) (code : Option String)
      → Leaves op.operation_id
          (try_reported row.status (reported code))
          (after_report redact describe now op (report redact describe now op result code db)).1
  report-Leaves result none =
      (subst
        (λ (o : Result OperationError Operation × Db).
          Leaves op.operation_id (try_reported row.status OperationStatus.succeeded)
            (after_report redact describe now op o).1)
        (sym (
          service_transition_lem redact op.operation_id OperationStatus.succeeded
            (some result.summary) none none now db row u e))
        (reported-Leaves OperationStatus.succeeded (some result.summary) none none
          (allowed row.status OperationStatus.succeeded)))
  report-Leaves result (some code) =
      let message : Option String = some (message_or_code result.error_message code) in
      (subst
        (λ (o : Result OperationError Operation × Db).
          Leaves op.operation_id (try_reported row.status OperationStatus.failed)
            (after_report redact describe now op o).1)
        (sym (
          service_transition_lem redact op.operation_id OperationStatus.failed (some result.summary)
            (some code) message now db row u e))
        (reported-Leaves OperationStatus.failed (some result.summary) (some code) message
          (allowed row.status OperationStatus.failed)))

  finished_cancelled : (s : OperationStatus) → s ≡ finished s cancelled
  finished_cancelled OperationStatus.running = refl
  finished_cancelled OperationStatus.cancel_requested = refl
  finished_cancelled OperationStatus.queued = refl
  finished_cancelled _ = refl

  -- What the end of a handler makes of the row of its operation, over a table with unique ids: a
  -- running row gets the status of the result, or failed where the handler raised; a row whose
  -- cancellation was requested meanwhile becomes failed, a success included; a queued or terminal
  -- row keeps its status; a cancelled worker changes no status.
  pub settle_lem :
      (ended : Ended)
      → Leaves op.operation_id
          (finished row.status ended)
          (settle redact describe now op ended db).1
  settle_lem cancelled = record { row = row; found = e; status = finished_cancelled row.status }
  settle_lem (raised text) =
      subst
        (λ s. Leaves op.operation_id s (safe_transition_failed redact describe now op text db).1)
        (finished-raised row.status text)
        ((best_effort-Leaves OperationStatus.failed (some "handler failed")
          (some "operation_failed") (some text)))
  settle_lem (returned result) =
      subst
        (λ s.
          Leaves op.operation_id s
            (after_report redact describe now op
              (report redact describe now op result result.error_code db)).1)
        (finished_returned row.status result result.error_code refl)
        (report-Leaves result result.error_code)
