-- ===== src/Operation/Footprint.antt =====
-- What the calls of operations/service.py leave in the tables: the ids stay unique, the row of the
-- call is the new one, and every other row is as it was.
use incidentlens.Common.{ℕ, String, true, ◌≡◌, refl, ◌∙◌, ◌≢◌, Option, some}
use mathlib.Core.Option
use mathlib.Core.Path.{subst}
use incidentlens.Common.Keyed.{
  string_key, find, IsUnique, find_self, find-key, IsUnique-update, update_other,
}
use incidentlens.Machine.Status.{OperationStatus, running}
use incidentlens.Operation.Types.{Operation, Db, status_is, operation_key}
use incidentlens.Operation.Store.{at_status, set_moved, set_requeued, end_of}
use incidentlens.Operation.Claims.{update_found}
use incidentlens.Operation.Races.{status_is_refl}
use incidentlens.Operation.Service.{max_progress_summary_length, max_error_message_length}
use incidentlens.Operation.Effects.{requeued_db, service_move, service_moved_db}

-- The tables after such a step: the ids stay unique, the row is the new one, other rows stay.
module _ (redact : ℕ → String → String) (id : String) (now : ℕ) (db : Db) (op : Operation)
    (u : IsUnique operation_key db.operations)
    (e : find operation_key id db.operations ≡ some op) where
  pub requeued-IsUnique : IsUnique operation_key (requeued_db op now db).operations
  requeued-IsUnique =
      IsUnique-update operation_key (at_status op.operation_id running) (set_requeued now)
        db.operations (λ r. refl) u

  pub requeued_find :
      status_is op.status running ≡ true
      → find operation_key id (requeued_db op now db).operations ≡ some (set_requeued now op)
  requeued_find h =
      subst
        (λ j. find operation_key j (requeued_db op now db).operations ≡ some (set_requeued now op))
        (find-key operation_key id db.operations e)
        (update_found op.operation_id running db.operations (set_requeued now) op (λ r. refl)
          (find_self operation_key id db.operations e) h)

  pub requeued_other :
      (j : String)
      → j ≢ id
      → find operation_key j (requeued_db op now db).operations ≡ find operation_key j db.operations
  requeued_other j ne =
      update_other operation_key op.operation_id (λ r. status_is r.status running) db.operations j
        (set_requeued now) (λ r. refl) (λ p. ne (p ∙ find-key operation_key id db.operations e))

  module _ (target : OperationStatus) (summary code message : Option String) where
    abbrev pub after : Db
    after = service_moved_db redact target summary code message now op db

    pub moved-IsUnique : IsUnique operation_key after.operations
    moved-IsUnique =
        IsUnique-update operation_key (at_status op.operation_id op.status)
          (λ r.
            set_moved target (Option.map (redact max_progress_summary_length) summary) code
              (Option.map (redact max_error_message_length) message) (end_of op target now) now r)
          db.operations (λ r. refl) u

    pub moved_find :
        find operation_key id after.operations
        ≡ some (service_move redact target summary code message now op)
    moved_find =
        subst
          (λ j.
            find operation_key j after.operations
            ≡ some (service_move redact target summary code message now op))
          (find-key operation_key id db.operations e)
          (update_found op.operation_id op.status db.operations
            (λ r.
              set_moved target (Option.map (redact max_progress_summary_length) summary) code
                (Option.map (redact max_error_message_length) message) (end_of op target now) now r)
            op (λ r. refl) (find_self operation_key id db.operations e) (status_is_refl op.status))

    pub moved_other :
        (j : String)
        → j ≢ id
        → find operation_key j after.operations ≡ find operation_key j db.operations
    moved_other j ne =
        update_other operation_key op.operation_id (λ r. status_is r.status op.status) db.operations
          j
          (λ r.
            set_moved target (Option.map (redact max_progress_summary_length) summary) code
              (Option.map (redact max_error_message_length) message) (end_of op target now) now r)
          (λ r. refl) (λ p. ne (p ∙ find-key operation_key id db.operations e))
