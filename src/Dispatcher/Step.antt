-- ===== src/Dispatcher/Step.antt =====
-- The loop body of `_sweep_running` of operations/dispatcher.py, on one row that is as it was read.
use mathlib.Core.Path.{subst}
use incidentlens.Common.{
  ℕ, String, ◌≡◌, ◌≢◌, refl, sym, ◌∙◌, Bool, true, false, Option, none, some, ok, Result,
}
use incidentlens.Common.Keyed.{string_key, find, IsUnique}
use incidentlens.Machine.Status.{OperationStatus}
use incidentlens.Operation.Types.{
  Operation, OperationKind, OperationError, Db, operation_key, status_is,
}
use incidentlens.Operation.Store.{set_requeued}
use incidentlens.Operation.Service
use incidentlens.Operation.Moves.{allowed}
use incidentlens.Operation.Effects.{
  service_move, service_moved_db, service_transition_lem, requeued_db, announced,
  service_requeue_lem,
}
use incidentlens.Operation.Footprint.{
  moved-IsUnique, moved_find, moved_other, requeued-IsUnique, requeued_find, requeued_other,
}
use incidentlens.Operation.Recovery.{best_effort}
use incidentlens.Dispatcher.Finish.{sweep_at}
use incidentlens.Dispatcher.Ends.{Leaves}

-- The status of a row after the sweep.
abbrev pub swept : OperationStatus → OperationKind → OperationStatus
swept OperationStatus.running OperationKind.rollback = OperationStatus.uncertain
swept OperationStatus.running _ = OperationStatus.queued
swept s kind = s

-- One row swept: it has its new status, and every other row is as it was.
pub record Step (op : Operation) (s : OperationStatus) (db : Db)
    (o : Result OperationError Bool × Db) : Type 0 where
  pub done : Bool
  pub returned : o.0 ≡ ok done
  pub unique : IsUnique operation_key o.1.operations
  pub leaves : Leaves op.operation_id s o.1
  pub others :
      (j : String)
      → j ≢ op.operation_id
      → find operation_key j o.1.operations ≡ find operation_key j db.operations

module _ (redact : ℕ → String → String) (describe : OperationError → String) (now : ℕ)
    (op : Operation) (db : Db) (u : IsUnique operation_key db.operations)
    (e : find operation_key op.operation_id db.operations ≡ some op) where
  moved-Step :
      (target : OperationStatus) (summary code message : Option String)
      → allowed op.status target ≡ true
      → Step op target db (
          best_effort
            (Service.transition redact op.operation_id target summary code message now)
            db)
  moved-Step target summary code message a =
      let moved : Service.transition redact op.operation_id target summary code message now db ≡ (
        ok (service_move redact target summary code message now op),
        service_moved_db redact target summary code message now op db,
      ) =
        service_transition_lem redact op.operation_id target summary code message now db op u e
        ∙ rw a refl in
      subst
        (λ (o : Result OperationError Operation × Db). Step op target db (best_effort (λ _. o) db))
        (sym moved)
        (record {
          done = true;
          returned = refl;
          unique = moved-IsUnique redact op.operation_id now db op u e target summary code message;
          leaves = record {
            row = service_move redact target summary code message now op;
            found = moved_find redact op.operation_id now db op u e target summary code message;
            status = refl;
          };
          others = moved_other redact op.operation_id now db op u e target summary code message;
        })

  requeued-Step :
      status_is op.status OperationStatus.running ≡ true
      → Step op OperationStatus.queued db
          (best_effort (Service.requeue redact op.operation_id now) db)
  requeued-Step a =
      let moved : Service.requeue redact op.operation_id now db ≡ (
        ok (set_requeued now op),
        announced redact (set_requeued now op) (requeued_db op now db),
      ) =
        service_requeue_lem redact op.operation_id now db op u e ∙ rw a refl in
      subst
        (λ (o : Result OperationError Operation × Db).
          Step op OperationStatus.queued db (best_effort (λ _. o) db))
        (sym moved)
        (record {
          done = true;
          returned = refl;
          unique = requeued-IsUnique redact op.operation_id now db op u e;
          leaves = record {
            row = set_requeued now op;
            found = requeued_find redact op.operation_id now db op u e a;
            status = refl;
          };
          others = requeued_other redact op.operation_id now db op u e;
        })

  idle-Step : Step op op.status db (ok false, db)
  idle-Step = record {
    done = false;
    returned = refl;
    unique = u;
    leaves = record { row = op; found = e; status = refl };
    others = λ j ne. refl;
  }

  pub sweep_at-Step :
      (s : OperationStatus) (kind : OperationKind)
      → op.status ≡ s
      → Step op (swept s kind) db (sweep_at redact describe now s kind op db)
  sweep_at-Step OperationStatus.running OperationKind.rollback q =
      moved-Step OperationStatus.uncertain _ none none (rw q refl)
  sweep_at-Step OperationStatus.running OperationKind.agent_message q = requeued-Step (rw q refl)
  sweep_at-Step OperationStatus.running OperationKind.target_test q = requeued-Step (rw q refl)
  sweep_at-Step OperationStatus.running OperationKind.investigation_start q =
      requeued-Step (rw q refl)
  sweep_at-Step OperationStatus.running OperationKind.report_generate q = requeued-Step (rw q refl)
  sweep_at-Step OperationStatus.queued kind q = subst (λ t. Step op t db (ok false, db)) q idle-Step
  sweep_at-Step _ kind q = subst (λ t. Step op t db (ok false, db)) q idle-Step
