-- ===== src/Dispatcher/Finish.antt =====
-- `_execute` of operations/dispatcher.py after the handler has ended, and the shutdown sweep. What the
-- handler has ended with is an argument; so is the text of an exception, `{type}: {message}`.
use incidentlens.Common.{
  ℕ, String, Bool, true, false, Option, none, some, List, [], ◌∷◌, if◌then◌else◌, ok, err, Result,
  Action, pure, ◌>>=◌, str_eq,
}
use incidentlens.Machine.Status.{OperationStatus}
use incidentlens.Operation.Types.{Operation, OperationKind, OperationError, Db}
use incidentlens.Operation.Store.{Store, list_non_terminal}
use incidentlens.Operation.Service
use incidentlens.Operation.Recovery.{Linked, RecoverySummary, best_effort, recover}
use incidentlens.Dispatcher.State.{Dispatcher, release}

-- `OperationResult` of operations/handlers.py.
pub record OperationResult : Type 0 where
  pub summary : String
  pub error_code : Option String
  pub error_message : Option String

pub data Ended : Type 0 where
  returned : OperationResult → Ended
  raised : String → Ended
  cancelled : Ended

-- `result.error_message or result.error_code`: an empty message counts as none.
abbrev pub message_or_code : Option String → String → String
message_or_code none code = code
message_or_code (some message) code = if str_eq message "" then code else message

module _ (redact : ℕ → String → String) (describe : OperationError → String) (now : ℕ) where
  -- The transition that follows a handler's result.
  abbrev pub report : Operation → OperationResult → Option String → Store Operation
  report op result none =
      Service.transition redact op.operation_id OperationStatus.succeeded (some result.summary) none
        none now
  report op result (some code) =
      Service.transition redact op.operation_id OperationStatus.failed (some result.summary)
        (some code) (some (message_or_code result.error_message code)) now

  -- `_safe_transition_failed`.
  abbrev pub safe_transition_failed : Operation → String → Store Bool
  safe_transition_failed op text = best_effort (
      Service.transition redact op.operation_id OperationStatus.failed (some "handler failed")
        (some "operation_failed") (some text) now)

  -- What follows the transition that reports a result: an exception that it raises is handled as
  -- the handler's own.
  abbrev pub after_report :
      Operation → Result OperationError Operation × Db → Result OperationError Bool × Db
  after_report op (ok _, db) = (ok true, db)
  after_report op (err e, db) = safe_transition_failed op (describe e) db

  -- The `try` of `_execute`, on the tables; `asyncio.CancelledError` passes through.
  abbrev pub settle : Operation → Ended → Store Bool
  settle op cancelled db = (ok false, db)
  settle op (raised text) db = safe_transition_failed op text db
  settle op (returned result) db = after_report op (report op result result.error_code db)

  -- `_execute` from the end of the handler on, the `finally` clause included.
  unfoldable pub execute : Operation → Ended → Action Dispatcher OperationError Bool
  execute op ended d = let (r, db) = settle op ended d.db in (r, release op (record d { db = db }))

  -- The body of the loop of `_sweep_running`, by status and kind.
  abbrev pub sweep_at : OperationStatus → OperationKind → Operation → Store Bool
  sweep_at OperationStatus.running OperationKind.rollback op = best_effort (
      Service.transition redact op.operation_id OperationStatus.uncertain
        (some "interrupted by shutdown; remote outcome cannot be confirmed and is never replayed")
        none none now)
  sweep_at OperationStatus.running _ op = best_effort (Service.requeue redact op.operation_id now)
  sweep_at _ _ op = pure false

  unfoldable pub sweep_rows : List Operation → Store Bool
  sweep_rows [] = pure true
  sweep_rows (op ∷ ops) = do _ ← sweep_at op.status op.kind op; sweep_rows ops

  -- `_sweep_running`.
  unfoldable pub sweep_running : Store Bool
  sweep_running db = sweep_rows (list_non_terminal db) db

  -- `stop`, after the workers have ended.
  unfoldable pub stop : Action Dispatcher OperationError Bool
  stop d = let (r, db) = sweep_running d.db in (r, record d { active = false; db = db })

  -- What `start` does once recovery has returned.
  abbrev pub after_recovery :
      Result OperationError RecoverySummary × Db → Action Dispatcher OperationError Bool
  after_recovery (err e, db) d = (err e, record d { db = db })
  after_recovery (ok _, db) d = (ok true, record d { active = true; db = db })

  -- `start`, up to the creation of the worker tasks; what recovery reads of investigations is a
  -- parameter.
  unfoldable pub start : (String → Option Linked) → Action Dispatcher OperationError Bool
  start investigations d =
      if d.active then (ok false, d) else after_recovery (recover redact investigations now d.db) d
