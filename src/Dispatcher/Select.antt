-- ===== src/Dispatcher/Select.antt =====
-- `_claim_next` of operations/dispatcher.py. The kinds with a handler are a parameter, and so is the
-- attempt id that a claim of a row draws.
use incidentlens.Common.{
  ℕ, String, Bool, not, Option, none, some, List, [], ◌∷◌, if◌then◌else◌, ok, err, Result, Action,
}
use incidentlens.Machine.Status.{OperationStatus}
use incidentlens.Operation.Types.{
  Operation, OperationKind, OperationError, operation_not_claimable, operation_not_found, Db,
  status_is,
}
use incidentlens.Operation.Store.{list_queued}
use incidentlens.Operation.Service
use incidentlens.Dispatcher.State.{Dispatcher, serialization_blocked, hold}

module _ (redact : ℕ → String → String) (registered : OperationKind → Bool) (worker : String)
    (now : ℕ) (attempt_id : Operation → String) where
  -- What a claim leads to: `continue` is `none`.
  abbrev pub after_claim :
      Result OperationError Operation × Db
      → Dispatcher
      → Result OperationError (Option Operation) × Dispatcher
  after_claim (err operation_not_claimable, db) d = (ok none, record d { db = db })
  after_claim (err operation_not_found, db) d = (ok none, record d { db = db })
  after_claim (err e, db) d = (err e, record d { db = db })
  after_claim (ok claimed, db) d =
      if not (status_is claimed.status OperationStatus.running)
      then (ok none, record d { db = db })
      else (ok (some claimed), hold claimed (record d { db = db }))

  -- One round of the loop.
  unfoldable pub try_claim : Operation → Action Dispatcher OperationError (Option Operation)
  try_claim op d =
      if not (registered op.kind)
      then (ok none, d)
      else if serialization_blocked op d
      then (ok none, d)
      else after_claim (Service.claim redact op.operation_id worker now (attempt_id op) d.db) d

  -- `return claimed`, or the next round.
  abbrev pub or_next :
      Result OperationError (Option Operation) × Dispatcher
      → Action Dispatcher OperationError (Option Operation)
      → Result OperationError (Option Operation) × Dispatcher
  or_next (err e, d) next = (err e, d)
  or_next (ok none, d) next = next d
  or_next (ok (some claimed), d) next = (ok (some claimed), d)

  unfoldable pub claim_first : List Operation → Action Dispatcher OperationError (Option Operation)
  claim_first [] d = (ok none, d)
  claim_first (op ∷ ops) d = or_next (try_claim op d) (claim_first ops)

  -- `_claim_next`.
  unfoldable pub claim_next : Action Dispatcher OperationError (Option Operation)
  claim_next d =
      if not d.active
      then (ok none, d)
      else let (r, db) = list_queued 100 d.db in
        elim r [ err e ↦ (err e, d) | ok queued ↦ claim_first queued d ]
