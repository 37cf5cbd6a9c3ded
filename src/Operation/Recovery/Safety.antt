-- ===== src/Operation/Recovery/Safety.antt =====
-- What a restart may rely on after `OperationRecovery.recover` of operations/recovery.py.
use incidentlens.Common.{
  ℕ, String, ◌≡◌, sym, ◌∙◌, true, Option, some, inl, inr, arith, Option-cases, err,
}
use incidentlens.Common.Keyed.{string_key, find, IsUnique}
use incidentlens.Machine.Status.{running}
use incidentlens.Operation.Types.{
  OperationKind, Operation, operation_not_claimable, Db, operation_key,
}
use incidentlens.Operation.Store.{claim}
use incidentlens.Operation.Claims.{claim_lem}
use incidentlens.Operation.Recovery.{Linked, recover}
use incidentlens.Operation.Recovery.Row.{is_left, is_left-recovered}
use incidentlens.Operation.Recovery.Settles.{recover_lem}

module _ (redact : ℕ → String → String) (investigations : String → Option Linked) (now : ℕ)
    (db : Db) (u : IsUnique operation_key db.operations) where
  -- After recovery over a table with unique ids every row is queued or terminal: none is running or
  -- has its cancellation pending.
  pub recover_quiet :
      (k : String) (row : Operation)
      → find operation_key k (recover redact investigations now db).1.operations ≡ some row
      → is_left row.status ≡ true
  recover_quiet k row h =
      let done = recover_lem redact investigations now db u in
      elim (Option-cases (find operation_key k db.operations)) [
        | inl e ↦ absurd (cc (h, done.absent k e))
        | inr (op, e) ↦
            let r = done.rows k op e in
            let same : r.row ≡ row = ground (arith, h, r.found) in
            rw (sym same) (rw r.settled (is_left-recovered investigations op.status op))
      ]

  -- A rollback that a table with unique ids has as running cannot be claimed after recovery, by any
  -- worker at any time: it is never replayed.
  pub recover_never_replays :
      (k token : String) (t : ℕ) (attempt_id : String) (op : Operation)
      → find operation_key k db.operations ≡ some op
      → op.kind ≡ OperationKind.rollback
      → op.status ≡ running
      → claim k token t attempt_id (recover redact investigations now db).1
        ≡ (err operation_not_claimable, (recover redact investigations now db).1)
  recover_never_replays k token t attempt_id op e kind s =
      let done = recover_lem redact investigations now db u in
      let r = done.rows k op e in
      claim_lem k token t attempt_id (recover redact investigations now db).1 done.unique
      ∙ rw r.found (rw r.settled (rw (s, kind)))

  -- After recovery over a table with unique ids a second pass, at any later time, changes no row.
  pub recover_again :
      (later : ℕ) (k : String) (row : Operation)
      → find operation_key k (recover redact investigations now db).1.operations ≡ some row
      → find operation_key k
          (recover redact investigations later
            (recover redact investigations now db).1).1.operations
        ≡ some row
  recover_again later k row h =
      let done = recover_lem redact investigations now db u in
      let again =
        recover_lem redact investigations later (recover redact investigations now db).1
          done.unique in
      let r = again.rows k row h in r.found ∙ rw (r.kept (recover_quiet k row h))
