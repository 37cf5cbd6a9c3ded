-- ===== src/Dispatcher/Begin.antt =====
-- `start` of operations/dispatcher.py: recovery before any claim.
use incidentlens.Common.{
  ℕ, String, ◌≡◌, refl, sym, ap, ◌∙◌, Bool, true, false, Option, some, ok, Result, if◌then◌else◌,
}
use mathlib.Core.Bool.{false≢true}
use incidentlens.Common.Keyed.{string_key, find, IsUnique}
use incidentlens.Operation.Types.{Operation, OperationError, Db, operation_key}
use incidentlens.Operation.Recovery.{Linked, RecoverySummary, recover}
use incidentlens.Operation.Recovery.Row.{is_left}
use incidentlens.Operation.Recovery.Settles.{recover_lem}
use incidentlens.Operation.Recovery.Safety.{recover_quiet}
use incidentlens.Dispatcher.State.{Dispatcher}
use incidentlens.Dispatcher.Finish.{start, after_recovery}

if_idle : {A : Type 0} (a : Bool) (x y : A) → a ≡ false → (if a then x else y) ≡ y
if_idle false x y h = refl
if_idle true x y h = absurd (false≢true (sym h))

module _ (redact : ℕ → String → String) (describe : OperationError → String) (now : ℕ)
    (investigations : String → Option Linked) (d : Dispatcher)
    (u : IsUnique operation_key d.db.operations) where
  abbrev recovered_db : Db
  recovered_db = (recover redact investigations now d.db).1

  start_recovers :
      d.active ≡ false
      → start redact describe now investigations d
        ≡ (ok true, record d { active = true; db = recovered_db })
  unfolding start
  start_recovers idle =
      if_idle d.active _ _ idle
      ∙ ap
          (λ (r : Result OperationError RecoverySummary).
            after_recovery redact describe now (r, recovered_db) d)
          (recover_lem redact investigations now d.db u).returned

  -- A dispatcher that is not active becomes active by `start`, over a table with unique ids, and
  -- then every row is queued or terminal: no worker meets a row that a former process has left
  -- running or with its cancellation pending.
  pub start_quiet :
      (k : String) (row : Operation)
      → d.active ≡ false
      → find operation_key k (start redact describe now investigations d).1.db.operations ≡ some row
      → ((start redact describe now investigations d).1.active ≡ true) × (is_left row.status ≡ true)
  start_quiet k row idle e =
      let begun = start_recovers idle in
      (
        ap (λ (o : Result OperationError Bool × Dispatcher). o.1.active) begun,
        recover_quiet redact investigations now d.db u k row (
            sym (
              ap
                (λ (o : Result OperationError Bool × Dispatcher).
                  find operation_key k o.1.db.operations)
                begun)
            ∙ e),
      )
