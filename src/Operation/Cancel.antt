-- ===== src/Operation/Cancel.antt =====
-- `OperationService.cancel` of operations/service.py, on every status.
use incidentlens.Common.{
  ℕ, String, ◌≡◌, refl, sym, ◌∙◌, Bool, true, false, none, some, inl, inr, arith, Option-cases,
  Result, ok, err, >>=-ok, >>=-err,
}
use mathlib.Core.Path.{subst}
use incidentlens.Common.Keyed.{string_key, find, IsUnique}
use incidentlens.Machine.Status.{OperationStatus, queued, running, cancel_requested, cancelled}
use incidentlens.Operation.Types.{
  Operation, OperationError, operation_not_found, operation_not_cancellable, Db, operation_key,
}
use incidentlens.Operation.Store.{get}
use incidentlens.Operation.Claims.{get-found, get-missing}
use incidentlens.Operation.Effects.{service_move, service_moved_db, service_transition_lem}
use incidentlens.Operation.Footprint.{moved-IsUnique, moved_find}
use incidentlens.Operation.Service.{cancel, cancel_at}

module _ (redact : ℕ → String → String) where
  -- The documented outcome of a cancellation, by the status of the row.
  abbrev pub cancel_spec :
      OperationStatus → Operation → ℕ → Db → Result OperationError Operation × Db
  cancel_spec queued op now db = (
    ok (service_move redact cancelled none none none now op),
    service_moved_db redact cancelled none none none now op db,
  )
  cancel_spec running op now db = (
    ok (service_move redact cancel_requested none none none now op),
    service_moved_db redact cancel_requested none none none now op db,
  )
  cancel_spec cancel_requested op now db = (ok op, db)
  cancel_spec cancelled op now db = (ok op, db)
  cancel_spec status op now db = (err (operation_not_cancellable status), db)

  cancel_at_lem :
      (id : String) (s : OperationStatus) (op : Operation) (now : ℕ) (db : Db)
      → IsUnique operation_key db.operations
      → find operation_key id db.operations ≡ some op
      → op.status ≡ s
      → cancel_at redact id s op now db ≡ cancel_spec s op now db
  unfolding cancel_at
  cancel_at_lem id queued op now db u e s =
      service_transition_lem redact id cancelled none none none now db op u e ∙ rw s
  cancel_at_lem id running op now db u e s =
      service_transition_lem redact id cancel_requested none none none now db op u e ∙ rw s
  cancel_at_lem id _ op now db u e s = refl

  pub cancel_lem :
      (id : String) (op : Operation) (now : ℕ) (db : Db)
      → IsUnique operation_key db.operations
      → find operation_key id db.operations ≡ some op
      → cancel redact id now db ≡ cancel_spec op.status op now db
  unfolding cancel
  cancel_lem id op now db u e =
      >>=-ok (get id) (λ (row : Operation). cancel_at redact id row.status row now) db
        (get-found id db op e)
      ∙ cancel_at_lem id op.status op now db u e refl

  pub cancel_missing :
      (id : String) (now : ℕ) (db : Db)
      → find operation_key id db.operations ≡ none
      → cancel redact id now db ≡ (err operation_not_found, db)
  unfolding cancel
  cancel_missing id now db e =
      >>=-err (get id) (λ (row : Operation). cancel_at redact id row.status row now) db
        (get-missing id db e)

  abbrev is_withdrawn : OperationStatus → Bool
  is_withdrawn cancel_requested = true
  is_withdrawn cancelled = true
  is_withdrawn _ = false

  cancel_withdrawn :
      (id : String) (op : Operation) (now : ℕ) (db : Db)
      → IsUnique operation_key db.operations
      → find operation_key id db.operations ≡ some op
      → is_withdrawn op.status ≡ true
      → cancel redact id now db ≡ (ok op, db)
  cancel_withdrawn id op now db u e w = cancel_lem id op now db u e ∙ ground arith

  cancel_again_at :
      (id : String) (s : OperationStatus) (row : Operation) (now now' : ℕ) (db : Db)
      {op : Operation} {db' : Db}
      → IsUnique operation_key db.operations
      → find operation_key id db.operations ≡ some row
      → row.status ≡ s
      → cancel_spec s row now db ≡ (ok op, db')
      → cancel redact id now' db' ≡ (ok op, db')
  cancel_again_at id queued row now now' db u e s h =
      subst (λ o. cancel redact id now' o.1 ≡ o) h
        (cancel_withdrawn id (service_move redact cancelled none none none now row) now'
          (service_moved_db redact cancelled none none none now row db)
          (moved-IsUnique redact id now db row u e cancelled none none none)
          (moved_find redact id now db row u e cancelled none none none) refl)
  cancel_again_at id running row now now' db u e s h =
      subst (λ o. cancel redact id now' o.1 ≡ o) h
        (cancel_withdrawn id (service_move redact cancel_requested none none none now row) now'
          (service_moved_db redact cancel_requested none none none now row db)
          (moved-IsUnique redact id now db row u e cancel_requested none none none)
          (moved_find redact id now db row u e cancel_requested none none none) refl)
  cancel_again_at id cancel_requested row now now' db u e s h =
      subst (λ o. cancel redact id now' o.1 ≡ o) h (cancel_withdrawn id row now' db u e (rw s))
  cancel_again_at id cancelled row now now' db u e s h =
      subst (λ o. cancel redact id now' o.1 ≡ o) h (cancel_withdrawn id row now' db u e (rw s))
  cancel_again_at id _ row now now' db u e s h = absurd (cc)

  -- Over a table with unique ids a cancellation that succeeded can be repeated at any later time:
  -- it returns the same row and changes nothing.
  pub cancel_again :
      (id : String) (now now' : ℕ) (db : Db) {op : Operation} {db' : Db}
      → IsUnique operation_key db.operations
      → cancel redact id now db ≡ (ok op, db')
      → cancel redact id now' db' ≡ (ok op, db')
  cancel_again id now now' db u h = elim (Option-cases (find operation_key id db.operations)) [
    | inl e ↦ absurd (cc (h, cancel_missing id now db e))
    | inr (row, e) ↦
        cancel_again_at id row.status row now now' db u e refl
          (sym (cancel_lem id row now db u e) ∙ h)
  ]
