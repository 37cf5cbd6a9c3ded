-- ===== src/Operation/Races.antt =====
-- Races on operations/store.py: one transaction after another, from what a caller read before.
use incidentlens.Common.{
  ℕ, String, ◌≡◌, refl, ◌∙◌, true, false, Option, some, inl, inr, arith, if◌then◌else◌, Bool-cases,
  Option-cases, ok, err,
}
use incidentlens.Common.Keyed.{string_key, find, IsUnique, IsUnique-update}
use incidentlens.Machine.Status.{OperationStatus, queued, operation}
use incidentlens.Machine.Core.{illegal_move}
use incidentlens.Operation.Types.{
  Operation, OperationError, operation_not_claimable, concurrent_operation_update,
  illegal_transition, Db, status_is, operation_key,
}
use incidentlens.Operation.Store.{
  claim, transition, apply_transition, at_status, set_claimed, set_moved, end_of,
}
use incidentlens.Operation.Moves.{allowed, assert_transition-allowed}
use incidentlens.Operation.Claims.{
  claim_lem, claimed_db, moved_db, apply_transition_lem, update_found,
}

pub status_is_refl : (s : OperationStatus) → status_is s s ≡ true
status_is_refl queued = refl
status_is_refl _ = refl

pub status_is_eq : (s t : OperationStatus) → status_is s t ≡ true → s ≡ t
status_is_eq s t h = ground arith

-- What a successful `claim` found and left.
pub claim_inv :
    (id token : String) (now : ℕ) (attempt_id : String) (db : Db) {op : Operation} {db' : Db}
    → IsUnique operation_key db.operations
    → claim id token now attempt_id db ≡ (ok op, db')
    → (row : Operation) × (find operation_key id db.operations ≡ some row)
      × (status_is row.status queued ≡ true)
      × (op ≡ set_claimed token now row)
      × (db' ≡ claimed_db id token now attempt_id db)
claim_inv id token now attempt_id db u h =
    elim (Option-cases (find operation_key id db.operations)) [
      | inl e ↦ cc (rw e at (claim_lem id token now attempt_id db u))
      | inr (row, e) ↦ ground (arith, rw e at (claim_lem id token now attempt_id db u))
    ]

-- Over a table with unique ids, two claims of one operation cannot both succeed: after the first,
-- the second is refused as not claimable, whatever its worker, time and attempt id, and changes
-- nothing.
pub claim_once :
    (id token token' : String) (now now' : ℕ) (attempt_id attempt_id' : String) (db : Db)
    {op : Operation} {db' : Db}
    → IsUnique operation_key db.operations
    → claim id token now attempt_id db ≡ (ok op, db')
    → claim id token' now' attempt_id' db' ≡ (err operation_not_claimable, db')
claim_once id token token' now now' attempt_id attempt_id' db u h =
    let (row, e, q, _, d) = claim_inv id token now attempt_id db u h in
    rw d (
      claim_lem id token' now' attempt_id' (claimed_db id token now attempt_id db) (
        IsUnique-update operation_key (at_status id queued) (set_claimed token now) db.operations
          (λ r. refl) u)
      ∙ rw (update_found id queued db.operations (set_claimed token now) row (λ r. refl) e q))

-- No move of the operation machine leads from a status to itself.
move_changes : (s t : OperationStatus) → allowed s t ≡ true → status_is t s ≡ false
move_changes s t h = ground arith

-- `transition` by the lifecycle: an illegal move raises before the tables are touched.
pub transition_if :
    (op : Operation) (target : OperationStatus) (now : ℕ) (summary code message : Option String)
    (db : Db)
    → transition op target now summary code message db ≡ (
        if allowed op.status target
        then apply_transition op target now summary code message db
        else (err (illegal_transition (illegal_move (operation op.status) (operation target))), db))
unfolding transition
transition_if op target now summary code message db = elim (Bool-cases (allowed op.status target)) [
  | inl e ↦ rw (assert_transition-allowed op.status target, e, transition)
  | inr e ↦ rw (assert_transition-allowed op.status target, e, transition)
]

pub transition_inv :
    (op : Operation) (target : OperationStatus) (now : ℕ) (summary code message : Option String)
    (db : Db) {r : Operation} {db' : Db}
    → IsUnique operation_key db.operations
    → transition op target now summary code message db ≡ (ok r, db')
    → (row : Operation) × (find operation_key op.operation_id db.operations ≡ some row)
      × (status_is row.status op.status ≡ true)
      × (allowed op.status target ≡ true)
      × (r ≡ set_moved target summary code message (end_of op target now) now row)
      × (db' ≡ moved_db op target now summary code message db)
transition_inv op target now summary code message db u h =
    elim (Option-cases (find operation_key op.operation_id db.operations)) [
      | inl e ↦ absurd (
          ground (
            arith,
            rw e at (apply_transition_lem op target now summary code message db u),
            transition_if op target now summary code message db,
          ))
      | inr (row, e) ↦ ground (
        arith,
        rw e at (apply_transition_lem op target now summary code message db u),
        transition_if op target now summary code message db,
      )
    ]

-- The error of a transition from a copy of a row that has moved on.
abbrev pub stale_error : OperationStatus → OperationStatus → OperationError
stale_error status target =
    if allowed status target
    then concurrent_operation_update
    else illegal_transition (illegal_move (operation status) (operation target))

pub transition_stale :
    (op row : Operation) (target : OperationStatus) (now : ℕ) (summary code message : Option String)
    (db : Db)
    → IsUnique operation_key db.operations
    → find operation_key op.operation_id db.operations ≡ some row
    → status_is row.status op.status ≡ false
    → transition op target now summary code message db ≡ (err (stale_error op.status target), db)
transition_stale op row target now summary code message db u e h =
    transition_if op target now summary code message db
    ∙ elim (Bool-cases (allowed op.status target)) [
      | inr a ↦ rw a
      | inl a ↦ rw a (apply_transition_lem op target now summary code message db u ∙ rw (e, h))
    ]

-- Over a table with unique ids, two transitions from one copy of a row cannot both succeed: after
-- the first, the second raises, whatever its target, and changes nothing.
pub transition_once :
    (op : Operation) (target target' : OperationStatus) (now now' : ℕ)
    (summary code message summary' code' message' : Option String) (db : Db) {r : Operation}
    {db' : Db}
    → IsUnique operation_key db.operations
    → transition op target now summary code message db ≡ (ok r, db')
    → transition op target' now' summary' code' message' db'
      ≡ (err (stale_error op.status target'), db')
transition_once op target target' now now' summary code message summary' code' message' db u h =
    let (row, e, q, a, _, d) = transition_inv op target now summary code message db u h in
    let f : Operation → Operation =
      set_moved target summary code message (end_of op target now) now in
    rw d (
      transition_stale op (f row) target' now' summary' code' message'
        (moved_db op target now summary code message db)
        (IsUnique-update operation_key (at_status op.operation_id op.status) f db.operations
          (λ r. refl) u)
        (update_found op.operation_id op.status db.operations f row (λ r. refl) e q)
        (move_changes op.status target a))
