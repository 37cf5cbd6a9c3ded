-- ===== src/Operation/Claims.antt =====
-- What `OperationStore.claim` and `OperationStore.transition` of operations/store.py do to a table
-- that obeys its primary key.
use incidentlens.Common.{
  ℕ, String, List, ◌≡◌, refl, true, false, Option, none, some, inl, inr, is_some, if◌then◌else◌,
  Bool-cases, Option-cases, Result, ok, err,
}
use incidentlens.Common.Sql.{update_where, insert_row, rowcount}
use incidentlens.Common.Keyed.{
  string_key, find, IsUnique, rowcount_absent, rowcount_hit, rowcount_miss, update_hit,
}
use incidentlens.Machine.Status.{OperationStatus, queued}
use incidentlens.Operation.Types.{
  Operation, OperationError, operation_not_found, operation_not_claimable, integrity_error,
  concurrent_operation_update, Db, status_is, operation_key, attempt_key,
}
use incidentlens.Operation.Store.{
  get, claim, apply_transition, at_status, set_claimed, set_moved, running_attempt, in_terminal,
  end_of, is_open_attempt, set_finished,
}

abbrev pub claimed_db : String → String → ℕ → String → Db → Db
claimed_db id token now attempt_id db = record db {
  operations = update_where (at_status id queued) (set_claimed token now) db.operations;
  attempts = insert_row (running_attempt attempt_id id token now) db.attempts;
}

-- `claim` described by the row that has the id.
abbrev pub claim_spec :
    String → String → ℕ → String → Db → Option Operation → Result OperationError Operation × Db
claim_spec id token now attempt_id db none = (err operation_not_found, db)
claim_spec id token now attempt_id db (some op) =
    if status_is op.status queued
    then if is_some (find attempt_key attempt_id db.attempts)
      then (err integrity_error, db)
      else (ok (set_claimed token now op), claimed_db id token now attempt_id db)
    else (err operation_not_claimable, db)

pub get-found :
    (id : String) (db : Db) (op : Operation)
    → find operation_key id db.operations ≡ some op
    → get id db ≡ (ok op, db)
unfolding get
get-found id db op e = rw (e, get)

pub get-missing :
    (id : String) (db : Db)
    → find operation_key id db.operations ≡ none
    → get id db ≡ (err operation_not_found, db)
unfolding get
get-missing id db e = rw (e, get)

-- The conditional `UPDATE … WHERE operation_id = ? AND status = ?`, by what the id finds.
module _ (id : String) (status : OperationStatus) (ops : List Operation) where
  pub count_absent :
      IsUnique operation_key ops
      → find operation_key id ops ≡ none
      → rowcount (at_status id status) ops ≡ 0
  count_absent = rowcount_absent operation_key id (λ op. status_is op.status status) ops

  pub count_hit :
      (op : Operation)
      → IsUnique operation_key ops
      → find operation_key id ops ≡ some op
      → status_is op.status status ≡ true
      → rowcount (at_status id status) ops ≡ 1
  count_hit = rowcount_hit operation_key id (λ op. status_is op.status status) ops

  pub count_miss :
      (op : Operation)
      → IsUnique operation_key ops
      → find operation_key id ops ≡ some op
      → status_is op.status status ≡ false
      → rowcount (at_status id status) ops ≡ 0
  count_miss = rowcount_miss operation_key id (λ op. status_is op.status status) ops

  pub update_found :
      (f : Operation → Operation) (op : Operation)
      → ((r : Operation) → operation_key (f r) ≡ operation_key r)
      → find operation_key id ops ≡ some op
      → status_is op.status status ≡ true
      → find operation_key id (update_where (at_status id status) f ops) ≡ some (f op)
  update_found = update_hit operation_key id (λ op. status_is op.status status) ops

-- Over a table with unique ids, the row count of the conditional `UPDATE` makes `claim` do this:
-- a missing row is not found, a row that is not queued is not claimable, a queued row is claimed
-- and returned with its new attempt; every failure leaves the tables alone.
pub claim_lem :
    (id token : String) (now : ℕ) (attempt_id : String) (db : Db)
    → IsUnique operation_key db.operations
    → claim id token now attempt_id db
      ≡ claim_spec id token now attempt_id db (find operation_key id db.operations)
unfolding claim
claim_lem id token now attempt_id db u = elim (Option-cases (find operation_key id db.operations)) [
  | inl e ↦ rw (count_absent id queued db.operations u e, e)
  | inr (op, e) ↦ elim (Bool-cases (status_is op.status queued)) [
    | inr h ↦ rw (count_miss id queued db.operations op u e h, e) (rw h)
    | inl h ↦ elim (Bool-cases (is_some (find attempt_key attempt_id db.attempts))) [
      | inl t ↦ rw (count_hit id queued db.operations op u e h, e, h, t)
      | inr t ↦
          rw (count_hit id queued db.operations op u e h, e, h, t)
            (get-found id (claimed_db id token now attempt_id db) (set_claimed token now op)
              (update_found id queued db.operations (set_claimed token now) op (λ r. refl) e h))
    ]
  ]
]

abbrev pub moved_db :
    Operation → OperationStatus → ℕ → Option String → Option String → Option String → Db → Db
moved_db op target now summary code message db = record db {
  operations =
      update_where (at_status op.operation_id op.status)
        (set_moved target summary code message (end_of op target now) now) db.operations;
  attempts =
      if in_terminal target
      then update_where (is_open_attempt op.operation_id) (set_finished target now) db.attempts
      else db.attempts;
}

-- The transaction of a transition described by the row that has the id of the caller's copy: the
-- row must still have the copy's status.
abbrev pub apply_spec :
    Operation
    → OperationStatus
    → ℕ
    → Option String
    → Option String
    → Option String
    → Db
    → Option Operation
    → Result OperationError Operation × Db
apply_spec op target now summary code message db none = (err concurrent_operation_update, db)
apply_spec op target now summary code message db (some row) =
    if status_is row.status op.status
    then (
      ok (set_moved target summary code message (end_of op target now) now row),
      moved_db op target now summary code message db,
    )
    else (err concurrent_operation_update, db)

pub apply_transition_lem :
    (op : Operation) (target : OperationStatus) (now : ℕ) (summary code message : Option String)
    (db : Db)
    → IsUnique operation_key db.operations
    → apply_transition op target now summary code message db
      ≡ apply_spec op target now summary code message db
          (find operation_key op.operation_id db.operations)
unfolding apply_transition
apply_transition_lem op target now summary code message db u =
    elim (Option-cases (find operation_key op.operation_id db.operations)) [
      | inl e ↦ rw (count_absent op.operation_id op.status db.operations u e, e)
      | inr (row, e) ↦ elim (Bool-cases (status_is row.status op.status)) [
        | inr h ↦ rw (count_miss op.operation_id op.status db.operations row u e h, e) (rw h)
        | inl h ↦
            rw (count_hit op.operation_id op.status db.operations row u e h, e, h)
              (get-found op.operation_id (moved_db op target now summary code message db)
                (set_moved target summary code message (end_of op target now) now row)
                (update_found op.operation_id op.status db.operations
                  (set_moved target summary code message (end_of op target now) now) row (λ r. refl)
                  e h))
      ]
    ]
