-- ===== src/Operation/Effects.antt =====
-- The calls of operations/service.py on a row that is there, as one step on the tables.
use incidentlens.Common.{
  ℕ, String, ◌≡◌, refl, ◌∙◌, ◌++◌, [], ◌∷◌, Option, some, inl, inr, if◌then◌else◌, Bool-cases, ok,
  err, >>=-ok, >>=-err, ◌>>=◌,
}
use mathlib.Core.Option
use incidentlens.Common.Sql.{update_where}
use incidentlens.Common.Keyed.{string_key, find, IsUnique, find_self}
use incidentlens.Machine.Status.{OperationStatus, running, operation}
use incidentlens.Machine.Core.{illegal_move}
use incidentlens.Operation.Types.{
  Operation, concurrent_operation_update, illegal_transition, Db, status_is, operation_key,
}
use incidentlens.Operation.Store
use incidentlens.Operation.Store.{
  at_status, set_moved, set_requeued, end_of, missed, get, apply_transition,
}
use incidentlens.Operation.Moves.{allowed}
use incidentlens.Operation.Claims.{
  get-found, moved_db, apply_transition_lem, count_hit, count_miss, update_found,
}
use incidentlens.Operation.Races.{transition_if, status_is_refl}
use incidentlens.Operation.Service
use incidentlens.Operation.Service.{
  operation_event, max_progress_summary_length, max_error_message_length,
}

abbrev pub requeued_db : Operation → ℕ → Db → Db
requeued_db op now db = record db {
  operations = update_where (at_status op.operation_id running) (set_requeued now) db.operations;
}

pub requeue_lem :
    (op : Operation) (now : ℕ) (db : Db)
    → IsUnique operation_key db.operations
    → find operation_key op.operation_id db.operations ≡ some op
    → Store.requeue op now db ≡ (
        if status_is op.status running
        then (ok (set_requeued now op), requeued_db op now db)
        else (err concurrent_operation_update, db))
unfolding Store.requeue
requeue_lem op now db u e = elim (Bool-cases (status_is op.status running)) [
  | inr h ↦ rw (count_miss op.operation_id running db.operations op u e h, e, h)
  | inl h ↦
      rw (count_hit op.operation_id running db.operations op u e h, h)
        (get-found op.operation_id (requeued_db op now db) (set_requeued now op) (
          update_found op.operation_id running db.operations (set_requeued now) op (λ r. refl) e h))
]

pub transition_found :
    (op : Operation) (target : OperationStatus) (now : ℕ) (summary code message : Option String)
    (db : Db)
    → IsUnique operation_key db.operations
    → find operation_key op.operation_id db.operations ≡ some op
    → Store.transition op target now summary code message db ≡ (
        if allowed op.status target
        then (
          ok (set_moved target summary code message (end_of op target now) now op),
          moved_db op target now summary code message db,
        )
        else (err (illegal_transition (illegal_move (operation op.status) (operation target))), db))
transition_found op target now summary code message db u e =
    transition_if op target now summary code message db
    ∙ elim (Bool-cases (allowed op.status target)) [
      | inr a ↦ rw a
      | inl a ↦ rw a (
          apply_transition_lem op target now summary code message db u
          ∙ rw (e, status_is_refl op.status))
    ]

module _ (redact : ℕ → String → String) where
  abbrev pub announced : Operation → Db → Db
  announced op db = record db { events = db.events ++ operation_event redact op ∷ [] }

  -- The `SET` of a transition that the service asks for.
  abbrev pub service_move :
      OperationStatus → Option String → Option String → Option String → ℕ → Operation → Operation
  service_move target summary code message now op =
      set_moved target (Option.map (redact max_progress_summary_length) summary) code
        (Option.map (redact max_error_message_length) message) (end_of op target now) now op

  abbrev pub service_moved_db :
      OperationStatus → Option String → Option String → Option String → ℕ → Operation → Db → Db
  service_moved_db target summary code message now op db =
      announced (service_move target summary code message now op) (
        moved_db op target now (Option.map (redact max_progress_summary_length) summary) code
          (Option.map (redact max_error_message_length) message) db)

  pub service_transition_lem :
      (id : String) (target : OperationStatus) (summary code message : Option String) (now : ℕ)
      (db : Db) (op : Operation)
      → IsUnique operation_key db.operations
      → find operation_key id db.operations ≡ some op
      → Service.transition redact id target summary code message now db ≡ (
          if allowed op.status target
          then (
            ok (service_move target summary code message now op),
            service_moved_db target summary code message now op db,
          )
          else (
            err (illegal_transition (illegal_move (operation op.status) (operation target))),
            db,
          ))
  unfolding Service.transition
  service_transition_lem id target summary code message now db op u e =
      let text : Option String = Option.map (redact max_progress_summary_length) summary in
      let detail : Option String = Option.map (redact max_error_message_length) message in
      let found : find operation_key op.operation_id db.operations ≡ some op =
        find_self operation_key id db.operations e in
      let moved = transition_found op target now text code detail db u found in
      >>=-ok (get id)
        (λ (row : Operation). Store.transition row target now text code detail >>= λ r.
          Service.operation_status_changed redact r)
        db (get-found id db op e)
      ∙ elim (Bool-cases (allowed op.status target)) [
        | inl a ↦ rw a (
            >>=-ok (Store.transition op target now text code detail)
              (Service.operation_status_changed redact) db (rw a at moved))
        | inr a ↦ rw a (
            >>=-err (Store.transition op target now text code detail)
              (Service.operation_status_changed redact) db (rw a at moved))
      ]

  pub service_requeue_lem :
      (id : String) (now : ℕ) (db : Db) (op : Operation)
      → IsUnique operation_key db.operations
      → find operation_key id db.operations ≡ some op
      → Service.requeue redact id now db ≡ (
          if status_is op.status running
          then (ok (set_requeued now op), announced (set_requeued now op) (requeued_db op now db))
          else (err concurrent_operation_update, db))
  unfolding Service.requeue
  service_requeue_lem id now db op u e =
      let found : find operation_key op.operation_id db.operations ≡ some op =
        find_self operation_key id db.operations e in
      let moved = requeue_lem op now db u found in
      >>=-ok (get id)
        (λ (row : Operation).
          Store.requeue row now >>= λ r. Service.operation_status_changed redact r)
        db (get-found id db op e)
      ∙ elim (Bool-cases (status_is op.status running)) [
        | inl a ↦ rw a (
            >>=-ok (Store.requeue op now) (Service.operation_status_changed redact) db
              (rw a at moved))
        | inr a ↦ rw a (
            >>=-err (Store.requeue op now) (Service.operation_status_changed redact) db
              (rw a at moved))
      ]
