-- ===== src/Idempotency/Execute.antt =====
-- `execute_idempotent` of api/idempotency.py: what a call does, by the row that it finds.
use incidentlens.Common.{
  ℕ, String, ◌≡◌, refl, true, false, Option, none, some, inl, inr, if◌then◌else◌, Result, err,
  Action, Option-cases, Bool-cases, str_eq,
}
use incidentlens.Common.Keyed.{IsUnique}
use incidentlens.Idempotency.Types.{
  IdempotencyState, IdempotencyState-cases, RowKey, row_key_eq, IdempotencyRecord, key_of, Keys,
  IdempotencyError, idempotency_conflict, idempotency_in_progress, idempotency_key_required,
}
use incidentlens.Idempotency.Api.{
  matches_key_pattern, Response, replayed_response, finish, after_reserve, execute_idempotent,
}
use incidentlens.Idempotency.Rows.{pruned}
use incidentlens.Idempotency.Reserve.{reserve_result, reserve_rows, occupant, reserve_lem}

module _ {T : Type 0} (encode : T → String) (decode : String → Option T) where
  -- What a call does with the row that holds its key.
  abbrev pub occupied_result :
      String → IdempotencyRecord → IdempotencyState → Result IdempotencyError (Response T)
  occupied_result sha r IdempotencyState.in_progress = err idempotency_in_progress
  occupied_result sha r IdempotencyState.completed =
      if str_eq r.request_sha256 sha
      then replayed_response encode decode r.status_code r.response_json
      else err idempotency_conflict

  abbrev pub run_action :
      RowKey → ℕ → Result String (ℕ × T) × Keys → Result IdempotencyError (Response T) × Keys
  run_action k later (outcome, rows) = finish encode decode k later outcome rows

  abbrev pub execute_spec :
      RowKey
      → String
      → ℕ
      → ℕ
      → Action Keys String (ℕ × T)
      → Keys
      → Option IdempotencyRecord
      → Result IdempotencyError (Response T) × Keys
  execute_spec k sha now later action rows none =
      run_action k later (action (reserve_rows k sha now rows none))
  execute_spec k sha now later action rows (some r) =
      (occupied_result sha r r.state, pruned now rows)

  occupied_lem :
      (k : RowKey) (sha : String) (later : ℕ) (action : Action Keys String (ℕ × T)) (rows : Keys)
      (r : IdempotencyRecord)
      → after_reserve encode decode k later action (reserve_result sha (some r), rows)
        ≡ (occupied_result sha r r.state, rows)
  occupied_lem k sha later action rows r = elim (IdempotencyState-cases r.state) [
    | inl e ↦ rw e refl
    | inr e ↦
        rw e (elim (Bool-cases (str_eq r.request_sha256 sha)) [
          | inl h ↦ rw h refl
          | inr h ↦ rw h refl
        ])
  ]

  -- A call with a well-formed key, over a table with unique keys, goes by the row of the key that
  -- has not expired. Only without one does the action run; a row that is in progress refuses the
  -- call; a completed row is replayed to the same request, and refuses another. Neither refusal nor
  -- replay runs the action.
  pub execute_lem :
      (k : RowKey) (sha : String) (now later : ℕ) (action : Action Keys String (ℕ × T))
      (rows : Keys)
      → matches_key_pattern k.idempotency_key ≡ true
      → IsUnique key_of rows
      → execute_idempotent encode decode k sha now later action rows
        ≡ execute_spec k sha now later action rows (occupant k now rows)
  unfolding execute_idempotent
  execute_lem k sha now later action rows good u =
      rw (good, execute_idempotent)
        (rw (reserve_lem k sha now rows u) (elim (Option-cases (occupant k now rows)) [
          | inl e ↦ rw e refl
          | inr (r, e) ↦ rw e (occupied_lem k sha later action (pruned now rows) r)
        ]))

  -- A key that the grammar refuses raises before the table is touched.
  pub execute_malformed :
      (k : RowKey) (sha : String) (now later : ℕ) (action : Action Keys String (ℕ × T))
      (rows : Keys)
      → matches_key_pattern k.idempotency_key ≡ false
      → execute_idempotent encode decode k sha now later action rows
        ≡ (err idempotency_key_required, rows)
  unfolding execute_idempotent
  execute_malformed k sha now later action rows bad = rw (bad, execute_idempotent) refl
