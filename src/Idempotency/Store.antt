-- ===== src/Idempotency/Store.antt =====
-- idempotency/store.py: `IdempotencyStore`, each method as one transaction on the table.
use incidentlens.Common.{
  ℕ, String, ◌+◌, ◌*◌, Bool, ◌&&◌, Option, none, some, str_eq, if◌then◌else◌, leb, ◌==◌, is_some,
  ok, err, Result, Action,
}
use incidentlens.Common.Sql.{update_where, rowcount, delete_where, insert_row}
use incidentlens.Common.Keyed.{has_key, find}
use incidentlens.Idempotency.Types.{
  IdempotencyState, is_in_progress, ReservationStatus, Reservation, bare_reservation, RowKey,
  row_key_eq, IdempotencyRecord, key_of, Keys, IdempotencyError, lost_occupant,
}

-- `timedelta(seconds=n)`, in microseconds.
abbrev pub seconds : ℕ → ℕ
seconds n = n * 1000000

abbrev pub reservation_lease_seconds : ℕ
reservation_lease_seconds = 300

abbrev pub failed_reservation_lease_seconds : ℕ
failed_reservation_lease_seconds = 60

abbrev pub completed_retention_seconds : ℕ
completed_retention_seconds = 24 * 60 * 60

-- `expires_at <= ?`.
abbrev pub is_expired : ℕ → IdempotencyRecord → Bool
is_expired now r = leb r.expires_at now

-- The row of the `INSERT`.
abbrev pub fresh_row : RowKey → String → ℕ → IdempotencyRecord
fresh_row k sha now = record {
  row_key = k;
  request_sha256 = sha;
  state = IdempotencyState.in_progress;
  status_code = none;
  response_json = none;
  created_at = now;
  completed_at = none;
  expires_at = now + seconds reservation_lease_seconds;
}

-- `INSERT OR IGNORE`: the row count, and the table.
abbrev pub insert_or_ignore : IdempotencyRecord → Keys → ℕ × Keys
insert_or_ignore r rows =
    if is_some (find key_of (key_of r) rows) then (0, rows) else (1, insert_row r rows)

-- `_existing_reservation`.
abbrev pub existing_reservation : IdempotencyRecord → String → Reservation
existing_reservation r sha = elim r.state [
  | IdempotencyState.completed ↦
      if str_eq r.request_sha256 sha
      then record {
        status = ReservationStatus.replay;
        status_code = r.status_code;
        response_json = r.response_json;
      }
      else bare_reservation ReservationStatus.conflict
  | IdempotencyState.in_progress ↦ bare_reservation ReservationStatus.in_progress
]

-- The part of `reserve` after the look at the row that was there.
abbrev pub occupied : String → Option IdempotencyRecord → Result IdempotencyError Reservation
occupied sha none = err lost_occupant
occupied sha (some r) = ok (existing_reservation r sha)

unfoldable pub reserve : RowKey → String → ℕ → Action Keys IdempotencyError Reservation
reserve k sha now rows =
    let (inserted, rows') =
      insert_or_ignore (fresh_row k sha now) (delete_where (is_expired now) rows) in
    if inserted == 1
    then (ok (bare_reservation ReservationStatus.reserved), rows')
    else (occupied sha (find key_of k rows'), rows')

-- `WHERE … AND state = 'in_progress'`.
abbrev pub at_open_key : RowKey → IdempotencyRecord → Bool
at_open_key k r = has_key key_of k r && is_in_progress r.state

abbrev pub set_completed : ℕ → String → ℕ → IdempotencyRecord → IdempotencyRecord
set_completed status_code response_json now r = record r {
  state = IdempotencyState.completed;
  status_code = some status_code;
  response_json = some response_json;
  completed_at = some now;
  expires_at = now + seconds completed_retention_seconds;
}

unfoldable pub mark_completed : RowKey → ℕ → String → ℕ → Keys → Keys
mark_completed k status_code response_json now rows =
    update_where (at_open_key k) (set_completed status_code response_json now) rows

abbrev pub set_lease : ℕ → IdempotencyRecord → IdempotencyRecord
set_lease now r = record r { expires_at = now + seconds failed_reservation_lease_seconds }

unfoldable pub rearm_lease : RowKey → ℕ → Keys → Keys
rearm_lease k now rows = update_where (at_open_key k) (set_lease now) rows

unfoldable pub get : RowKey → Keys → Option IdempotencyRecord
get k rows = find key_of k rows

unfoldable pub prune_expired : ℕ → Keys → ℕ × Keys
prune_expired now rows = (rowcount (is_expired now) rows, delete_where (is_expired now) rows)
