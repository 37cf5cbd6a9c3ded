-- ===== src/Idempotency/Reserve.antt =====
-- `IdempotencyStore.reserve` of idempotency/store.py.
use incidentlens.Common.{
  ℕ, String, ◌≡◌, refl, sym, ◌∙◌, ◌≢◌, Option, none, some, inl, inr, Result, ok, Option-cases,
}
use incidentlens.Common.Sql.{insert_row}
use incidentlens.Common.Keyed.{find, IsUnique, IsUnique-insert, find-insert_self, find-insert_other}
use incidentlens.Common.Ordered.{keep_if}
use incidentlens.Idempotency.Types.{
  ReservationStatus, Reservation, bare_reservation, RowKey, row_key_eq, IdempotencyRecord, key_of,
  Keys, IdempotencyError,
}
use incidentlens.Idempotency.Store.{reserve, existing_reservation, fresh_row}
use incidentlens.Idempotency.Rows.{is_live, pruned, find-pruned, pruned-IsUnique}

abbrev pub reserve_result : String → Option IdempotencyRecord → Result IdempotencyError Reservation
reserve_result sha none = ok (bare_reservation ReservationStatus.reserved)
reserve_result sha (some r) = ok (existing_reservation r sha)

abbrev pub reserve_rows : RowKey → String → ℕ → Keys → Option IdempotencyRecord → Keys
reserve_rows k sha now rows none = insert_row (fresh_row k sha now) (pruned now rows)
reserve_rows k sha now rows (some r) = pruned now rows

-- The row of the key that has not expired.
abbrev pub occupant : RowKey → ℕ → Keys → Option IdempotencyRecord
occupant k now rows = keep_if (is_live now) (find key_of k rows)

-- Over a table with unique keys, `reserve` deletes the expired rows and then goes by the row of
-- the key that has not expired: without one the key is reserved by a new row; with one nothing is
-- inserted and the outcome is that of the row. It never loses its occupant.
pub reserve_lem :
    (k : RowKey) (sha : String) (now : ℕ) (rows : Keys)
    → IsUnique key_of rows
    → reserve k sha now rows ≡ (
      reserve_result sha (occupant k now rows),
      reserve_rows k sha now rows (occupant k now rows),
    )
unfolding reserve
reserve_lem k sha now rows u = elim (Option-cases (occupant k now rows)) [
  | inl e ↦ rw (find-pruned k now rows u, e)
  | inr (r, e) ↦ rw (find-pruned k now rows u, e, find-pruned k now rows u, e)
]

-- What `reserve` leaves of another key: its row, unless that has expired.
pub find-reserve_other :
    (k j : RowKey) (sha : String) (now : ℕ) (rows : Keys)
    → IsUnique key_of rows
    → j ≢ k
    → find key_of j (reserve k sha now rows).1 ≡ occupant j now rows
find-reserve_other k j sha now rows u ne =
    rw (reserve_lem k sha now rows u) (elim (Option-cases (occupant k now rows)) [
      | inl e ↦ rw e (
          find-insert_other key_of j (fresh_row k sha now) (pruned now rows) (λ p. ne (sym p))
          ∙ find-pruned j now rows u)
      | inr (r, e) ↦ rw e (find-pruned j now rows u)
    ])

pub reserve-IsUnique :
    (k : RowKey) (sha : String) (now : ℕ) (rows : Keys)
    → IsUnique key_of rows
    → IsUnique key_of (reserve k sha now rows).1
reserve-IsUnique k sha now rows u =
    rw (reserve_lem k sha now rows u) (elim (Option-cases (occupant k now rows)) [
      | inl e ↦ rw e (
          IsUnique-insert key_of (fresh_row k sha now) (pruned now rows)
            (find-pruned k now rows u ∙ e) (pruned-IsUnique now rows u))
      | inr (r, e) ↦ rw e (pruned-IsUnique now rows u)
    ])

-- The row that a reservation inserts.
pub find-reserve_self :
    (k : RowKey) (sha : String) (now : ℕ) (rows : Keys)
    → IsUnique key_of rows
    → occupant k now rows ≡ none
    → find key_of k (reserve k sha now rows).1 ≡ some (fresh_row k sha now)
find-reserve_self k sha now rows u e =
    rw (reserve_lem k sha now rows u, e)
      (find-insert_self key_of k (fresh_row k sha now) (pruned now rows) refl
        (find-pruned k now rows u ∙ e))
