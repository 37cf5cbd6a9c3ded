-- ===== src/Idempotency/Rows.antt =====
-- The statements of idempotency/store.py, seen through the row that a key finds.

use incidentlens.Common.{ℕ, ◌≡◌, refl, ◌≢◌, Bool, not, some, if◌then◌else◌}
use incidentlens.Common.Sql.{update_where, delete_where}
use incidentlens.Common.Keyed.{find, IsUnique, find-update, find-key, update_other, IsUnique-update}
use incidentlens.Common.Ordered.{keep_if, delete_where-filter, find-filter, IsUnique-filter}
use incidentlens.Idempotency.Types.{
  RowKey, row_key_eq, IdempotencyRecord, key_of, Keys, is_in_progress, same_row_key_iff,
}
use incidentlens.Idempotency.Store.{is_expired, at_open_key}

abbrev pub is_live : ℕ → IdempotencyRecord → Bool
is_live now r = not (is_expired now r)

-- The table after the `DELETE` of the expired rows.
abbrev pub pruned : ℕ → Keys → Keys
pruned now rows = delete_where (is_expired now) rows

pub find-pruned :
    (k : RowKey) (now : ℕ) (rows : Keys)
    → IsUnique key_of rows
    → find key_of k (pruned now rows) ≡ keep_if (is_live now) (find key_of k rows)
find-pruned k now rows u =
    rw (delete_where-filter (is_expired now) rows) (find-filter key_of k (is_live now) rows u)

pub pruned-IsUnique :
    (now : ℕ) (rows : Keys) → IsUnique key_of rows → IsUnique key_of (pruned now rows)
pruned-IsUnique now rows u =
    rw (delete_where-filter (is_expired now) rows) (IsUnique-filter key_of (is_live now) rows u)

-- The `UPDATE` of an open row.
module _ (k : RowKey) (f : IdempotencyRecord → IdempotencyRecord)
    (keeps : (r : IdempotencyRecord) → key_of (f r) ≡ key_of r) (rows : Keys) where
  abbrev pub if_open : IdempotencyRecord → IdempotencyRecord
  if_open r = if is_in_progress r.state then f r else r

  pub find-open :
      (r : IdempotencyRecord)
      → find key_of k rows ≡ some r
      → find key_of k (update_where (at_open_key k) f rows) ≡ some (if_open r)
  find-open r e =
      rw (find-update key_of k (at_open_key k) f rows keeps, e)
        (rw ((same_row_key_iff (key_of r) k).1 (find-key key_of k rows e)) refl)

  pub find-open_other :
      (j : RowKey)
      → j ≢ k
      → find key_of j (update_where (at_open_key k) f rows) ≡ find key_of j rows
  find-open_other j ne = update_other key_of k (λ r. is_in_progress r.state) rows j f keeps ne

  pub open-IsUnique : IsUnique key_of rows → IsUnique key_of (update_where (at_open_key k) f rows)
  open-IsUnique u = IsUnique-update key_of (at_open_key k) f rows keeps u
