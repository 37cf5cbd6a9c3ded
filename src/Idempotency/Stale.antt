-- ===== src/Idempotency/Stale.antt =====
-- A worker of api/idempotency.py that outlives the lease of its reservation in idempotency/store.py.
use incidentlens.Common.{ℕ, String, ◌≡◌, refl, ◌≤◌, ◌+◌, some, none}
use incidentlens.Common.Keyed.{find, IsUnique}
use incidentlens.Idempotency.Types.{RowKey, row_key_eq, key_of, Keys}
use incidentlens.Idempotency.Store.{
  reserve, mark_completed, fresh_row, set_completed, seconds, reservation_lease_seconds,
}
use incidentlens.Idempotency.Rows.{find-open}
use incidentlens.Idempotency.Reserve.{find-reserve_self, reserve-IsUnique, occupant}
use incidentlens.Idempotency.Others.{Holds, occupant_expired}

module _ (k : RowKey) (sha sha' : String) (now now' : ℕ) (rows : Keys) where
  -- The table after the first worker's reservation and the second's.
  abbrev pub taken_over : Keys
  taken_over = (reserve k sha' now' (reserve k sha now rows).1).1

  -- A reservation whose lease has run out is taken over by the next request on the key.
  pub taken_over-Holds :
      IsUnique key_of rows
      → occupant k now rows ≡ none
      → now + seconds reservation_lease_seconds ≤ now'
      → Holds k (fresh_row k sha' now') taken_over
  taken_over-Holds u e late =
      let first = find-reserve_self k sha now rows u e in
      let u' = reserve-IsUnique k sha now rows u in
      let gone =
        occupant_expired k (fresh_row k sha now) now' (reserve k sha now rows).1 first late in
      (
        find-reserve_self k sha' now' (reserve k sha now rows).1 u' gone,
        reserve-IsUnique k sha' now' (reserve k sha now rows).1 u',
      )

  -- When a second request has taken over a key whose lease of 300 seconds ran out, over a table
  -- with unique keys, the completion of the first is written to the second's row: it holds the
  -- second's request hash with the first's response, and the second's own completion leaves that
  -- row as it is.
  pub stale_completion :
      (code code' : ℕ) (json json' : String) (later later' : ℕ)
      → IsUnique key_of rows
      → occupant k now rows ≡ none
      → now + seconds reservation_lease_seconds ≤ now'
      → (find key_of k (mark_completed k code json later taken_over)
          ≡ some (set_completed code json later (fresh_row k sha' now')))
        × (find key_of k
              (mark_completed k code' json' later' (mark_completed k code json later taken_over))
            ≡ some (set_completed code json later (fresh_row k sha' now')))
  unfolding mark_completed
  stale_completion code code' json json' later later' u e late =
      let held = taken_over-Holds u e late in
      let done =
        find-open k (set_completed code json later) (λ r. refl) taken_over (fresh_row k sha' now')
          held.0 in
      (
        done,
        find-open k (set_completed code' json' later') (λ r. refl) _
            (set_completed code json later (fresh_row k sha' now')) done,
      )
