-- ===== src/Idempotency/Others.antt =====
-- Calls of other requests on the table of idempotency/store.py, one transaction after another.
use mathlib.Core.Bool.{false≢true}
use incidentlens.Common.{
  ℕ, String, ◌≡◌, refl, ◌∙◌, ◌≢◌, ◌<◌, ◌≤◌, true, List, [], ◌∷◌, some, arith, All, ok, err, Result,
  Bool, ◌+◌, none, inl, inr, sym, ap, Bool-cases, Option-cases, false,
}
use incidentlens.Common.Keyed.{find, IsUnique}
use incidentlens.Idempotency.Types.{
  IdempotencyError, Reservation, ReservationStatus, bare_reservation, RowKey, row_key_eq,
  IdempotencyRecord, key_of, Keys, same_row_key, same_row_key_iff, IdempotencyState-cases,
}
use incidentlens.Idempotency.Store.{
  reserve, mark_completed, rearm_lease, prune_expired, set_completed, set_lease, seconds,
  reservation_lease_seconds, fresh_row,
}
use incidentlens.Idempotency.Rows.{find-pruned, pruned-IsUnique, find-open_other, open-IsUnique}
use incidentlens.Idempotency.Reserve.{
  reserve_lem, reserve-IsUnique, find-reserve_other, find-reserve_self, occupant, reserve_result,
}

pub data Call : Type 0 where
  reserve_call : RowKey → String → ℕ → Call
  complete_call : RowKey → ℕ → String → ℕ → Call
  rearm_call : RowKey → ℕ → Call
  prune_call : ℕ → Call

abbrev pub run : Call → Keys → Keys
run (reserve_call k sha now) rows = (reserve k sha now rows).1
run (complete_call k code response_json now) rows = mark_completed k code response_json now rows
run (rearm_call k now) rows = rearm_lease k now rows
run (prune_call now) rows = (prune_expired now rows).1

abbrev pub run_all : List Call → Keys → Keys
run_all [] rows = rows
run_all (c ∷ calls) rows = run_all calls (run c rows)

-- A call on another key, or, before `deadline`, an attempt to reserve `k` itself or a pruning: no
-- call that completes `k` or renews its lease.
abbrev pub IsOther : RowKey → ℕ → Call → Type 0
IsOther k deadline (reserve_call j sha now) = now < deadline
IsOther k deadline (complete_call j code response_json now) = k ≢ j
IsOther k deadline (rearm_call j now) = k ≢ j
IsOther k deadline (prune_call now) = now < deadline

-- The row of a key, and the uniqueness of the keys.
abbrev pub Holds : RowKey → IdempotencyRecord → Keys → Type 0
Holds k r rows = (find key_of k rows ≡ some r) × IsUnique key_of rows

pub occupant_live :
    (k : RowKey) (r : IdempotencyRecord) (now : ℕ) (rows : Keys)
    → find key_of k rows ≡ some r
    → now < r.expires_at
    → occupant k now rows ≡ some r
occupant_live k r now rows e live = rw e (ground arith)

pub occupant_expired :
    (k : RowKey) (r : IdempotencyRecord) (now : ℕ) (rows : Keys)
    → find key_of k rows ≡ some r
    → r.expires_at ≤ now
    → occupant k now rows ≡ none
occupant_expired k r now rows e late = rw e (ground arith)

find-reserve_live :
    (k j : RowKey) (sha : String) (r : IdempotencyRecord) (now : ℕ) (rows : Keys)
    → Holds k r rows
    → now < r.expires_at
    → find key_of k (reserve j sha now rows).1 ≡ some r
find-reserve_live k j sha r now rows h live = elim (Bool-cases (same_row_key j k)) [
  | inl s ↦ rw ((same_row_key_iff j k).0 s) (
      rw (reserve_lem k sha now rows h.1, occupant_live k r now rows h.0 live)
        (find-pruned k now rows h.1 ∙ occupant_live k r now rows h.0 live))
  | inr s ↦
      find-reserve_other j k sha now rows h.1
        (λ p. false≢true (sym s ∙ (same_row_key_iff j k).1 (sym p)))
      ∙ occupant_live k r now rows h.0 live
]

abbrev is_won : Result IdempotencyError Reservation → Bool
is_won (err e) = false
is_won (ok r) = elim r.status [ ReservationStatus.reserved ↦ true | _ ↦ false ]

not_won : (r : IdempotencyRecord) (sha : String) → is_won (reserve_result sha (some r)) ≡ false
not_won r sha = elim (IdempotencyState-cases r.state) [
  | inl e ↦ rw e refl
  | inr e ↦ rw e (ground arith)
]

-- A reservation is won exactly where no live row has the key.
pub reserved-occupant :
    (k : RowKey) (sha : String) (now : ℕ) (rows : Keys)
    → IsUnique key_of rows
    → (reserve k sha now rows).0 ≡ ok (bare_reservation ReservationStatus.reserved)
    → occupant k now rows ≡ none
reserved-occupant k sha now rows u won = elim (Option-cases (occupant k now rows)) [
  | inl e ↦ e
  | inr (r, e) ↦
      let lost : (reserve k sha now rows).0 ≡ reserve_result sha (some r) =
        rw (reserve_lem k sha now rows u, e) refl in
      absurd (false≢true (sym (not_won r sha) ∙ ap is_won (sym lost ∙ won)))
]

pub Holds-run :
    (c : Call) (k : RowKey) (r : IdempotencyRecord) (rows : Keys)
    → Holds k r rows
    → IsOther k r.expires_at c
    → Holds k r (run c rows)
unfolding mark_completed rearm_lease prune_expired
Holds-run (reserve_call j sha now) k r rows h o =
    (find-reserve_live k j sha r now rows h o, reserve-IsUnique j sha now rows h.1)
Holds-run (complete_call j code json now) k r rows h o = (
  find-open_other j (set_completed code json now) (λ r. refl) rows k o ∙ h.0,
  open-IsUnique j (set_completed code json now) (λ r. refl) rows h.1,
)
Holds-run (rearm_call j now) k r rows h o = (
  find-open_other j (set_lease now) (λ r. refl) rows k o ∙ h.0,
  open-IsUnique j (set_lease now) (λ r. refl) rows h.1,
)
Holds-run (prune_call now) k r rows h o =
    (find-pruned k now rows h.1 ∙ occupant_live k r now rows h.0 o, pruned-IsUnique now rows h.1)

-- Before its expiry no call of another request touches the row.
pub Holds-run_all :
    (calls : List Call) (k : RowKey) (r : IdempotencyRecord) (rows : Keys)
    → Holds k r rows
    → All (IsOther k r.expires_at) calls
    → Holds k r (run_all calls rows)
Holds-run_all [] k r rows h o = h
Holds-run_all (c ∷ calls) k r rows h o =
    Holds-run_all calls k r (run c rows) (Holds-run c k r rows h o.0) o.1

-- Over a table with unique keys a reservation that was won excludes further attempts on its key for
-- its lease of 300 seconds: a second attempt within the lease finds the key in progress, provided
-- that all calls in between are completions or renewals of other keys, or reservations, of any key,
-- and prunings made within the lease. In particular no request completes or renews this key in
-- between, neither the one that holds it nor one that has held it before.
pub reserve_exclusive :
    (k : RowKey) (sha sha' : String) (now now' : ℕ) (calls : List Call) (rows : Keys)
    → IsUnique key_of rows
    → (reserve k sha now rows).0 ≡ ok (bare_reservation ReservationStatus.reserved)
    → All (IsOther k (now + seconds reservation_lease_seconds)) calls
    → now' < now + seconds reservation_lease_seconds
    → (reserve k sha' now' (run_all calls (reserve k sha now rows).1)).0
      ≡ ok (bare_reservation ReservationStatus.in_progress)
reserve_exclusive k sha sha' now now' calls rows u won others early =
    let start : Holds k (fresh_row k sha now) (reserve k sha now rows).1 = (
      find-reserve_self k sha now rows u (reserved-occupant k sha now rows u won),
      reserve-IsUnique k sha now rows u,
    ) in
    let held =
      Holds-run_all calls k (fresh_row k sha now) (reserve k sha now rows).1 start others in
    rw
      (
        reserve_lem k sha' now' (run_all calls (reserve k sha now rows).1) held.1,
        occupant_live k (fresh_row k sha now) now' (run_all calls (reserve k sha now rows).1) held.0
            early,
      )
      refl
