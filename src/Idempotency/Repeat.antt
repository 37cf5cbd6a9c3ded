-- ===== src/Idempotency/Repeat.antt =====
-- `execute_idempotent` of api/idempotency.py called a second time with one key, other requests in
-- between. The action leaves to the table what the other requests do while it is awaited.
use mathlib.Core.Path.{subst}
use mathlib.Core.Bool.{true≢false}
use incidentlens.Common.{
  ℕ, String, ◌≡◌, refl, sym, ◌∙◌, ◌<◌, ◌≤◌, ◌+◌, true, false, Bool, List, Option, none, some, inl,
  inr, All, Result, ok, err, Action, if◌then◌else◌, str_eq, Bool-cases,
}
use incidentlens.Common.Sql.{insert_row}
use incidentlens.Common.Keyed.{IsUnique}
use incidentlens.Idempotency.Types.{
  RowKey, row_key_eq, IdempotencyRecord, key_of, Keys, idempotency_conflict,
  idempotency_in_progress,
}
use incidentlens.Idempotency.Store.{
  reserve, mark_completed, rearm_lease, fresh_row, set_completed, set_lease, seconds,
  reservation_lease_seconds, completed_retention_seconds, failed_reservation_lease_seconds,
}
use incidentlens.Idempotency.Api.{matches_key_pattern, is_success, execute_idempotent, finish}
use incidentlens.Idempotency.Rows.{pruned, find-open, open-IsUnique}
use incidentlens.Idempotency.Reserve.{
  occupant, reserve_rows, reserve_lem, find-reserve_self, reserve-IsUnique,
}
use incidentlens.Idempotency.Execute.{execute_lem, run_action}
use incidentlens.Idempotency.Others.{
  Call, run_all, IsOther, Holds, Holds-run_all, occupant_live, occupant_expired,
}

-- An action with the outcome `o`, while the calls of others come in.
abbrev pub await_action :
    {T : Type 0} → Result String (ℕ × T) → List Call → Action Keys String (ℕ × T)
await_action o calls rows = (o, run_all calls rows)

-- The outcomes that are not kept for replay.
abbrev pub is_failure : {T : Type 0} → Result String (ℕ × T) → Bool
is_failure (err e) = true
is_failure (ok (code, body)) = if is_success code then false else true

started_lem :
    (k : RowKey) (sha : String) (now : ℕ) (rows : Keys)
    → IsUnique key_of rows
    → occupant k now rows ≡ none
    → Holds k (fresh_row k sha now) (reserve_rows k sha now rows none)
started_lem k sha now rows u e =
    let start : (reserve k sha now rows).1 ≡ reserve_rows k sha now rows none =
      rw (reserve_lem k sha now rows u, e) refl in
    subst (Holds k (fresh_row k sha now)) start
      (find-reserve_self k sha now rows u e, reserve-IsUnique k sha now rows u)

Holds-complete :
    (k : RowKey) (sha : String) (now code : ℕ) (json : String) (later : ℕ) (rows : Keys)
    → Holds k (fresh_row k sha now) rows
    → Holds k
        (set_completed code json later (fresh_row k sha now))
        (mark_completed k code json later rows)
unfolding mark_completed
Holds-complete k sha now code json later rows h = (
  find-open k (set_completed code json later) (λ r. refl) rows (fresh_row k sha now) h.0,
  open-IsUnique k (set_completed code json later) (λ r. refl) rows h.1,
)

Holds-rearm :
    (k : RowKey) (sha : String) (now later : ℕ) (rows : Keys)
    → Holds k (fresh_row k sha now) rows
    → Holds k (set_lease later (fresh_row k sha now)) (rearm_lease k later rows)
unfolding rearm_lease
Holds-rearm k sha now later rows h = (
  find-open k (set_lease later) (λ r. refl) rows (fresh_row k sha now) h.0,
  open-IsUnique k (set_lease later) (λ r. refl) rows h.1,
)

module _ {T : Type 0} (encode : T → String) (decode : String → Option T) (k : RowKey) (sha : String)
    (now later : ℕ) (calls : List Call) (rows : Keys) where
  -- The table after a first call, whose action has the outcome `o`, and then the calls `between`.
  abbrev pub after_call : Result String (ℕ × T) → List Call → Keys
  after_call o between =
      run_all between
        (execute_idempotent encode decode k sha now later (await_action o calls) rows).1

  -- A first call whose action ends before other requests may take the key.
  first_call :
      (o : Result String (ℕ × T))
      → matches_key_pattern k.idempotency_key ≡ true
      → IsUnique key_of rows
      → occupant k now rows ≡ none
      → All (IsOther k (now + seconds reservation_lease_seconds)) calls
      → (t : Keys) × Holds k (fresh_row k sha now) t
        × (execute_idempotent encode decode k sha now later (await_action o calls) rows
            ≡ finish encode decode k later o t)
  first_call o good u e others =
      let start = started_lem k sha now rows u e in
      let held = Holds-run_all calls k (fresh_row k sha now) _ start others in
      (
        _,
        held,
        execute_lem encode decode k sha now later (await_action o calls) rows good u ∙ rw e refl,
      )

  success_kept :
      (code : ℕ) (body : T)
      → matches_key_pattern k.idempotency_key ≡ true
      → IsUnique key_of rows
      → occupant k now rows ≡ none
      → is_success code ≡ true
      → All (IsOther k (now + seconds reservation_lease_seconds)) calls
      → Holds k
          (set_completed code (encode body) later (fresh_row k sha now))
          (execute_idempotent encode decode k sha now later
            (await_action (ok (code, body)) calls)
            rows).1
  success_kept code body good u e success others =
      let (t, held, eq) = first_call (ok (code, body)) good u e others in
      rw eq (rw success (Holds-complete k sha now code (encode body) later t held))

  failure_kept :
      (o : Result String (ℕ × T))
      → matches_key_pattern k.idempotency_key ≡ true
      → IsUnique key_of rows
      → occupant k now rows ≡ none
      → is_failure o ≡ true
      → All (IsOther k (now + seconds reservation_lease_seconds)) calls
      → Holds k
          (set_lease later (fresh_row k sha now))
          (execute_idempotent encode decode k sha now later (await_action o calls) rows).1
  failure_kept o good u e failed others =
      let (t, held, eq) = first_call o good u e others in rw eq (rearmed o failed t held)
    where
      rearmed :
          (o : Result String (ℕ × T))
          → is_failure o ≡ true
          → (t : Keys) → Holds k (fresh_row k sha now) t
          → Holds k (set_lease later (fresh_row k sha now)) (finish encode decode k later o t).1
      rearmed (err x) failed t held = Holds-rearm k sha now later t held
      rearmed (ok (code, body)) failed t held = elim (Bool-cases (is_success code)) [
        | inl s ↦ absurd (true≢false (sym failed ∙ rw s refl))
        | inr s ↦ rw s (Holds-rearm k sha now later t held)
      ]

  module _ (code : ℕ) (body : T) (between : List Call) (sha' : String) (now' later' : ℕ)
      (action : Action Keys String (ℕ × T)) where
    -- A 2xx response to a call with a well-formed key that no live row held, over a table with
    -- unique keys, is kept for 24 hours: a second call within that time returns the first response
    -- as replayed if its request is the same, and is refused as a conflict if it is not. Its action
    -- is not run: it only prunes the table. The body must survive its encoding. During the action
    -- and between the two calls the table may change by completions and renewals of other keys,
    -- and by reservations, of any key, and prunings, during the action within 300 seconds of the
    -- reservation and later within the 24 hours. No other request completes or renews this key,
    -- such as one that has held it before.
    pub repeat_success :
        ((b : T) → decode (encode b) ≡ some b)
        → matches_key_pattern k.idempotency_key ≡ true
        → IsUnique key_of rows
        → occupant k now rows ≡ none
        → is_success code ≡ true
        → All (IsOther k (now + seconds reservation_lease_seconds)) calls
        → All (IsOther k (later + seconds completed_retention_seconds)) between
        → now' < later + seconds completed_retention_seconds
        → execute_idempotent encode decode k sha' now' later' action
            (after_call (ok (code, body)) between)
          ≡ (
            (if str_eq sha sha'
                then ok (record { status_code = code; body = body; replayed = true })
                else err idempotency_conflict),
            pruned now' (after_call (ok (code, body)) between),
          )
    repeat_success round good u e success others others' early =
        let r : IdempotencyRecord = set_completed code (encode body) later (fresh_row k sha now) in
        let held =
          Holds-run_all between k r _ (success_kept code body good u e success others) others' in
        execute_lem encode decode k sha' now' later' action (after_call (ok (code, body)) between)
          good held.1
        ∙ rw (occupant_live k r now' (after_call (ok (code, body)) between) held.0 early)
            (rw (round body) refl)

  module _ (o : Result String (ℕ × T)) (between : List Call) (sha' : String) (now' later' : ℕ)
      (action : Action Keys String (ℕ × T)) where
    -- After a failure of a call with a well-formed key that no live row held (the action raised, or
    -- its status is not 2xx), over a table with unique keys, the key is refused as in progress for
    -- 60 seconds. Other calls are as for a kept response: they complete or renew other keys only,
    -- and reserve and prune only within 300 seconds of the reservation during the action, and
    -- within the 60 seconds after it.
    pub retry_early :
        matches_key_pattern k.idempotency_key ≡ true
        → IsUnique key_of rows
        → occupant k now rows ≡ none
        → is_failure o ≡ true
        → All (IsOther k (now + seconds reservation_lease_seconds)) calls
        → All (IsOther k (later + seconds failed_reservation_lease_seconds)) between
        → now' < later + seconds failed_reservation_lease_seconds
        → execute_idempotent encode decode k sha' now' later' action (after_call o between)
          ≡ (err idempotency_in_progress, pruned now' (after_call o between))
    retry_early good u e failed others others' early =
        let r : IdempotencyRecord = set_lease later (fresh_row k sha now) in
        let held = Holds-run_all between k r _ (failure_kept o good u e failed others) others' in
        execute_lem encode decode k sha' now' later' action (after_call o between) good held.1
        ∙ rw (occupant_live k r now' (after_call o between) held.0 early) refl

    -- After a failure of a call with a well-formed key that no live row held (the action raised, or
    -- its status is not 2xx), over a table with unique keys, the next call with the key, if it comes
    -- 60 seconds or more after the failure, is neither refused nor answered from the table: it runs
    -- its own action, on the pruned table with the key reserved for its request. During the action
    -- and between the two calls the table changes only by completions and renewals of other keys,
    -- and by reservations, of any key, and prunings, during the action within 300 seconds of the
    -- reservation and later within the 60 seconds. No other request completes or renews this key,
    -- such as one that has held it before.
    pub retry_runs :
        matches_key_pattern k.idempotency_key ≡ true
        → IsUnique key_of rows
        → occupant k now rows ≡ none
        → is_failure o ≡ true
        → All (IsOther k (now + seconds reservation_lease_seconds)) calls
        → All (IsOther k (later + seconds failed_reservation_lease_seconds)) between
        → later + seconds failed_reservation_lease_seconds ≤ now'
        → execute_idempotent encode decode k sha' now' later' action (after_call o between)
          ≡ run_action encode decode k later'
              (action (insert_row (fresh_row k sha' now') (pruned now' (after_call o between))))
    retry_runs good u e failed others others' late =
        let r : IdempotencyRecord = set_lease later (fresh_row k sha now) in
        let held = Holds-run_all between k r _ (failure_kept o good u e failed others) others' in
        execute_lem encode decode k sha' now' later' action (after_call o between) good held.1
        ∙ rw (occupant_expired k r now' (after_call o between) held.0 late) refl
