-- ===== src/Operation/Claimed.antt =====
-- How `OperationStore.claim` of operations/store.py ends, with the fields that it writes.
use incidentlens.Common.{
  ℕ, String, ◌≡◌, ◌≢◌, refl, sym, ap, subst, true, none, some, inl, inr, Bool-cases, Option-cases,
  Result, ok, err,
}
use incidentlens.Common.Keyed.{
  string_key, find, IsUnique, find-insert_self, find-insert_other, update_other,
}
use incidentlens.Machine.Status.{OperationStatus, queued}
use incidentlens.Operation.Types.{
  Operation, OperationAttempt, OperationError, operation_not_found, operation_not_claimable,
  integrity_error, Db, status_is, operation_key, attempt_key,
}
use incidentlens.Operation.Store.{claim, set_claimed, running_attempt}
use incidentlens.Operation.Claims.{claim_lem, claim_spec, claimed_db, update_found}
use incidentlens.Operation.Races.{status_is_eq, status_is_refl}

module _ (id token : String) (now : ℕ) (attempt_id : String) (before : Db) where
  -- A claim that succeeded: the queued row is running and held by the claim, and there is a new
  -- attempt; every other row and attempt is as before, and so are the events.
  pub record IsClaimed (op : Operation) (after : Db) : Type 0 where
    pub row : Operation
    pub found : find operation_key id before.operations ≡ some row
    pub was_queued : row.status ≡ queued
    pub unused : find attempt_key attempt_id before.attempts ≡ none
    pub claimed : op ≡ record row {
      status = OperationStatus.running;
      claim_token = some token;
      claimed_at = some now;
      updated_at = now;
    }
    pub stored : find operation_key id after.operations ≡ some op
    pub others :
        (j : String)
        → j ≢ id
        → find operation_key j after.operations ≡ find operation_key j before.operations
    pub attempt :
        find attempt_key attempt_id after.attempts
        ≡ some (record {
          attempt_id = attempt_id;
          operation_id = id;
          status = "running";
          claimed_by = some token;
          started_at = some now;
          finished_at = none;
          created_at = now;
        })
    pub other_attempts :
        (j : String)
        → attempt_id ≢ j
        → find attempt_key j after.attempts ≡ find attempt_key j before.attempts
    pub events : after.events ≡ before.events

  -- The ends of a claim.
  abbrev pub ClaimEnds : Result OperationError Operation × Db → Type 0
  ClaimEnds (ok op, after) = IsClaimed op after
  ClaimEnds (err operation_not_found, after) =
      (find operation_key id before.operations ≡ none) × (after ≡ before)
  ClaimEnds (err operation_not_claimable, after) =
      (row : Operation) × (find operation_key id before.operations ≡ some row)
      × (row.status ≢ queued)
      × (after ≡ before)
  ClaimEnds (err integrity_error, after) =
      (row : Operation) × (attempt : OperationAttempt) × (find operation_key id before.operations
        ≡ some row)
      × (row.status ≡ queued)
      × (find attempt_key attempt_id before.attempts ≡ some attempt)
      × (after ≡ before)
  ClaimEnds (err e, after) = ⊥

  claimed_db-IsClaimed :
      (row : Operation)
      → find operation_key id before.operations ≡ some row
      → status_is row.status queued ≡ true
      → find attempt_key attempt_id before.attempts ≡ none
      → IsClaimed (set_claimed token now row) (claimed_db id token now attempt_id before)
  claimed_db-IsClaimed row e q fresh = record {
    row = row;
    found = e;
    was_queued = status_is_eq row.status queued q;
    unused = fresh;
    claimed = refl;
    stored = update_found id queued before.operations (set_claimed token now) row (λ r. refl) e q;
    others = λ j ne.
        update_other operation_key id (λ op. status_is op.status queued) before.operations j
          (set_claimed token now) (λ r. refl) ne;
    attempt =
        find-insert_self attempt_key attempt_id (running_attempt attempt_id id token now)
          before.attempts refl fresh;
    other_attempts = λ j ne.
        find-insert_other attempt_key j (running_attempt attempt_id id token now) before.attempts
          ne;
    events = refl;
  }

  spec-Ends :
      ClaimEnds
        (claim_spec id token now attempt_id before (find operation_key id before.operations))
  spec-Ends = elim (Option-cases (find operation_key id before.operations)) [
    | inl e ↦ rw e (e, refl)
    | inr (row, e) ↦ elim (Bool-cases (status_is row.status queued)) [
      | inr q ↦
          rw (e, q)
            (
              row,
              e,
              (λ p. absurd (cc (q, ap (λ s. status_is s queued) p, status_is_refl queued))),
              refl,
            )
      | inl q ↦ elim (Option-cases (find attempt_key attempt_id before.attempts)) [
        | inl a ↦ rw (e, q, a) (claimed_db-IsClaimed row e q a)
        | inr (attempt, a) ↦
            rw (e, q, a) (row, attempt, e, status_is_eq row.status queued q, a, refl)
      ]
    ]
  ]

  -- Over a table with unique ids a claim ends in one of four ways. If the id's row is queued and the
  -- drawn attempt id is new, the row is running afterwards, held by the claim's token since now, and
  -- returned, with a running attempt of its own; no other row, attempt or event has changed. Else
  -- the tables are as before: the id is missing and not found, its row is not queued and not
  -- claimable, or the attempt id is taken, which the primary key refuses.
  pub claim-Ends :
      IsUnique operation_key before.operations → ClaimEnds (claim id token now attempt_id before)
  claim-Ends u = subst ClaimEnds (sym (claim_lem id token now attempt_id before u)) spec-Ends
