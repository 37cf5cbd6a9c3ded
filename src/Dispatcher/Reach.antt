-- ===== src/Dispatcher/Reach.antt =====
-- The states that operations/dispatcher.py reaches: workers claim and finish in any order, and other
-- requests change the tables in between.
use mathlib.Core.Path.{subst}
use mathlib.Core.Bool.{false≢true}
use incidentlens.Common.{
  ℕ, String, ◌≡◌, refl, sym, Bool, true, false, Option, none, some, [], is_some, not, ◌&&◌,
  if◌then◌else◌, Result, ok,
}
use incidentlens.Common.Sql.{select_one, select_one_holds}
use incidentlens.Common.Keyed.{string_key, find, IsUnique}
use incidentlens.Operation.Types.{
  Operation, OperationKind, OperationError, Db, operation_key, attempt_key,
}
use incidentlens.Dispatcher.State.{Dispatcher, serialization_blocked}
use incidentlens.Dispatcher.Select.{claim_next}
use incidentlens.Dispatcher.Finish.{Ended, execute}
use incidentlens.Dispatcher.Serial.{Serial, hold-Serial}
use incidentlens.Dispatcher.Releases.{release-Serial}
use incidentlens.Dispatcher.Rounds.{claim_next_lem, is_eligible, candidates, taken, claim_result}

-- `OperationDispatcher.__init__`, then `start`.
abbrev pub started : Db → Dispatcher
started db = record {
  active = true;
  in_flight = [];
  active_sessions = [];
  active_dangerous_targets = [];
  db = db;
}

module _ (redact : ℕ → String → String) (describe : OperationError → String)
    (registered : OperationKind → Bool) where
  module _ (worker : String) (now : ℕ) (attempt_id : Operation → String) (d : Dispatcher)
      (inv : Serial d) where
    taken-Serial :
        (op : Operation)
        → is_eligible redact registered worker now attempt_id d op ≡ true
        → Serial (taken redact registered worker now attempt_id op d)
    unfolding serialization_blocked
    taken-Serial op e =
        hold-Serial _ _ (unblocked (registered op.kind) (serialization_blocked op d) e)
          (record { unique = inv.unique; serial = inv.serial; held = inv.held })
      where
        unblocked : (r b : Bool) → r && not b ≡ true → b ≡ false
        unblocked true false h = refl
        unblocked true true h = absurd (false≢true h)
        unblocked false b h = absurd (false≢true h)

    result-Serial :
        (o : Option Operation)
        → ((op : Operation)
            → o ≡ some op
            → is_eligible redact registered worker now attempt_id d op ≡ true)
        → Serial (claim_result redact registered worker now attempt_id d o).1
    result-Serial none h = inv
    result-Serial (some op) h = taken-Serial op (h op refl)

    if-Serial :
        (active : Bool) (o : Result OperationError (Option Operation) × Dispatcher)
        → Serial o.1
        → Serial (if active then o else (ok none, d)).1
    if-Serial true o h = h
    if-Serial false o h = inv

    claim_next-Serial :
        IsUnique operation_key d.db.operations
        → ((op : Operation) → is_some (find attempt_key (attempt_id op) d.db.attempts) ≡ false)
        → Serial (claim_next redact registered worker now attempt_id d).1
    claim_next-Serial u fresh =
        subst (λ (o : Result OperationError (Option Operation) × Dispatcher). Serial o.1)
          (sym (claim_next_lem redact registered worker now attempt_id d u fresh))
          (if-Serial d.active _ (
            result-Serial
              (select_one (is_eligible redact registered worker now attempt_id d) (candidates d.db))
              (λ op.
                select_one_holds (is_eligible redact registered worker now attempt_id d)
                  (candidates d.db) {r = op})))

  pub data IsReachable : Dispatcher → Type 0 where
    start : (db : Db) → IsReachable (started db)
    others : (d : Dispatcher) (db : Db) → IsReachable d → IsReachable (record d { db = db })
    stop : (d : Dispatcher) → IsReachable d → IsReachable (record d { active = false })
    claims :
        (worker : String) (now : ℕ) (attempt_id : Operation → String) (d : Dispatcher)
        → IsUnique operation_key d.db.operations
        → ((op : Operation) → is_some (find attempt_key (attempt_id op) d.db.attempts) ≡ false)
        → IsReachable d
        → IsReachable (claim_next redact registered worker now attempt_id d).1
    finishes :
        (now : ℕ) (op : Operation) (ended : Ended) (d : Dispatcher)
        → find operation_key op.operation_id d.in_flight ≡ some op
        → IsReachable d
        → IsReachable (execute redact describe now op ended d).1

  -- In every state that the dispatcher reaches, whatever the order of claims, of handlers' ends and
  -- of other requests' changes to the tables: no two operations in flight have one session, and no
  -- two rollbacks in flight have one target; each holds its keys. A claim is taken over a table
  -- with unique ids and draws a new attempt id; what ends is in flight.
  pub reachable-Serial : (d : Dispatcher) → IsReachable d → Serial d
  unfolding execute
  reachable-Serial _ (start db) = record { unique = tt; serial = tt; held = tt }
  reachable-Serial _ (others d db r) =
      let inv = reachable-Serial d r in
      record { unique = inv.unique; serial = inv.serial; held = inv.held }
  reachable-Serial _ (stop d r) =
      let inv = reachable-Serial d r in
      record { unique = inv.unique; serial = inv.serial; held = inv.held }
  reachable-Serial _ (claims worker now attempt_id d u fresh r) =
      claim_next-Serial worker now attempt_id d (reachable-Serial d r) u fresh
  reachable-Serial _ (finishes now op ended d e r) =
      let inv = reachable-Serial d r in
      release-Serial op _ e (record { unique = inv.unique; serial = inv.serial; held = inv.held })
