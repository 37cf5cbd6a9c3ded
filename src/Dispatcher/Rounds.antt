-- ===== src/Dispatcher/Rounds.antt =====
-- What `_claim_next` of operations/dispatcher.py claims.
use incidentlens.Common.{
  ℕ, String, ◌≡◌, refl, ap, ◌∙◌, Bool, true, false, ◌&&◌, not, Option, none, some, List, [], ◌∷◌,
  inl, inr, All, All-take, Bool-cases, if◌then◌else◌, ok, Result, >>=-ok, filter, take, is_some,
}
use incidentlens.Common.Sql.{select_one, order_by}
use incidentlens.Common.Keyed.{string_key, find, IsUnique}
use incidentlens.Common.Ordered.{All-filter, All-order_by, rows_found}
use incidentlens.Machine.Status.{queued}
use incidentlens.Operation.Types.{
  Operation, OperationKind, OperationError, Db, status_is, operation_key, attempt_key,
}
use incidentlens.Operation.Store
use incidentlens.Operation.Store.{list_queued, set_claimed}
use incidentlens.Operation.Service
use incidentlens.Operation.Claims.{claimed_db, claim_lem}
use incidentlens.Operation.Effects.{announced}
use incidentlens.Dispatcher.State.{Dispatcher, serialization_blocked, hold}
use incidentlens.Dispatcher.Select.{try_claim, claim_first, claim_next, or_next}

-- The rows that a worker looks at: the 100 oldest that are queued.
abbrev pub candidates : Db → List Operation
candidates db =
    take 100
      (order_by (λ op. op.created_at) (filter (λ op. status_is op.status queued) db.operations))

abbrev pub IsCandidate : Db → Operation → Type 0
IsCandidate db op =
    (find operation_key op.operation_id db.operations ≡ some op)
    × (status_is op.status queued ≡ true)

candidates-IsCandidate :
    (db : Db) → IsUnique operation_key db.operations → All (IsCandidate db) (candidates db)
candidates-IsCandidate db u = All-take (IsCandidate db) 100 _ (
    All-order_by (IsCandidate db) (λ op. op.created_at) _
      (All-filter (λ op. find operation_key op.operation_id db.operations ≡ some op)
        (λ op. status_is op.status queued) db.operations
        (rows_found operation_key db.operations u)))

if_active :
    {A : Type 0} (active : Bool) (x y z : A)
    → x ≡ y
    → (if not active then z else x) ≡ (if active then y else z)
if_active true x y z e = e
if_active false x y z e = refl

module _ (redact : ℕ → String → String) (registered : OperationKind → Bool) (worker : String)
    (now : ℕ) (attempt_id : Operation → String) where
  -- A row that a worker may take: its kind has a handler, and no operation in flight blocks it.
  abbrev pub is_eligible : Dispatcher → Operation → Bool
  is_eligible d op = registered op.kind && not (serialization_blocked op d)

  abbrev pub taken_db : Operation → Db → Db
  taken_db op db =
      announced redact (set_claimed worker now op)
        (claimed_db op.operation_id worker now (attempt_id op) db)

  -- The dispatcher once a worker has taken the row.
  abbrev pub taken : Operation → Dispatcher → Dispatcher
  taken op d = hold (set_claimed worker now op) (record d { db = taken_db op d.db })

  service_claim_lem :
      (op : Operation) (db : Db)
      → IsUnique operation_key db.operations
      → IsCandidate db op
      → is_some (find attempt_key (attempt_id op) db.attempts) ≡ false
      → Service.claim redact op.operation_id worker now (attempt_id op) db
        ≡ (ok (set_claimed worker now op), taken_db op db)
  unfolding Service.claim
  service_claim_lem op db u c fresh =
      >>=-ok (Store.claim op.operation_id worker now (attempt_id op))
        (Service.operation_status_changed redact) db
        (claim_lem op.operation_id worker now (attempt_id op) db u ∙ rw (c.0, c.1, fresh) refl)

  abbrev pub claim_result :
      Dispatcher → Option Operation → Result OperationError (Option Operation) × Dispatcher
  claim_result d none = (ok none, d)
  claim_result d (some op) = (ok (some (set_claimed worker now op)), taken op d)

  try_claim_lem :
      (d : Dispatcher) (op : Operation)
      → IsUnique operation_key d.db.operations
      → is_some (find attempt_key (attempt_id op) d.db.attempts) ≡ false
      → IsCandidate d.db op
      → try_claim redact registered worker now attempt_id op d
        ≡ claim_result d (if is_eligible d op then some op else none)
  unfolding try_claim
  try_claim_lem d op u fresh c = elim (Bool-cases (registered op.kind)) [
    | inr r ↦ rw (r, try_claim) refl
    | inl r ↦ elim (Bool-cases (serialization_blocked op d)) [
      | inl b ↦ rw (r, b, try_claim) refl
      | inr b ↦ rw (r, b, try_claim) (rw (service_claim_lem op d.db u c fresh) refl)
    ]
  ]

  claim_first_lem :
      (d : Dispatcher) (ops : List Operation)
      → IsUnique operation_key d.db.operations
      → ((op : Operation) → is_some (find attempt_key (attempt_id op) d.db.attempts) ≡ false)
      → All (IsCandidate d.db) ops
      → claim_first redact registered worker now attempt_id ops d
        ≡ claim_result d (select_one (is_eligible d) ops)
  unfolding claim_first
  claim_first_lem d [] u fresh h = refl
  claim_first_lem d (op ∷ ops) u fresh h =
      ap
        (λ (o : Result OperationError (Option Operation) × Dispatcher).
          or_next redact registered worker now attempt_id o
            (claim_first redact registered worker now attempt_id ops))
        (try_claim_lem d op u (fresh op) h.0)
      ∙ elim (Bool-cases (is_eligible d op)) [
        | inl e ↦ rw e refl
        | inr e ↦ rw e (claim_first_lem d ops u fresh h.1)
      ]

  -- Over a table with unique ids, where the attempt ids drawn are new, a worker takes the oldest
  -- row, among the 100 oldest queued ones, whose kind has a handler and which no operation in
  -- flight blocks: the row becomes running with the worker's name, and is held. Without such a row,
  -- or after a stop, nothing changes.
  pub claim_next_lem :
      (d : Dispatcher)
      → IsUnique operation_key d.db.operations
      → ((op : Operation) → is_some (find attempt_key (attempt_id op) d.db.attempts) ≡ false)
      → claim_next redact registered worker now attempt_id d ≡ (
          if d.active
          then claim_result d (select_one (is_eligible d) (candidates d.db))
          else (ok none, d))
  unfolding claim_next list_queued
  claim_next_lem d u fresh =
      if_active d.active _ _ (ok none, d)
        (claim_first_lem d (candidates d.db) u fresh (candidates-IsCandidate d.db u))
