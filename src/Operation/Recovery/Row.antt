-- ===== src/Operation/Recovery/Row.antt =====
-- `OperationRecovery._classify` of operations/recovery.py on one row that is as it was read.
use incidentlens.Common.{
  ℕ, String, ◌≡◌, ◌≢◌, refl, ap, Bool, true, false, ◌&&◌, Option, none, some, inl, inr,
  if◌then◌else◌, Bool-cases, Result, ok, err, pure, >>=-ok, all, any,
}
use incidentlens.Common.Keyed.{string_key, find, IsUnique}
use incidentlens.Machine.Status.{
  OperationStatus, queued, running, cancel_requested, cancelled, succeeded, failed, uncertain,
  investigation,
}
use incidentlens.Machine.Core.{is_terminal}
use incidentlens.Machine.Tables.{investigation_machine}
use incidentlens.Operation.Types.{
  OperationKind, Operation, OperationError, concurrent_operation_update, illegal_transition, Db,
  status_is, operation_key,
}
use incidentlens.Operation.Store.{Store, set_requeued}
use incidentlens.Operation.Moves.{allowed}
use incidentlens.Operation.Service
use incidentlens.Operation.Effects.{
  announced, requeued_db, service_move, service_moved_db, service_transition_lem,
  service_requeue_lem,
}
use incidentlens.Operation.Footprint.{
  moved-IsUnique, moved_find, moved_other, requeued-IsUnique, requeued_find, requeued_other,
}
use incidentlens.Operation.Recovery.{
  Linked, Bucket, best_effort, counted, outcome, is_completed, is_completed_run, is_terminal_run,
  non_empty, try_transition, try_requeue, reconcile_linked, reconcile_agent_kind, classify_running,
  classify_at, classify, interrupted_summary, finalised_summary,
}

-- The status that the per-kind rules give a row.
abbrev linked_outcome : Option Linked → OperationStatus
linked_outcome none = failed
linked_outcome (some linked) =
    if is_terminal investigation_machine (investigation linked.status)
    then outcome (is_completed linked.status)
    else if non_empty linked.runs && all is_terminal_run linked.runs
    then outcome (any is_completed_run linked.runs)
    else queued

module _ (investigations : String → Option Linked) where
  abbrev agent_outcome : Option String → OperationStatus
  agent_outcome none = failed
  agent_outcome (some id) = linked_outcome (investigations id)

  abbrev running_outcome : OperationKind → Option String → OperationStatus
  running_outcome OperationKind.rollback _ = uncertain
  running_outcome OperationKind.target_test _ = queued
  running_outcome OperationKind.report_generate _ = queued
  running_outcome OperationKind.agent_message id = agent_outcome id
  running_outcome OperationKind.investigation_start id = agent_outcome id

  abbrev pub recovered_at : OperationStatus → Operation → OperationStatus
  recovered_at cancel_requested op = cancelled
  recovered_at running op = running_outcome op.kind op.investigation_id
  recovered_at s op = s

  abbrev pub recovered : Operation → OperationStatus
  recovered op = recovered_at op.status op

-- The statuses that recovery leaves alone: queued and the terminal ones.
abbrev pub is_left : OperationStatus → Bool
is_left running = false
is_left cancel_requested = false
is_left _ = true

-- The tables after the row `op` was given the status `s`.
pub record Settled (op : Operation) (s : OperationStatus) (db db' : Db) : Type 0 where
  pub unique : IsUnique operation_key db'.operations
  pub row : Operation
  pub found : find operation_key op.operation_id db'.operations ≡ some row
  pub settled : row.status ≡ s
  pub kept : is_left op.status ≡ true → row ≡ op
  pub others :
      (j : String)
      → j ≢ op.operation_id
      → find operation_key j db'.operations ≡ find operation_key j db.operations

abbrev Settles : Operation → OperationStatus → Db → Store Bool → Type 0
Settles op s db call = (db' : Db) × (call db ≡ (ok true, db')) × Settled op s db db'

best_effort-ok :
    (call : Store Operation) (db : Db) {r : Operation} {db' : Db}
    → call db ≡ (ok r, db')
    → best_effort call db ≡ (ok true, db')
best_effort-ok call db e =
    ap
      (λ (o : Result OperationError Operation × Db). elim o.0 [
        | ok _ ↦ (ok true, o.1)
        | err (illegal_transition _) ↦ (ok false, o.1)
        | err concurrent_operation_update ↦ (ok false, o.1)
        | err x ↦ (err x, o.1)
      ])
      e

module _ (redact : ℕ → String → String) (investigations : String → Option Linked) (now : ℕ)
    (op : Operation) (db : Db) (u : IsUnique operation_key db.operations)
    (e : find operation_key op.operation_id db.operations ≡ some op) where
  Settles-move :
      (target : OperationStatus) (text : String)
      → is_left op.status ≡ false
      → allowed op.status target ≡ true
      → Settles op target db (try_transition redact investigations now op target text)
  Settles-move target text l a = (
    service_moved_db redact target (some text) none none now op db,
    best_effort-ok (Service.transition redact op.operation_id target (some text) none none now) db (
        rw a at (
          service_transition_lem redact op.operation_id target (some text) none none now db op u
            e)),
    record {
      unique = moved-IsUnique redact op.operation_id now db op u e target (some text) none none;
      row = service_move redact target (some text) none none now op;
      found = moved_find redact op.operation_id now db op u e target (some text) none none;
      settled = refl;
      kept = λ h. cc;
      others = moved_other redact op.operation_id now db op u e target (some text) none none;
    },
  )

  Settles-requeue :
      op.status ≡ running → Settles op queued db (try_requeue redact investigations now op)
  Settles-requeue s =
      let q : status_is op.status running ≡ true = rw s in
      (
        announced redact (set_requeued now op) (requeued_db op now db),
        best_effort-ok (Service.requeue redact op.operation_id now) db
            (rw q at (service_requeue_lem redact op.operation_id now db op u e)),
        record {
          unique = requeued-IsUnique redact op.operation_id now db op u e;
          row = set_requeued now op;
          found = requeued_find redact op.operation_id now db op u e q;
          settled = refl;
          kept = λ h. absurd (cc);
          others = requeued_other redact op.operation_id now db op u e;
        },
      )

  Settles-linked :
      (id : String) (linked : Option Linked)
      → op.status ≡ running
      → Settles op
          (linked_outcome linked)
          db
          (reconcile_linked redact investigations now op id linked)
  Settles-linked id none s = Settles-move failed _ (rw s) (rw s)
  Settles-linked id (some l) s =
      elim (Bool-cases (is_terminal investigation_machine (investigation l.status))) [
        | inl t ↦ elim (Bool-cases (is_completed l.status)) [
          | inl c ↦ rw (t, c) (Settles-move succeeded _ (rw s) (rw s))
          | inr c ↦ rw (t, c) (Settles-move failed _ (rw s) (rw s))
        ]
        | inr t ↦ elim (Bool-cases (non_empty l.runs && all is_terminal_run l.runs)) [
          | inr r ↦ rw (t, r) (Settles-requeue s)
          | inl r ↦ elim (Bool-cases (any is_completed_run l.runs)) [
            | inl c ↦ rw (t, r, c) (Settles-move succeeded _ (rw s) (rw s))
            | inr c ↦ rw (t, r, c) (Settles-move failed _ (rw s) (rw s))
          ]
        ]
      ]

  Settles-agent :
      (id : Option String)
      → op.status ≡ running
      → Settles op
          (agent_outcome investigations id)
          db
          (reconcile_agent_kind redact investigations now op id)
  Settles-agent none s = Settles-move failed _ (rw s) (rw s)
  Settles-agent (some id) s = Settles-linked id (investigations id) s

  abbrev pub Classifies : OperationStatus → Store (Option Bucket) → Type 0
  Classifies s call =
      (b : Option Bucket) × (db' : Db) × (call db ≡ (ok b, db')) × Settled op s db db'

  Classifies-counted :
      (bucket : Bucket) (s : OperationStatus) (call : Store Bool)
      → Settles op s db call
      → Classifies s (counted bucket call)
  Classifies-counted bucket s call (db', h, settled) = (
    some bucket,
    db',
    >>=-ok call (λ (done : Bool). pure (if done then some bucket else none)) db h,
    settled,
  )

  Classifies-running :
      (kind : OperationKind)
      → op.status ≡ running
      → Classifies
          (running_outcome investigations kind op.investigation_id)
          (classify_running redact investigations now kind op)
  Classifies-running OperationKind.rollback s =
      Classifies-counted Bucket.uncertain_rollbacks uncertain
        (try_transition redact investigations now op uncertain interrupted_summary)
        (Settles-move uncertain interrupted_summary (rw s) (rw s))
  Classifies-running OperationKind.target_test s =
      Classifies-counted Bucket.requeued_target_tests queued
        (try_requeue redact investigations now op) (Settles-requeue s)
  Classifies-running OperationKind.report_generate s =
      Classifies-counted Bucket.requeued_reports queued (try_requeue redact investigations now op)
        (Settles-requeue s)
  Classifies-running OperationKind.agent_message s =
      Classifies-counted Bucket.reconciled_agent_operations
        (agent_outcome investigations op.investigation_id)
        (reconcile_agent_kind redact investigations now op op.investigation_id)
        (Settles-agent op.investigation_id s)
  Classifies-running OperationKind.investigation_start s =
      Classifies-counted Bucket.reconciled_agent_operations
        (agent_outcome investigations op.investigation_id)
        (reconcile_agent_kind redact investigations now op op.investigation_id)
        (Settles-agent op.investigation_id s)

  Classifies-left : (s : OperationStatus) → op.status ≡ s → Classifies s (pure none)
  Classifies-left s h = (
    none,
    db,
    refl,
    record {
      unique = u;
      row = op;
      found = e;
      settled = h;
      kept = λ _. refl;
      others = λ j ne. refl;
    },
  )

  Classifies-at :
      (s : OperationStatus)
      → op.status ≡ s
      → Classifies (recovered_at investigations s op) (classify_at redact investigations now s op)
  Classifies-at cancel_requested s =
      Classifies-counted Bucket.finalised_cancels cancelled
        (try_transition redact investigations now op cancelled finalised_summary)
        (Settles-move cancelled finalised_summary (rw s) (rw s))
  Classifies-at running s = Classifies-running op.kind s
  Classifies-at queued s = Classifies-left queued s
  Classifies-at succeeded s = Classifies-left succeeded s
  Classifies-at failed s = Classifies-left failed s
  Classifies-at cancelled s = Classifies-left cancelled s
  Classifies-at uncertain s = Classifies-left uncertain s

  -- A row that is still as it was read gets the status of the rules, and nothing else moves.
  pub classify_lem :
      Classifies (recovered investigations op) (classify redact investigations now op)
  unfolding classify
  classify_lem = Classifies-at op.status refl

is_left-outcome : (done : Bool) → is_left (outcome done) ≡ true
is_left-outcome true = refl
is_left-outcome false = refl

is_left-linked : (linked : Option Linked) → is_left (linked_outcome linked) ≡ true
is_left-linked none = refl
is_left-linked (some l) =
    elim (Bool-cases (is_terminal investigation_machine (investigation l.status))) [
      | inl t ↦ rw t (is_left-outcome (is_completed l.status))
      | inr t ↦ elim (Bool-cases (non_empty l.runs && all is_terminal_run l.runs)) [
        | inl r ↦ rw (t, r) (is_left-outcome (any is_completed_run l.runs))
        | inr r ↦ rw (t, r)
      ]
    ]

module _ (investigations : String → Option Linked) where
  is_left-agent : (id : Option String) → is_left (agent_outcome investigations id) ≡ true
  is_left-agent none = refl
  is_left-agent (some id) = is_left-linked (investigations id)

  is_left-running :
      (kind : OperationKind) (id : Option String)
      → is_left (running_outcome investigations kind id) ≡ true
  is_left-running OperationKind.agent_message id = is_left-agent id
  is_left-running OperationKind.investigation_start id = is_left-agent id
  is_left-running _ id = refl

  -- The rules leave no row running or cancel-requested.
  pub is_left-recovered :
      (s : OperationStatus) (op : Operation) → is_left (recovered_at investigations s op) ≡ true
  is_left-recovered running op = is_left-running op.kind op.investigation_id
  is_left-recovered _ op = refl
