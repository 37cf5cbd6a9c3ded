-- ===== src/Dispatcher/Sweep.antt =====
-- `_sweep_running` of operations/dispatcher.py: what a shutdown leaves.

use mathlib.Core.Path.{subst}
use mathlib.Core.Option.{some-injective}
use mathlib.Core.Bool.{false≢true}
use incidentlens.Common.{
  ℕ, String, ◌≡◌, ◌≢◌, refl, sym, ap, ◌∙◌, Bool, false, none, some, List, [], ◌∷◌, inl, inr,
  Bool-cases, Result, >>=-ok, All, All-mono, eq_iff, not,
}
use incidentlens.Common.Keyed.{string_key, find, has_key, IsUnique}
use incidentlens.Machine.Status.{OperationStatus}
use incidentlens.Operation.Types.{Operation, OperationKind, OperationError, Db, operation_key}
use incidentlens.Operation.Store.{list_non_terminal, in_terminal}
use incidentlens.Operation.Recovery.Settles.{
  find-list_non_terminal, IsUnique-list_non_terminal, is_open,
}
use incidentlens.Common.Ordered.{All-order_by, All-filter, rows_found}
use incidentlens.Dispatcher.Finish.{sweep_at, sweep_rows, sweep_running}
use incidentlens.Dispatcher.Ends.{Leaves}
use incidentlens.Dispatcher.Step.{swept, Step, sweep_at-Step}

abbrev IsFound : Db → Operation → Type 0
IsFound db op = find operation_key op.operation_id db.operations ≡ some op

not_key : (k : String) (op : Operation) → has_key operation_key k op ≡ false → k ≢ op.operation_id
not_key k op h p = false≢true (sym h ∙ (eq_iff op.operation_id k).1 (sym p))

-- The rows that are still to be swept are as they were read.
still-IsFound :
    (op : Operation) (db db1 : Db) (ops : List Operation)
    → ((j : String)
        → j ≢ op.operation_id
        → find operation_key j db1.operations ≡ find operation_key j db.operations)
    → find operation_key op.operation_id ops ≡ none
    → All (IsFound db) ops
    → All (IsFound db1) ops
still-IsFound op db db1 [] others h a = tt
still-IsFound op db db1 (o ∷ ops) others h a =
    elim (Bool-cases (has_key operation_key op.operation_id o)) [
      | inl q ↦ absurd (cc (rw q at h))
      | inr q ↦ (
        others o.operation_id (λ p. not_key op.operation_id o q (sym p)) ∙ a.0,
        still-IsFound op db db1 ops others (rw q at h) a.1,
      )
    ]

-- What the loop has made of the rows that were read.
record Swept (ops : List Operation) (db db' : Db) : Type 0 where
  rows :
      (k : String) (op : Operation)
      → find operation_key k ops ≡ some op
      → Leaves k (swept op.status op.kind) db'
  others :
      (k : String)
      → find operation_key k ops ≡ none
      → find operation_key k db'.operations ≡ find operation_key k db.operations

Swept-cons :
    (op : Operation) (ops : List Operation) (db : Db) (o : Result OperationError Bool × Db)
    (db' : Db)
    → find operation_key op.operation_id ops ≡ none
    → Step op (swept op.status op.kind) db o
    → Swept ops o.1 db'
    → Swept (op ∷ ops) db db'
Swept-cons op ops db o db' fresh st rest = record {
  rows = λ k x h. elim (Bool-cases (has_key operation_key k op)) [
    | inl q ↦
        let at : op.operation_id ≡ k = (eq_iff op.operation_id k).0 q in
        let same : op ≡ x = some-injective op x (rw q at h) in
        subst (λ y. Leaves k (swept y.status y.kind) db') same
          (subst (λ j. Leaves j (swept op.status op.kind) db') at
            (record {
              row = st.leaves.row;
              found = rest.others op.operation_id fresh ∙ st.leaves.found;
              status = st.leaves.status;
            }))
    | inr q ↦ rest.rows k x (rw q at h)
  ];
  others = λ k h. elim (Bool-cases (has_key operation_key k op)) [
    | inl q ↦ absurd (cc (rw q at h))
    | inr q ↦ rest.others k (rw q at h) ∙ st.others k (not_key k op q)
  ];
}

module _ (redact : ℕ → String → String) (describe : OperationError → String) (now : ℕ) where
  sweep_rows-Swept :
      (ops : List Operation) (db : Db)
      → IsUnique operation_key db.operations
      → IsUnique operation_key ops
      → All (IsFound db) ops
      → Swept ops db (sweep_rows redact describe now ops db).1
  unfolding sweep_rows
  sweep_rows-Swept [] db u v a = record { rows = λ k op h. absurd (cc h); others = λ k h. refl }
  sweep_rows-Swept (op ∷ ops) db u v a =
      let o : Result OperationError Bool × Db =
        sweep_at redact describe now op.status op.kind op db in
      let st = sweep_at-Step redact describe now op db u a.0 op.status op.kind refl in
      let step =
        >>=-ok (sweep_at redact describe now op.status op.kind op)
          (λ (_ : Bool). sweep_rows redact describe now ops) db {s' = o.1} {a = st.done}
          (ap (λ (r : Result OperationError Bool). (r, o.1)) st.returned) in
      subst (λ (x : Result OperationError Bool × Db). Swept (op ∷ ops) db x.1) (sym step)
        (Swept-cons op ops db o _ v.0 st
          (sweep_rows-Swept ops o.1 st.unique v.1 (still-IsFound op db o.1 ops st.others v.0 a.1)))

  open-IsFound :
      (db : Db) → IsUnique operation_key db.operations → All (IsFound db) (list_non_terminal db)
  unfolding list_non_terminal
  open-IsFound db u =
      All-order_by (IsFound db) (λ op. op.created_at) _
        (All-mono _ (IsFound db) _ (λ op h. h.0)
          (All-filter (IsFound db) is_open db.operations
            (rows_found operation_key db.operations u)))

  terminal_swept :
      (s : OperationStatus) (kind : OperationKind) → not (in_terminal s) ≡ false → s ≡ swept s kind
  terminal_swept OperationStatus.queued kind h = refl
  terminal_swept OperationStatus.running kind h = absurd (false≢true (sym h))
  terminal_swept _ kind h = refl

  -- After the sweep of a shutdown, over a table with unique ids, a rollback that was running is
  -- uncertain, any other running operation is queued again, and every other row has its status.
  pub sweep_running_lem :
      (db : Db) (k : String) (op : Operation)
      → IsUnique operation_key db.operations
      → find operation_key k db.operations ≡ some op
      → Leaves k (swept op.status op.kind) (sweep_running redact describe now db).1
  unfolding sweep_running
  sweep_running_lem db k op u e =
      let all =
        sweep_rows-Swept (list_non_terminal db) db u (IsUnique-list_non_terminal db u)
          (open-IsFound db u) in
      elim (Bool-cases (is_open op)) [
        | inl o ↦ all.rows k op (find-list_non_terminal k db u ∙ rw (e, o) refl)
        | inr o ↦ record {
          row = op;
          found = all.others k (find-list_non_terminal k db u ∙ rw (e, o) refl) ∙ e;
          status = terminal_swept op.status op.kind o;
        }
      ]
