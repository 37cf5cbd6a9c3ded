-- ===== src/Operation/Recovery/Settles.antt =====
-- What `OperationRecovery.recover` of operations/recovery.py makes of the operations that a restart
-- has left.
use mathlib.Core.Path.{subst}
use incidentlens.Common.{
  ℕ, String, ◌≡◌, refl, sym, ap, ◌∙◌, Bool, false, Option, none, some, inl, inr, arith, length, not,
  Bool-cases, Option-cases, Result, ok,
}
use incidentlens.Common.Keyed.{string_key, find, IsUnique}
use incidentlens.Common.Ordered.{
  keep_if, find-filter, IsUnique-filter, find-order_by, IsUnique-order_by,
}
use incidentlens.Machine.Status.{OperationStatus}
use incidentlens.Operation.Types.{Operation, OperationError, Db, operation_key}
use incidentlens.Operation.Store.{in_terminal, list_non_terminal}
use incidentlens.Operation.Recovery.{Linked, RecoverySummary, recover, no_summary}
use incidentlens.Operation.Recovery.Row.{recovered_at}
use incidentlens.Operation.Recovery.Pass.{Recovered, Passed, IsFresh, recover_rows_lem}

abbrev pub is_open : Operation → Bool
is_open op = not (in_terminal op.status)

pub find-list_non_terminal :
    (k : String) (db : Db)
    → IsUnique operation_key db.operations
    → find operation_key k (list_non_terminal db)
      ≡ keep_if is_open (find operation_key k db.operations)
unfolding list_non_terminal
find-list_non_terminal k db u =
    find-order_by operation_key (λ op. op.created_at) k _
      (IsUnique-filter operation_key is_open db.operations u)
    ∙ find-filter operation_key k is_open db.operations u

pub IsUnique-list_non_terminal :
    (db : Db) → IsUnique operation_key db.operations → IsUnique operation_key (list_non_terminal db)
unfolding list_non_terminal
IsUnique-list_non_terminal db u =
    IsUnique-order_by operation_key (λ op. op.created_at) _
      (IsUnique-filter operation_key is_open db.operations u)

terminal_recovered :
    (investigations : String → Option Linked) (s : OperationStatus) (op : Operation)
    → not (in_terminal s) ≡ false
    → s ≡ recovered_at investigations s op
terminal_recovered investigations OperationStatus.queued op h = cc
terminal_recovered investigations OperationStatus.running op h = cc
terminal_recovered investigations OperationStatus.cancel_requested op h = cc
terminal_recovered investigations _ op h = refl

-- What a pass of recovery has done to the tables `db`.
pub record Settlement (investigations : String → Option Linked) (db : Db)
    (o : Result OperationError RecoverySummary × Db) : Type 0 where
  pub summary : RecoverySummary
  pub returned : o.0 ≡ ok summary
  pub scanned : summary.scanned ≡ length (list_non_terminal db)
  pub unique : IsUnique operation_key o.1.operations
  pub rows :
      (k : String) (op : Operation)
      → find operation_key k db.operations ≡ some op
      → Recovered investigations op k o.1
  pub absent :
      (k : String)
      → find operation_key k db.operations ≡ none
      → find operation_key k o.1.operations ≡ none

module _ (redact : ℕ → String → String) (investigations : String → Option Linked) (now : ℕ)
    (db : Db) (u : IsUnique operation_key db.operations) where
  read-IsFresh : IsFresh investigations redact now (list_non_terminal db) db
  read-IsFresh k op h = elim (Option-cases (find operation_key k db.operations)) [
    | inl e ↦ absurd (cc (h, find-list_non_terminal k db u, ap (keep_if is_open) e))
    | inr (row, e) ↦ e ∙ ground (arith, h, find-list_non_terminal k db u, ap (keep_if is_open) e)
  ]

  rows_of :
      (db' : Db)
      → Passed investigations (list_non_terminal db) db db'
      → (k : String) (op : Operation) → find operation_key k db.operations ≡ some op
      → Recovered investigations op k db'
  rows_of db' passed k op e =
      let listed = find-list_non_terminal k db u ∙ ap (keep_if is_open) e in
      elim (Bool-cases (is_open op)) [
        | inl h ↦ passed.rows k op (listed ∙ rw h)
        | inr h ↦ record {
          row = op;
          found = passed.others k (listed ∙ rw h) ∙ e;
          settled = terminal_recovered investigations op.status op h;
          kept = λ _. refl;
        }
      ]

  -- Recovery over any tables with unique ids returns a summary, whose count is that of the rows it
  -- read; each row gets the status of the per-kind rules; a queued or terminal row is the very same
  -- row; no row appears.
  pub recover_lem : Settlement investigations db (recover redact investigations now db)
  unfolding recover
  recover_lem =
      let (s, db', h, n, passed) =
        recover_rows_lem investigations redact now (list_non_terminal db) no_summary db
          (IsUnique-list_non_terminal db u) u read-IsFresh in
      subst (Settlement investigations db) (sym h) (record {
        summary = s;
        returned = refl;
        scanned = omega (arith, n);
        unique = passed.unique;
        rows = rows_of db' passed;
        absent =
            λ k e. passed.others k (find-list_non_terminal k db u ∙ ap (keep_if is_open) e) ∙ e;
      })
