-- ===== src/Operation/Recovery/Pass.antt =====
-- The loop of `OperationRecovery.recover` of operations/recovery.py over the rows that it read.
use mathlib.Core.Path.{subst}
use mathlib.Core.Option.{some-injective}
use incidentlens.Common.{
  ℕ, ◌+◌, String, ◌≡◌, ◌≢◌, refl, sym, ◌∙◌, true, Option, none, some, inl, inr, arith, List, [],
  ◌∷◌, length, eq_iff, eq_refl, Bool-cases, ok, >>=-ok,
}
use mathlib.Core.Bool.{false≢true}
use incidentlens.Common.Keyed.{string_key, find, has_key, IsUnique}
use incidentlens.Operation.Types.{Operation, Db, operation_key}
use incidentlens.Operation.Recovery.{Linked, Bucket, RecoverySummary, bump, classify, recover_rows}
use incidentlens.Operation.Recovery.Row.{recovered, is_left, Settled, classify_lem}

module _ (investigations : String → Option Linked) where
  -- What became of a row that the pass read as `op`.
  pub record Recovered (op : Operation) (k : String) (db' : Db) : Type 0 where
    pub row : Operation
    pub found : find operation_key k db'.operations ≡ some row
    pub settled : row.status ≡ recovered investigations op
    pub kept : is_left op.status ≡ true → row ≡ op

  pub record Passed (ops : List Operation) (db db' : Db) : Type 0 where
    pub unique : IsUnique operation_key db'.operations
    pub rows :
        (k : String) (op : Operation) → find operation_key k ops ≡ some op → Recovered op k db'
    pub others :
        (k : String)
        → find operation_key k ops ≡ none
        → find operation_key k db'.operations ≡ find operation_key k db.operations

  abbrev next : Option Bucket → RecoverySummary → RecoverySummary
  next b summary = bump b (record summary { scanned = summary.scanned + 1 })

  Passed-cons :
      (op : Operation) (ops : List Operation) (db db1 db' : Db)
      → find operation_key op.operation_id ops ≡ none
      → Settled op (recovered investigations op) db db1
      → Passed ops db1 db'
      → Passed (op ∷ ops) db db'
  Passed-cons op ops db db1 db' fresh st rest = record {
    unique = rest.unique;
    rows = λ k o h. elim (Bool-cases (has_key operation_key k op)) [
      | inl e ↦
          let at : op.operation_id ≡ k = (eq_iff op.operation_id k).0 e in
          let same : op ≡ o = some-injective op o (rw e at h) in
          subst (λ x. Recovered x k db') same
            (record {
              row = st.row;
              found =
                  rest.others k (subst (λ j. find operation_key j ops ≡ none) at fresh)
                  ∙ subst (λ j. find operation_key j db1.operations ≡ some st.row) at st.found;
              settled = st.settled;
              kept = st.kept;
            })
      | inr e ↦ rest.rows k o (rw e at h)
    ];
    others = λ k h. elim (Bool-cases (has_key operation_key k op)) [
      | inl e ↦ absurd (cc (rw e at h))
      | inr e ↦
          rest.others k (rw e at h)
          ∙ st.others k (λ p. false≢true (sym e ∙ (eq_iff op.operation_id k).1 (sym p)))
    ];
  }

  scanned-bump : (b : Option Bucket) (s : RecoverySummary) → (bump b s).scanned ≡ s.scanned
  scanned-bump none s = refl
  scanned-bump (some Bucket.uncertain_rollbacks) s = refl
  scanned-bump (some _) s = refl

  module _ (redact : ℕ → String → String) (now : ℕ) where
    -- The rows of `ops` are still in the tables as they were read.
    abbrev pub IsFresh : List Operation → Db → Type 0
    IsFresh ops db =
        (k : String) (op : Operation)
        → find operation_key k ops ≡ some op
        → find operation_key k db.operations ≡ some op

    fresh_head :
        (op : Operation) (ops : List Operation) (db : Db)
        → IsFresh (op ∷ ops) db
        → find operation_key op.operation_id db.operations ≡ some op
    fresh_head op ops db f = f op.operation_id op (rw (eq_refl op.operation_id))

    IsFresh-tail :
        (op : Operation) (ops : List Operation) (db db1 : Db)
        → find operation_key op.operation_id ops ≡ none
        → IsFresh (op ∷ ops) db
        → Settled op (recovered investigations op) db db1
        → IsFresh ops db1
    IsFresh-tail op ops db db1 absent f st k o h =
        let other : k ≢ op.operation_id =
          λ p. cc (h, subst (λ j. find operation_key j ops ≡ none) (sym p) absent) in
        st.others k other
        ∙ f k o (elim (Bool-cases (has_key operation_key k op)) [
          | inl e ↦ absurd (other (sym ((eq_iff op.operation_id k).0 e)))
          | inr e ↦ rw e h
        ])

    pub recover_rows_lem :
        (ops : List Operation) (summary : RecoverySummary) (db : Db)
        → IsUnique operation_key ops
        → IsUnique operation_key db.operations
        → IsFresh ops db
        → (s : RecoverySummary) × (db' : Db) × (recover_rows redact investigations now summary ops
              db
            ≡ (ok s, db'))
          × (s.scanned ≡ summary.scanned + length ops)
          × Passed ops db db'
    unfolding recover_rows
    recover_rows_lem [] summary db w u f = (
      summary,
      db,
      refl,
      omega arith,
      record { unique = u; rows = λ k op h. absurd (cc); others = λ k h. refl },
    )
    recover_rows_lem (op ∷ ops) summary db w u f =
        let (b, db1, h, st) =
          classify_lem redact investigations now op db u (fresh_head op ops db f) in
        let (s, db', h', n, passed) =
          recover_rows_lem ops (next b summary) db1 w.1 st.unique
            (IsFresh-tail op ops db db1 w.0 f st) in
        (
          s,
          db',
          >>=-ok (classify redact investigations now op)
                (λ (d : Option Bucket). recover_rows redact investigations now (next d summary) ops)
                db h
              ∙ h',
          omega (arith, n, scanned-bump b (record summary { scanned = summary.scanned + 1 })),
          Passed-cons op ops db db1 db' w.0 st passed,
        )
