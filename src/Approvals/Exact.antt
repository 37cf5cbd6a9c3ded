-- ===== src/Approvals/Exact.antt =====
-- `consume` of approvals/service.py uses an approval for the intent that was approved.
use incidentlens.Common.{
  ℕ, String, ◌<◌, true, ◌&&◌, Option, none, some, some_inj, List, ltb, str_eq, eq_iff, Result, ok,
  err, ◌≡◌, refl, sym, ap, ◌∙◌, arith, Bool-cases, Option-cases, inl, inr, ◌>>=◌,
}
use incidentlens.Common.Keyed.{string_key, find, IsUnique, rowcount-find}
use incidentlens.Operation.Json.{Fields}
use incidentlens.Approvals.Types.{ApprovalStatus, ApprovalRecord, ApprovalError, Db, consumed}
use incidentlens.Approvals.Store.{approval_key, get, record_from_row, read_row, is_none}
use incidentlens.Approvals.Decisions.{consume, is_consumable, is_approved}
use incidentlens.Approvals.Service.{service_consume, consume_found, emit_some}

-- What `consume` of the store returns, where it does.
consume_ok :
    (j : String) (now : ℕ) (rows : List ApprovalRecord) {result : Option ApprovalRecord}
    → IsUnique approval_key rows
    → (consume j now rows).0 ≡ ok result
    → (row : ApprovalRecord) × (find approval_key j rows ≡ some row)
      × (is_consumable now row ≡ true)
unfolding consume
consume_ok j now rows u h = elim (Option-cases (find approval_key j rows)) [
  | inl e ↦ absurd (cc (rw (rowcount-find approval_key j (is_consumable now) rows u, e) at h))
  | inr (r, e) ↦ elim (Bool-cases (is_consumable now r)) [
    | inl c ↦ (r, e, c)
    | inr c ↦ absurd (cc (rw (rowcount-find approval_key j (is_consumable now) rows u, e, c) at h))
  ]
]

-- What makes a row consumable.
consumable :
    (s : ApprovalStatus) (used : Option ℕ) (expires now : ℕ)
    → (is_approved s && is_none used && ltb now expires) ≡ true
    → (s ≡ ApprovalStatus.approved) × (used ≡ none) × (now < expires)
consumable ApprovalStatus.pending used expires now h = absurd (cc h)
consumable ApprovalStatus.approved none expires now h = (refl, refl, ground arith)
consumable ApprovalStatus.approved (some t) expires now h = absurd (cc h)
consumable ApprovalStatus.rejected used expires now h = absurd (cc h)
consumable ApprovalStatus.consumed used expires now h = absurd (cc h)

stored_ok :
    (now : ℕ) (o : Result ApprovalError (Option ApprovalRecord) × List ApprovalRecord) (db : Db)
    {result : Option ApprovalRecord} {after : Db}
    → ((λ (d : Db). (o.0, record d { approvals = o.1 })) >>= emit_some consumed now) db
      ≡ (ok result, after)
    → (r : Option ApprovalRecord) × (o.0 ≡ ok r)
stored_ok now (ok r, rows) db h = (r, refl)
stored_ok now (err e, rows) db h = absurd (cc h)

module _ (sha256 : Fields → String) where
  found_ok :
      (j : String) (intent : Fields) (now : ℕ) (db : Db) (found : Option ApprovalRecord)
      {result : Option ApprovalRecord} {after : Db}
      → consume_found sha256 j intent now found db ≡ (ok result, after)
      → (existing : ApprovalRecord) × (found ≡ some existing)
        × (sha256 intent ≡ existing.intent_sha256)
        × ((r : Option ApprovalRecord) × ((consume j now db.approvals).0 ≡ ok r))
  found_ok j intent now db none h = absurd (cc h)
  found_ok j intent now db (some existing) h =
      elim (Bool-cases (str_eq (sha256 intent) existing.intent_sha256)) [
        | inr e ↦ absurd (cc (rw e at h))
        | inl e ↦ (
          existing,
          refl,
          (eq_iff (sha256 intent) existing.intent_sha256).0 e,
          stored_ok now (consume j now db.approvals) db (rw e at h),
        )
      ]

  read_row-some :
      (found : Option ApprovalRecord) {existing : ApprovalRecord}
      → read_row found ≡ some existing
      → (row : ApprovalRecord) × (found ≡ some row) × (existing.intent_sha256 ≡ row.intent_sha256)
  unfolding record_from_row
  read_row-some none h = absurd (cc h)
  read_row-some (some row) h =
      (row, refl, ap (λ (r : ApprovalRecord). r.intent_sha256) (sym (some_inj.0 h)))

  -- Where the service's `consume` returns, over a table with unique ids: the row of the id is
  -- approved, not used and not expired, and the hash of the intent that is about to run is the
  -- hash of the intent that was approved.
  pub service_consume-IsExact :
      (approval_id : String) (intent : Fields) (now : ℕ) (db : Db) {result : Option ApprovalRecord}
      {after : Db}
      → IsUnique approval_key db.approvals
      → service_consume sha256 approval_id intent now db ≡ (ok result, after)
      → (row : ApprovalRecord) × (find approval_key approval_id db.approvals ≡ some row)
        × (sha256 intent ≡ row.intent_sha256)
        × (row.status ≡ ApprovalStatus.approved)
        × (row.consumed_at ≡ none)
        × (now < row.expires_at)
  unfolding service_consume get
  service_consume-IsExact approval_id intent now db u h =
      let (existing, e, same, (r, c)) =
        found_ok approval_id intent now db (get approval_id db.approvals) h in
      let (row, found, hash) = read_row-some (find approval_key approval_id db.approvals) e in
      let (used, found_used, can) = consume_ok approval_id now db.approvals u c in
      let parts = consumable used.status used.consumed_at used.expires_at now can in
      let alike : used ≡ row = some_inj.0 (sym found_used ∙ found) in
      (
        used,
        found_used,
        same ∙ hash ∙ ap (λ (r : ApprovalRecord). r.intent_sha256) (sym alike),
        parts.0,
        parts.1,
        parts.2,
      )
