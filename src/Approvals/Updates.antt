-- ===== src/Approvals/Updates.antt =====
-- What decide and consume of approvals/store.py do to their table and to the life of an approval.
use incidentlens.Common.{
  ℕ, String, Bool, true, false, ◌&&◌, ◌||◌, not, Option, none, some, List, if◌then◌else◌, ltb, leb,
  ◌==◌, str_eq, ◌≡◌, refl, ap, ◌∙◌, arith, Bool-cases, inl, inr, ◌>>◌,
}
use incidentlens.Common.Sql.{update_where}
use incidentlens.Common.Keyed.{string_key, has_key, find, IsUnique, rowcount-find, count_if}
use incidentlens.Approvals.Types.{ApprovalStatus, ApprovalRecord}
use incidentlens.Approvals.Store.{Store, approval_key, is_none}
use incidentlens.Approvals.Decisions.{
  Decision, consume, decide, check_decidable, write_decision, check_row, is_decidable, set_decided,
  set_consumed, is_consumable, is_pending, is_approved,
}
use incidentlens.Approvals.Token.{
  Token, absent, token_at, token_found, token_of, approves, rejects, consumes, of_call, accepts,
  IsFormed, is_consumed,
}
use incidentlens.Approvals.Moves.{find-updated, token-updated}

-- The row of the id is there and meets the condition.
abbrev pub meets : (ApprovalRecord → Bool) → Option ApprovalRecord → Bool
meets c none = false
meets c (some r) = c r

pub count-meets :
    (c : ApprovalRecord → Bool) (found : Option ApprovalRecord)
    → (count_if c found == 0) ≡ not (meets c found)
count-meets c none = refl
count-meets c (some r) = ground arith

write_decision_lem :
    (j : String) (target : ApprovalStatus) (now : ℕ) (decision : Decision)
    (rows : List ApprovalRecord)
    → IsUnique approval_key rows
    → meets (is_decidable now) (find approval_key j rows) ≡ true
    → of_call (write_decision j target now decision rows) ≡ (
      true,
      update_where
          (λ r. has_key approval_key j r && is_decidable now r)
          (set_decided target now decision)
          rows,
    )
unfolding write_decision
write_decision_lem j target now decision rows u h =
    rw
      (
        rowcount-find approval_key j (is_decidable now) rows u,
        count-meets (is_decidable now) (find approval_key j rows),
        h,
      )
      refl

checked :
    (now : ℕ) (found : Option ApprovalRecord) (k : Store (Option ApprovalRecord))
    (rows : List ApprovalRecord)
    → of_call (((λ db. (check_row found now, db)) >> k) rows)
      ≡ (if meets (is_decidable now) found then of_call (k rows) else (false, rows))
checked now none k rows = refl
checked now (some r) k rows = elim (Bool-cases (is_pending r.status)) [
  | inr p ↦ rw p refl
  | inl p ↦ elim (Bool-cases (leb r.expires_at now)) [
    | inl q ↦ let late : ltb now r.expires_at ≡ false = ground (arith, q) in rw (p, q, late) refl
    | inr q ↦ let soon : ltb now r.expires_at ≡ true = ground (arith, q) in rw (p, q, soon) refl
  ]
]

-- Whether a call returned, with the rows that it wrote, or was given.
abbrev pub branch : Bool → List ApprovalRecord → List ApprovalRecord → Bool × List ApprovalRecord
branch true written rows = (true, written)
branch false written rows = (false, rows)

-- What `_decide` does, by the row that it finds.
pub decide_lem :
    (j : String) (target : ApprovalStatus) (now : ℕ) (decision : Decision)
    (rows : List ApprovalRecord)
    → IsUnique approval_key rows
    → of_call (decide j target now decision rows)
      ≡ branch
          (meets (is_decidable now) (find approval_key j rows))
          (update_where
            (λ r. has_key approval_key j r && is_decidable now r)
            (set_decided target now decision)
            rows)
          rows
unfolding decide check_decidable
decide_lem j target now decision rows u =
    checked now (find approval_key j rows) (write_decision j target now decision) rows
    ∙ at_meets (meets (is_decidable now) (find approval_key j rows)) refl
  where
    at_meets :
        (b : Bool)
        → meets (is_decidable now) (find approval_key j rows) ≡ b
        → (if b then of_call (write_decision j target now decision rows) else (false, rows))
          ≡ branch b
              (update_where
                (λ r. has_key approval_key j r && is_decidable now r)
                (set_decided target now decision)
                rows)
              rows
    at_meets true h = write_decision_lem j target now decision rows u h
    at_meets false h = refl

pub consume_lem :
    (j : String) (now : ℕ) (rows : List ApprovalRecord)
    → IsUnique approval_key rows
    → of_call (consume j now rows) ≡ (
      meets (is_consumable now) (find approval_key j rows),
      update_where (λ r. has_key approval_key j r && is_consumable now r) (set_consumed now) rows,
    )
unfolding consume
consume_lem j now rows u =
    elim (Bool-cases (meets (is_consumable now) (find approval_key j rows))) [
      | inl e ↦
          rw
            (
              rowcount-find approval_key j (is_consumable now) rows u,
              count-meets (is_consumable now) (find approval_key j rows),
              e,
            )
            refl
      | inr e ↦
          rw
            (
              rowcount-find approval_key j (is_consumable now) rows u,
              count-meets (is_consumable now) (find approval_key j rows),
              e,
            )
            refl
    ]

-- A conditional `UPDATE`, seen through the tokens.
pub update_token :
    (i j : String) (c : ApprovalRecord → Bool) (f : ApprovalRecord → ApprovalRecord)
    (t : Token → Token) (rows : List ApprovalRecord)
    → ((r : ApprovalRecord) → (f r).approval_id ≡ r.approval_id)
    → ((r : ApprovalRecord)
        → find approval_key i rows ≡ some r
        → token_found (some (if c r then f r else r)) ≡ t (token_found (some r)))
    → t absent ≡ absent
    → token_of i (update_where (λ r. has_key approval_key j r && c r) f rows)
      ≡ (if str_eq j i then t (token_of i rows) else token_of i rows)
update_token i j c f t rows keeps at_row at_none =
    ap token_found (find-updated i j c f rows keeps)
    ∙ token-updated i j c f t (find approval_key i rows) at_row (λ e. at_none)

pub accepts_decision :
    (j : String) (now : ℕ) (decision : Decision) (found : Option ApprovalRecord)
    → (accepts (approves j now decision) (token_found found) ≡ meets (is_decidable now) found)
      × (accepts (rejects j now decision) (token_found found) ≡ meets (is_decidable now) found)
accepts_decision j now decision none = (refl, refl)
accepts_decision j now decision (some r) = at_status r.status r.expires_at
  where
    at_status :
        (s : ApprovalStatus) (e : ℕ)
        → (accepts (approves j now decision) (token_at s e) ≡ (is_pending s && ltb now e))
          × (accepts (rejects j now decision) (token_at s e) ≡ (is_pending s && ltb now e))
    at_status ApprovalStatus.pending e = (refl, refl)
    at_status ApprovalStatus.approved e = (refl, refl)
    at_status ApprovalStatus.rejected e = (refl, refl)
    at_status ApprovalStatus.consumed e = (refl, refl)

pub accepts_consume :
    (j : String) (now : ℕ) (found : Option ApprovalRecord)
    → ((r : ApprovalRecord) → found ≡ some r → IsFormed r)
    → accepts (consumes j now) (token_found found) ≡ meets (is_consumable now) found
accepts_consume j now none h = refl
accepts_consume j now (some r) h = at_status r.status r.consumed_at r.expires_at (h r refl)
  where
    at_status :
        (s : ApprovalStatus) (used : Option ℕ) (e : ℕ)
        → (is_consumed s || is_none used) ≡ true
        → accepts (consumes j now) (token_at s e) ≡ (is_approved s && is_none used && ltb now e)
    at_status ApprovalStatus.pending used e h = refl
    at_status ApprovalStatus.approved used e h = ground arith
    at_status ApprovalStatus.rejected used e h = refl
    at_status ApprovalStatus.consumed used e h = refl
