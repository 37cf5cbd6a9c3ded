-- ===== src/Approvals/Moves.antt =====
-- What the UPDATE statements of approvals/store.py do to the life of an approval.
use incidentlens.Common.{
  ℕ, String, Bool, true, false, ◌&&◌, ◌||◌, Option, none, some, List, if◌then◌else◌, ltb, str_eq,
  eq_iff, ◌≡◌, refl, sym, ◌∙◌, arith, Bool-cases, Option-cases, inl, inr,
}
use incidentlens.Common.Sql.{update_where}
use incidentlens.Common.Keyed.{string_key, has_key, find, find-update, find-key}
use incidentlens.Approvals.Types.{ApprovalStatus, ApprovalDownstreamStatus, ApprovalRecord}
use incidentlens.Approvals.Store.{approval_key, is_none}
use incidentlens.Approvals.Decisions.{
  Decision, is_decidable, set_decided, set_downstream, set_consumed, is_consumable, is_pending,
  is_approved,
}
use incidentlens.Approvals.Token.{
  Token, absent, rejected, consumed, approved, token_at, token_found, Call, approves, rejects,
  consumes, id_of, accepts, next, step, IsFormed, is_consumed,
}

-- A conditional `UPDATE` of the id `j`, seen through the id `i`.
abbrev pub updated :
    String
    → String
    → (ApprovalRecord → Bool)
    → (ApprovalRecord → ApprovalRecord)
    → Option ApprovalRecord
    → Option ApprovalRecord
updated i j c f none = none
updated i j c f (some r) = some (if str_eq j i && c r then f r else r)

pub find-updated :
    (i j : String) (c : ApprovalRecord → Bool) (f : ApprovalRecord → ApprovalRecord)
    (rows : List ApprovalRecord)
    → ((r : ApprovalRecord) → (f r).approval_id ≡ r.approval_id)
    → find approval_key i (update_where (λ r. has_key approval_key j r && c r) f rows)
      ≡ updated i j c f (find approval_key i rows)
find-updated i j c f rows keeps = elim (Option-cases (find approval_key i rows)) [
  | inl e ↦
      rw (find-update approval_key i (λ r. has_key approval_key j r && c r) f rows keeps, e) refl
  | inr (r, e) ↦
      rw (find-update approval_key i (λ r. has_key approval_key j r && c r) f rows keeps, e)
        (ground (arith, eq_iff r.approval_id j, eq_iff j i, find-key approval_key i rows {r = r} e))
]

-- The token of the updated row.
pub token-updated :
    (i j : String) (c : ApprovalRecord → Bool) (f : ApprovalRecord → ApprovalRecord)
    (t : Token → Token) (found : Option ApprovalRecord)
    → ((r : ApprovalRecord)
        → found ≡ some r
        → token_found (some (if c r then f r else r)) ≡ t (token_found (some r)))
    → (str_eq j i ≡ true → t absent ≡ absent)
    → token_found (updated i j c f found)
      ≡ (if str_eq j i then t (token_found found) else token_found found)
token-updated i j c f t none at_row at_none = elim (Bool-cases (str_eq j i)) [
  | inl e ↦ rw e (sym (at_none e))
  | inr e ↦ rw e refl
]
token-updated i j c f t (some r) at_row at_none = elim (Bool-cases (str_eq j i)) [
  | inl e ↦ rw e (at_row r refl)
  | inr e ↦ rw e refl
]

-- What a call makes of the token of its own id.
abbrev pub own : Call → Token → Token
own call token = if accepts call token then next call token else token

pub step-own :
    (i : String) (call : Call) (token : Token)
    → step i call token ≡ (if str_eq (id_of call) i then own call token else token)
step-own i call token = ground arith

pub token-if :
    (b : Bool) (x r : ApprovalRecord)
    → token_found (some (if b then x else r))
      ≡ (if b then token_found (some x) else token_found (some r))
token-if true x r = refl
token-if false x r = refl

pub consume_at :
    (j : String) (s : ApprovalStatus) (used : Option ℕ) (expires now : ℕ)
    → (is_consumed s || is_none used) ≡ true
    → (if is_approved s && is_none used && ltb now expires then consumed else token_at s expires)
      ≡ own (consumes j now) (token_at s expires)
consume_at j ApprovalStatus.pending used expires now h = refl
consume_at j ApprovalStatus.approved used expires now h = ground arith
consume_at j ApprovalStatus.rejected used expires now h = refl
consume_at j ApprovalStatus.consumed used expires now h = refl

pub consume_token :
    (j : String) (now : ℕ) (r : ApprovalRecord)
    → IsFormed r
    → token_found (some (if is_consumable now r then set_consumed now r else r))
      ≡ own (consumes j now) (token_found (some r))
unfolding set_consumed
consume_token j now r h =
    token-if (is_consumable now r) (set_consumed now r) r
    ∙ consume_at j r.status r.consumed_at r.expires_at now h

pub mark_token :
    (status : ApprovalDownstreamStatus) (code : Option String) (now : ℕ) (r : ApprovalRecord)
    → token_found (some (set_downstream status code now r)) ≡ token_found (some r)
unfolding set_downstream
mark_token status code now r = refl

pub approve_at :
    (j : String) (s : ApprovalStatus) (expires now : ℕ) (decision : Decision)
    → ((if is_pending s && ltb now expires then approved expires else token_at s expires)
        ≡ own (approves j now decision) (token_at s expires))
      × ((if is_pending s && ltb now expires then rejected else token_at s expires)
          ≡ own (rejects j now decision) (token_at s expires))
approve_at j ApprovalStatus.pending expires now decision = (refl, refl)
approve_at j ApprovalStatus.approved expires now decision = (refl, refl)
approve_at j ApprovalStatus.rejected expires now decision = (refl, refl)
approve_at j ApprovalStatus.consumed expires now decision = (refl, refl)

pub decide_token :
    (j : String) (now : ℕ) (decision : Decision) (r : ApprovalRecord)
    → (token_found (
          some
            (if is_decidable now r then set_decided ApprovalStatus.approved now decision r else r))
        ≡ own (approves j now decision) (token_found (some r)))
      × (token_found (
            some (
              if is_decidable now r then set_decided ApprovalStatus.rejected now decision r else r))
          ≡ own (rejects j now decision) (token_found (some r)))
unfolding set_decided
decide_token j now decision r =
    let cases = approve_at j r.status r.expires_at now decision in
    (
      token-if (is_decidable now r) (set_decided ApprovalStatus.approved now decision r) r
          ∙ cases.0,
      token-if (is_decidable now r) (set_decided ApprovalStatus.rejected now decision r) r
          ∙ cases.1,
    )
