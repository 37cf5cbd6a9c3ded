-- ===== src/Approvals/Decisions.antt =====
-- What class ApprovalStore of approvals/store.py does to a request that is there.
use incidentlens.Common.{
  ℕ, String, Bool, true, false, ◌&&◌, not, Option, none, some, if◌then◌else◌, leb, ltb, ◌==◌,
  Result, ok, err, ◌>>◌,
}
use incidentlens.Common.Sql.{update_where, rowcount}
use incidentlens.Common.Keyed.{string_key, has_key, find}
use incidentlens.Approvals.Types.{
  ApprovalStatus, ApprovalDownstreamStatus, ApprovalRecord, ApprovalError, approval_not_found,
  approval_expired, approval_already_decided, approval_unavailable,
}
use incidentlens.Approvals.Store.{Store, approval_key, get, is_none}

-- Who decided, why, and by which call.
pub record Decision : Type 0 where
  pub actor : Option String
  pub reason : Option String
  pub route_key : Option String
  pub idempotency_key : Option String
  pub request_sha256 : Option String

abbrev pub is_pending : ApprovalStatus → Bool
is_pending ApprovalStatus.pending = true
is_pending _ = false

abbrev pub is_approved : ApprovalStatus → Bool
is_approved ApprovalStatus.approved = true
is_approved _ = false

-- The checks on the row that was read, `now >= expires_at` among them.
abbrev pub check_row : Option ApprovalRecord → ℕ → Result ApprovalError (Unit {0})
check_row none now = err approval_not_found
check_row (some r) now =
    if not (is_pending r.status)
    then err approval_already_decided
    else if leb r.expires_at now
    then err approval_expired
    else ok tt

-- The reads of `_decide` before its `UPDATE`.
unfoldable pub check_decidable : String → ℕ → Store (Unit {0})
check_decidable approval_id now rows = (check_row (find approval_key approval_id rows) now, rows)

abbrev pub is_decidable : ℕ → ApprovalRecord → Bool
is_decidable now r = is_pending r.status && ltb now r.expires_at

unfoldable pub set_decided : ApprovalStatus → ℕ → Decision → ApprovalRecord → ApprovalRecord
set_decided target now decision r = record r {
  status = target;
  decided_at = some now;
  decision_actor = decision.actor;
  decision_reason = decision.reason;
  decision_route_key = decision.route_key;
  decision_idempotency_key = decision.idempotency_key;
  decision_request_sha256 = decision.request_sha256;
  downstream_error_code = none;
}

-- The error for an `UPDATE` that found no row.
abbrev refused : Option ApprovalRecord → ApprovalError
refused none = approval_not_found
refused (some r) = if not (is_pending r.status) then approval_already_decided else approval_expired

-- The `UPDATE` of `_decide` and what follows it; `get` after it reads the row that was written.
unfoldable pub write_decision :
    String → ApprovalStatus → ℕ → Decision → Store (Option ApprovalRecord)
unfolding get set_decided
write_decision approval_id target now decision rows =
    let decided =
      update_where (λ r. has_key approval_key approval_id r && is_decidable now r)
        (set_decided target now decision) rows in
    if rowcount (λ r. has_key approval_key approval_id r && is_decidable now r) rows == 0
    then (err (refused (find approval_key approval_id decided)), decided)
    else (ok (get approval_id decided), decided)

-- `_decide`; `approve` and `reject` give its status.
unfoldable pub decide : String → ApprovalStatus → ℕ → Decision → Store (Option ApprovalRecord)
unfolding check_decidable write_decision
decide approval_id target now decision =
    check_decidable approval_id now >> write_decision approval_id target now decision

abbrev pub approve : String → ℕ → Decision → Store (Option ApprovalRecord)
approve approval_id now decision = decide approval_id ApprovalStatus.approved now decision

abbrev pub reject : String → ℕ → Decision → Store (Option ApprovalRecord)
reject approval_id now decision = decide approval_id ApprovalStatus.rejected now decision

unfoldable pub set_downstream :
    ApprovalDownstreamStatus → Option String → ℕ → ApprovalRecord → ApprovalRecord
set_downstream status error_code now r = record r {
  downstream_status = status;
  downstream_error_code = error_code;
  downstream_updated_at = some now;
}

unfoldable pub mark_downstream :
    String → ApprovalDownstreamStatus → Option String → ℕ → Store (Option ApprovalRecord)
unfolding get set_downstream
mark_downstream approval_id status error_code now rows =
    let marked =
      update_where (has_key approval_key approval_id) (set_downstream status error_code now) rows in
    (ok (get approval_id marked), marked)

abbrev pub is_consumable : ℕ → ApprovalRecord → Bool
is_consumable now r = is_approved r.status && is_none r.consumed_at && ltb now r.expires_at

unfoldable pub set_consumed : ℕ → ApprovalRecord → ApprovalRecord
set_consumed now r = record r { status = ApprovalStatus.consumed; consumed_at = some now }

unfoldable pub consume : String → ℕ → Store (Option ApprovalRecord)
unfolding get set_consumed
consume approval_id now rows =
    let used =
      update_where (λ r. has_key approval_key approval_id r && is_consumable now r)
        (set_consumed now) rows in
    if rowcount (λ r. has_key approval_key approval_id r && is_consumable now r) rows == 0
    then (err approval_unavailable, used)
    else (ok (get approval_id used), used)
