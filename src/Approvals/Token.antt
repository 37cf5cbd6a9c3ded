-- ===== src/Approvals/Token.antt =====
-- The life of an approval, with no table: what approvals/store.py promises of one id.
use incidentlens.Common.{
  ℕ, String, ◌+◌, ◌*◌, Bool, true, false, ◌&&◌, ◌||◌, Option, none, some, List, [], ◌∷◌,
  if◌then◌else◌, ltb, str_eq, Result, ok, err, ◌≡◌,
}
use incidentlens.Common.Keyed.{string_key, find}
use incidentlens.Approvals.Types.{
  ApprovalStatus, ApprovalDownstreamStatus, ApprovalRecord, ApprovalError,
}
use incidentlens.Approvals.Store.{approval_key, NewRequest, create_request, is_none}
use incidentlens.Approvals.Decisions.{Decision, approve, reject, mark_downstream, consume}

-- No request, or one that waits or is approved until it expires, is rejected, or was used.
pub data Token : Type 0 where
  absent rejected consumed : Token
  pending approved : ℕ → Token

abbrev pub token_at : ApprovalStatus → ℕ → Token
token_at ApprovalStatus.pending expires = pending expires
token_at ApprovalStatus.approved expires = approved expires
token_at ApprovalStatus.rejected expires = rejected
token_at ApprovalStatus.consumed expires = consumed

abbrev pub token_found : Option ApprovalRecord → Token
token_found none = absent
token_found (some r) = token_at r.status r.expires_at

-- The token of an id.
abbrev pub token_of : String → List ApprovalRecord → Token
token_of approval_id rows = token_found (find approval_key approval_id rows)

-- The calls that write the table.
pub data Call : Type 0 where
  creates : NewRequest → ℕ → Call
  approves rejects : String → ℕ → Decision → Call
  marks : String → ApprovalDownstreamStatus → Option String → ℕ → Call
  consumes : String → ℕ → Call

abbrev pub succeeds : {A : Type 0} → Result ApprovalError A → Bool
succeeds (ok a) = true
succeeds (err e) = false

abbrev pub of_call :
    {A : Type 0} → Result ApprovalError A × List ApprovalRecord → Bool × List ApprovalRecord
of_call (result, rows) = (succeeds result, rows)

-- What a call makes of the table, and whether it returns.
unfoldable pub perform : Call → List ApprovalRecord → Bool × List ApprovalRecord
unfolding create_request mark_downstream consume
perform (creates request now) rows = of_call (create_request request now rows)
perform (approves approval_id now decision) rows = of_call (approve approval_id now decision rows)
perform (rejects approval_id now decision) rows = of_call (reject approval_id now decision rows)
perform (marks approval_id status code now) rows =
    of_call (mark_downstream approval_id status code now rows)
perform (consumes approval_id now) rows = of_call (consume approval_id now rows)

abbrev pub perform_all : List Call → List ApprovalRecord → List ApprovalRecord
perform_all [] rows = rows
perform_all (c ∷ calls) rows = perform_all calls (perform c rows).1

-- The id that a call is about.
abbrev pub id_of : Call → String
id_of (creates request now) = request.approval_id
id_of (approves approval_id now decision) = approval_id
id_of (rejects approval_id now decision) = approval_id
id_of (marks approval_id status code now) = approval_id
id_of (consumes approval_id now) = approval_id

-- Whether a call returns, by the token of its id.
abbrev pub accepts : Call → Token → Bool
accepts (creates request now) absent = true
accepts (approves approval_id now decision) (pending expires) = ltb now expires
accepts (rejects approval_id now decision) (pending expires) = ltb now expires
accepts (marks approval_id status code now) token = true
accepts (consumes approval_id now) (approved expires) = ltb now expires
accepts _ _ = false

-- What a call that returns makes of the token of its id.
abbrev pub next : Call → Token → Token
next (creates request now) token = pending (now + request.ttl_minutes * 60 * 1000000)
next (approves approval_id now decision) (pending expires) = approved expires
next (rejects approval_id now decision) token = rejected
next (consumes approval_id now) token = consumed
next _ token = token

-- What a call makes of the token of an id.
abbrev pub step : String → Call → Token → Token
step approval_id call token =
    if str_eq (id_of call) approval_id && accepts call token then next call token else token

abbrev pub is_consumed : ApprovalStatus → Bool
is_consumed ApprovalStatus.consumed = true
is_consumed _ = false

-- Only a consumed row has a time of its use.
abbrev pub IsFormed : ApprovalRecord → Type 0
IsFormed r = (is_consumed r.status || is_none r.consumed_at) ≡ true
