-- ===== src/Approvals/Store.antt =====
-- class ApprovalStore of approvals/store.py. Times are in microseconds.
use incidentlens.Common.{
  ℕ, String, ◌+◌, ◌*◌, Bool, true, false, ◌&&◌, Option, none, some, List, map, if◌then◌else◌,
  str_eq, coalesce, ok, err, Action,
}
use incidentlens.Common.Sql.{insert_row}
use incidentlens.Common.Keyed.{string_key, find}
use incidentlens.Operation.Json.{get_field, Json, Fields, text, object, end, field}
use incidentlens.Approvals.Types.{
  ApprovalStatus, ApprovalDownstreamStatus, ApprovalRecord, ApprovalError, Links, is_set, is_linked,
  links_of, integrity_error,
}

abbrev pub Store : Type 0 → Type 0
Store A = Action (List ApprovalRecord) ApprovalError A

abbrev pub approval_key : ApprovalRecord → String
approval_key r = r.approval_id

-- `_string` of a column.
abbrev pub filled : Option String → Option String
filled s = if is_set s then s else none

-- `_string` of a JSON value.
abbrev pub string_of : Option Json → Option String
string_of (some (text s)) = filled (some s)
string_of _ = none

-- `value or _string(intent.get(key))`.
abbrev pub or_intent : Option String → String → Fields → Option String
or_intent value key intent = coalesce (filled value) (string_of (get_field key intent))

abbrev put_text : String → Option Json → Fields → Fields
put_text key (some (text s)) rest = field key (text s) rest
put_text key _ rest = rest

abbrev preview_or : Option Json → Fields → Fields
preview_or (some (object preview)) other = preview
preview_or _ other = other

-- `_safe_preview_from_intent`.
unfoldable pub safe_preview_from_intent : Fields → Fields
safe_preview_from_intent intent = preview_or (get_field "preview" intent) (
    put_text "preview" (get_field "security_preview" intent) (
      put_text "impact" (get_field "impact" intent) (
        put_text "verification" (get_field "verification_plan" intent)
          (put_text "rollback" (get_field "rollback_plan" intent) end))))

-- `_initial_downstream_status`.
abbrev pub initial_downstream_status : Links → ApprovalDownstreamStatus
initial_downstream_status links =
    if is_linked links
    then ApprovalDownstreamStatus.pending
    else ApprovalDownstreamStatus.not_applicable

-- `_derive_risk`, on the column.
abbrev pub derive_from : Option String → Option String → String
derive_from none none = "approval_required"
derive_from none (some stored) = stored
derive_from (some risk) none = risk
derive_from (some risk) (some stored) = if str_eq stored "approval_required" then risk else stored

unfoldable pub derive_risk : Fields → String → String
derive_risk intent stored = derive_from (string_of (get_field "risk" intent)) (filled (some stored))

abbrev pub is_not_applicable : ApprovalDownstreamStatus → Bool
is_not_applicable ApprovalDownstreamStatus.not_applicable = true
is_not_applicable _ = false

abbrev pub is_none : Option ℕ → Bool
is_none none = true
is_none (some t) = false

-- The links that the intent names.
abbrev pub intent_links : Fields → Links
intent_links intent = record {
  session_id = string_of (get_field "session_id" intent);
  investigation_id = string_of (get_field "investigation_id" intent);
  agent_run_id = string_of (get_field "agent_run_id" intent);
  tool_call_id = string_of (get_field "tool_call_id" intent);
  changeset_id = string_of (get_field "changeset_id" intent);
  proposal_id = string_of (get_field "proposal_id" intent);
}

-- The links, completed from the intent.
abbrev pub links_or_intent : Links → Fields → Links
links_or_intent links intent = record {
  session_id = or_intent links.session_id "session_id" intent;
  investigation_id = or_intent links.investigation_id "investigation_id" intent;
  agent_run_id = or_intent links.agent_run_id "agent_run_id" intent;
  tool_call_id = or_intent links.tool_call_id "tool_call_id" intent;
  changeset_id = or_intent links.changeset_id "changeset_id" intent;
  proposal_id = or_intent links.proposal_id "proposal_id" intent;
}

-- `_derive_downstream_status`; the column is NOT NULL.
unfoldable pub derive_downstream_status :
    Fields → Links → ApprovalDownstreamStatus → Option ℕ → ApprovalDownstreamStatus
derive_downstream_status intent links stored updated_at =
    if is_not_applicable stored
      && is_linked links
      && is_none updated_at
      && is_linked (intent_links intent)
    then ApprovalDownstreamStatus.pending
    else stored

-- The record with these links.
abbrev with_links : Links → ApprovalRecord → ApprovalRecord
with_links links r = record r {
  session_id = links.session_id;
  investigation_id = links.investigation_id;
  agent_run_id = links.agent_run_id;
  tool_call_id = links.tool_call_id;
  changeset_id = links.changeset_id;
  proposal_id = links.proposal_id;
}

-- The columns that are completed from the intent, for `_record_from_row` and `_backfill_rows`.
abbrev completed : ApprovalRecord → ApprovalRecord
completed r =
    let links = links_or_intent (links_of r) r.intent in
    let linked = with_links links r in
    record linked {
      project_id = or_intent r.project_id "project_id" r.intent;
      target_id = or_intent r.target_id "target_id" r.intent;
      service = or_intent r.service "service" r.intent;
      risk = derive_risk r.intent r.risk;
      downstream_status =
          derive_downstream_status r.intent links r.downstream_status r.downstream_updated_at;
    }

-- `_record_from_row`.
unfoldable pub record_from_row : ApprovalRecord → ApprovalRecord
record_from_row r =
    let done = completed r in
    record done {
      decision_actor = filled r.decision_actor;
      decision_reason = filled r.decision_reason;
      decision_route_key = filled r.decision_route_key;
      decision_idempotency_key = filled r.decision_idempotency_key;
      decision_request_sha256 = filled r.decision_request_sha256;
      downstream_error_code = filled r.downstream_error_code;
    }

abbrev pub preview_or_safe : Fields → Fields → Fields
preview_or_safe end intent = safe_preview_from_intent intent
preview_or_safe (field k v rest) intent = field k v rest

unfoldable pub backfill_row : ApprovalRecord → ApprovalRecord
backfill_row r =
    let done = completed r in record done { preview = preview_or_safe r.preview r.intent }

-- `_backfill_rows`.
abbrev pub backfill_rows : List ApprovalRecord → List ApprovalRecord
backfill_rows rows = map backfill_row rows

-- The arguments of `create_request`.
pub record NewRequest : Type 0 where
  pub approval_id : String
  pub intent_sha256 : String
  pub intent : Fields
  pub intent_summary : String
  pub ttl_minutes : ℕ
  pub project_id : Option String
  pub target_id : Option String
  pub service : Option String
  pub links : Links
  pub risk : String
  pub preview : Option Fields

abbrev pub default_ttl_minutes : ℕ
default_ttl_minutes = 15

abbrev given_preview : Option Fields → Fields → Fields
given_preview none intent = safe_preview_from_intent intent
given_preview (some preview) intent = preview_or_safe preview intent

abbrev first_risk : Option String → Option String → String
first_risk (some risk) other = risk
first_risk none (some risk) = risk
first_risk none none = "approval_required"

-- The record that `create_request` stores and returns.
unfoldable pub new_record : NewRequest → ℕ → ApprovalRecord
new_record request now =
    let links = links_or_intent request.links request.intent in
    record {
      approval_id = request.approval_id;
      intent_sha256 = request.intent_sha256;
      intent = request.intent;
      intent_summary = request.intent_summary;
      status = ApprovalStatus.pending;
      project_id = or_intent request.project_id "project_id" request.intent;
      target_id = or_intent request.target_id "target_id" request.intent;
      service = or_intent request.service "service" request.intent;
      session_id = links.session_id;
      investigation_id = links.investigation_id;
      agent_run_id = links.agent_run_id;
      tool_call_id = links.tool_call_id;
      changeset_id = links.changeset_id;
      proposal_id = links.proposal_id;
      risk = first_risk (filled (some request.risk)) (string_of (get_field "risk" request.intent));
      preview = given_preview request.preview request.intent;
      created_at = now;
      expires_at = now + request.ttl_minutes * 60 * 1000000;
      decided_at = none;
      consumed_at = none;
      decision_actor = none;
      decision_reason = none;
      decision_route_key = none;
      decision_idempotency_key = none;
      decision_request_sha256 = none;
      downstream_status = initial_downstream_status request.links;
      downstream_error_code = none;
      downstream_updated_at = none;
    }

-- The `INSERT` of a key that a row has raises `sqlite3.IntegrityError`.
abbrev insert_new : Option ApprovalRecord → ApprovalRecord → Store ApprovalRecord
insert_new none r rows = (ok r, insert_row r rows)
insert_new (some other) r rows = (err integrity_error, rows)

unfoldable pub create_request : NewRequest → ℕ → Store ApprovalRecord
unfolding new_record
create_request request now rows =
    insert_new (find approval_key request.approval_id rows) (new_record request now) rows

abbrev pub read_row : Option ApprovalRecord → Option ApprovalRecord
read_row none = none
read_row (some r) = some (record_from_row r)

unfoldable pub get : String → List ApprovalRecord → Option ApprovalRecord
unfolding record_from_row
get approval_id rows = read_row (find approval_key approval_id rows)
