-- ===== src/Approvals/Types.antt =====
-- approvals/types.py, and the errors of approvals/store.py and approvals/service.py. The length
-- bounds of the fields are left out. An intent and a preview are the fields of a JSON object.
use incidentlens.Common.{ℕ, String, Bool, true, false, ◌||◌, Option, none, some, List}
use incidentlens.Operation.Json.{Json, Fields}

pub data ApprovalStatus : Type 0 where
  pending approved rejected consumed : ApprovalStatus

pub data ApprovalDecisionStatus : Type 0 where
  pending approved rejected : ApprovalDecisionStatus

pub data ApprovalDownstreamStatus : Type 0 where
  not_applicable pending processing processed failed : ApprovalDownstreamStatus

-- A row of the table and the record that is read from it.
pub record ApprovalRecord : Type 0 where
  pub approval_id : String
  pub intent_sha256 : String
  pub intent : Fields
  pub intent_summary : String
  pub status : ApprovalStatus
  pub project_id : Option String
  pub target_id : Option String
  pub service : Option String
  pub session_id : Option String
  pub investigation_id : Option String
  pub agent_run_id : Option String
  pub tool_call_id : Option String
  pub changeset_id : Option String
  pub proposal_id : Option String
  pub risk : String
  pub preview : Fields
  pub created_at : ℕ
  pub expires_at : ℕ
  pub decided_at : Option ℕ
  pub consumed_at : Option ℕ
  pub decision_actor : Option String
  pub decision_reason : Option String
  pub decision_route_key : Option String
  pub decision_idempotency_key : Option String
  pub decision_request_sha256 : Option String
  pub downstream_status : ApprovalDownstreamStatus
  pub downstream_error_code : Option String
  pub downstream_updated_at : Option ℕ

-- `decision_status`.
abbrev pub decision_status : ApprovalStatus → ApprovalDecisionStatus
decision_status pending = pending
decision_status approved = approved
decision_status rejected = rejected
decision_status consumed = approved

-- The links of a request to what asked for it.
pub record Links : Type 0 where
  pub session_id : Option String
  pub investigation_id : Option String
  pub agent_run_id : Option String
  pub tool_call_id : Option String
  pub changeset_id : Option String
  pub proposal_id : Option String

-- `bool(value)`.
abbrev pub is_set : Option String → Bool
is_set none = false
is_set (some String.[]) = false
is_set (some (String.◌∷◌ c s)) = true

abbrev pub is_linked : Links → Bool
is_linked links =
    is_set links.session_id
    || is_set links.investigation_id
    || is_set links.agent_run_id
    || is_set links.tool_call_id
    || is_set links.changeset_id
    || is_set links.proposal_id

abbrev pub links_of : ApprovalRecord → Links
links_of r = record {
  session_id = r.session_id;
  investigation_id = r.investigation_id;
  agent_run_id = r.agent_run_id;
  tool_call_id = r.tool_call_id;
  changeset_id = r.changeset_id;
  proposal_id = r.proposal_id;
}

-- `has_downstream_linkage`.
abbrev pub has_downstream_linkage : ApprovalRecord → Bool
has_downstream_linkage r = is_linked (links_of r)

pub data ApprovalError : Type 0 where
  approval_not_found approval_expired approval_already_decided : ApprovalError
  approval_unavailable approval_mismatch integrity_error : ApprovalError

pub data ApprovalEventType : Type 0 where
  requested approved rejected consumed : ApprovalEventType

-- The payload of an event of the service.
pub record ApprovalEvent : Type 0 where
  pub event_type : ApprovalEventType
  pub occurred_at : ℕ
  pub approval_id : String
  pub kind : Json
  pub target_id : Json
  pub status : ApprovalStatus

-- The table of the approvals and the events that were appended.
pub record Db : Type 0 where
  pub approvals : List ApprovalRecord
  pub events : List ApprovalEvent
