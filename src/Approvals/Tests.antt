-- ===== src/Approvals/Tests.antt =====
-- Calls of approvals/ on a table with one request.
use incidentlens.Common.{◌<◌, none, some, [], ◌∷◌, ok, err, ◌≡◌, refl, true}
use incidentlens.Common.Keyed.{string_key, find}
use incidentlens.Operation.Json.{Fields, text, end, field}
use incidentlens.Approvals.Types.{
  ApprovalStatus, ApprovalDownstreamStatus, ApprovalRecord, Links, Db, links_of,
  approval_unavailable, approval_already_decided,
}
use incidentlens.Approvals.Store.{
  approval_key, NewRequest, new_record, create_request, get, record_from_row, derive_risk,
  derive_downstream_status,
}
use incidentlens.Approvals.Decisions.{Decision, consume, decide, set_consumed}
use incidentlens.Approvals.Service.{service_consume}
use incidentlens.Approvals.Token.{approves, consumes, perform, perform_all}
use incidentlens.Approvals.Refines.{Refines, perform-Refines}
use incidentlens.Approvals.Once.{use_up, ended_once}
use incidentlens.Approvals.Exact.{service_consume-IsExact}
use incidentlens.Approvals.Reads.{get-create_request}

abbrev intent : Fields
intent =
    field "kind" (text "docker_restart")
      (field "risk" (text "high") (field "session_id" (text "s-1") end))

abbrev no_links : Links
no_links = record {
  session_id = none;
  investigation_id = none;
  agent_run_id = none;
  tool_call_id = none;
  changeset_id = none;
  proposal_id = none;
}

abbrev new_request : NewRequest
new_request = record {
  approval_id = "apr-1";
  intent_sha256 = "sha-1";
  intent = intent;
  intent_summary = "docker_restart on web-1";
  ttl_minutes = 15;
  project_id = none;
  target_id = some "web-1";
  service = none;
  links = no_links;
  risk = "approval_required";
  preview = none;
}

abbrev row : ApprovalRecord
row = record {
  approval_id = "apr-1";
  intent_sha256 = "sha-1";
  intent = intent;
  intent_summary = "docker_restart on web-1";
  status = ApprovalStatus.approved;
  project_id = none;
  target_id = some "web-1";
  service = none;
  session_id = some "s-1";
  investigation_id = none;
  agent_run_id = none;
  tool_call_id = none;
  changeset_id = none;
  proposal_id = none;
  risk = "approval_required";
  preview = end;
  created_at = 0;
  expires_at = 900;
  decided_at = some 5;
  consumed_at = none;
  decision_actor = some "ops";
  decision_reason = none;
  decision_route_key = none;
  decision_idempotency_key = none;
  decision_request_sha256 = none;
  downstream_status = ApprovalDownstreamStatus.not_applicable;
  downstream_error_code = none;
  downstream_updated_at = none;
}

abbrev by_ops : Decision
by_ops = record {
  actor = some "ops";
  reason = none;
  route_key = none;
  idempotency_key = none;
  request_sha256 = none;
}

-- `create_request` returns the risk that the caller gave, a read the one of the intent.
risk_differs :
    ((create_request new_request 0 []).0 ≡ ok (new_record new_request 0))
    × ((new_record new_request 0).risk ≡ "approval_required")
    × (derive_risk intent "approval_required" ≡ "high")
unfolding create_request derive_risk new_record
risk_differs = (refl, refl, refl)

perform-Refines_example : Refines (consumes "apr-1" 10) (row ∷ [])
perform-Refines_example = perform-Refines (consumes "apr-1" 10) (row ∷ []) (refl, tt) (refl, tt)

used : (perform (consumes "apr-1" 10) (row ∷ [])).0 ≡ true
unfolding perform consume
used = refl

ended_once_example :
    ((consume "apr-1" 30 (
        perform_all
          (approves "apr-1" 20 by_ops ∷ [])
          (perform (consumes "apr-1" 10) (row ∷ [])).1)).0
      ≡ err approval_unavailable)
    × ((decide "apr-1" ApprovalStatus.rejected 30 by_ops (
          perform_all
            (approves "apr-1" 20 by_ops ∷ [])
            (perform (consumes "apr-1" 10) (row ∷ [])).1)).0
        ≡ err approval_already_decided)
ended_once_example =
    ended_once (consumes "apr-1" 10) (row ∷ []) (approves "apr-1" 20 by_ops ∷ [])
      ApprovalStatus.rejected 30 by_ops ((refl, tt), (refl, tt)) (use_up "apr-1" 10) used

abbrev db : Db
db = record { approvals = row ∷ []; events = [] }

consumed_db :
    (service_consume (λ i. "sha-1") "apr-1" intent 10 db).0
    ≡ ok (some (record_from_row (set_consumed 10 row)))
unfolding service_consume consume get record_from_row
consumed_db = refl

service_consume-IsExact_example :
    (r : ApprovalRecord) × (find approval_key "apr-1" (row ∷ []) ≡ some r)
    × ("sha-1" ≡ r.intent_sha256)
    × (r.status ≡ ApprovalStatus.approved)
    × (r.consumed_at ≡ none)
    × (10 < r.expires_at)
unfolding service_consume consume get record_from_row
service_consume-IsExact_example =
    service_consume-IsExact (λ i. "sha-1") "apr-1" intent 10 db
      {result = some (record_from_row (set_consumed 10 row))}
      {after = (service_consume (λ i. "sha-1") "apr-1" intent 10 db).1} (refl, tt) refl

get-create_request_example :
    ((create_request new_request 0 []).0 ≡ ok (new_record new_request 0))
    × (get "apr-1" (create_request new_request 0 []).1
        ≡ some (
            let made = new_record new_request 0 in
            record made {
              risk = derive_risk intent made.risk;
              downstream_status =
                  derive_downstream_status intent (links_of made) made.downstream_status none;
            }))
get-create_request_example = get-create_request new_request 0 [] refl
