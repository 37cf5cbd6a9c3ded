-- ===== src/Approvals/Reads.antt =====
-- What readers of approvals/store.py see of a request: after it is created, and after the
-- migration completed its row.

use incidentlens.Common.{
  ℕ, String, Bool, true, false, ◌&&◌, Option, none, some, List, if◌then◌else◌, str_eq, coalesce, ok,
  ◌≡◌, refl, Bool-cases, inl, inr,
}
use incidentlens.Common.Keyed.{string_key, find, find-insert_self}
use incidentlens.Operation.Json.{Json, Fields, null, boolean, number, text, array, object}
use incidentlens.Approvals.Types.{
  ApprovalRecord, ApprovalDownstreamStatus, Links, is_linked, links_of,
}
use incidentlens.Approvals.Store.{
  approval_key, filled, string_of, or_intent, derive_risk, derive_from, is_not_applicable, is_none,
  derive_downstream_status, links_or_intent, intent_links, record_from_row, backfill_row,
  preview_or_safe, NewRequest, new_record, create_request, get,
}
use incidentlens.Operation.Json.{get_field}

filled_again : (o : Option String) → filled (filled o) ≡ filled o
filled_again none = refl
filled_again (some String.[]) = refl
filled_again (some (String.◌∷◌ c s)) = refl

filled-string_of : (o : Option Json) → filled (string_of o) ≡ string_of o
filled-string_of none = refl
filled-string_of (some (text s)) = filled_again (some s)
filled-string_of (some null) = refl
filled-string_of (some (boolean b)) = refl
filled-string_of (some (number n)) = refl
filled-string_of (some (array items)) = refl
filled-string_of (some (object fields)) = refl

coalesce_again :
    (f o : Option String)
    → filled f ≡ f
    → filled o ≡ o
    → coalesce (filled (coalesce f o)) o ≡ coalesce f o
coalesce_again none none h k = refl
coalesce_again none (some s) h k = rw k refl
coalesce_again (some s) o h k = rw h refl

-- Completing from the intent twice is completing once.
or_intent_again :
    (value : Option String) (key : String) (intent : Fields)
    → or_intent (or_intent value key intent) key intent ≡ or_intent value key intent
or_intent_again value key intent =
    coalesce_again (filled value) (string_of (get_field key intent)) (filled_again value)
      (filled-string_of (get_field key intent))

links_again :
    (links : Links) (intent : Fields)
    → links_or_intent (links_or_intent links intent) intent ≡ links_or_intent links intent
links_again links intent =
    rw
      (
        or_intent_again links.session_id "session_id" intent,
        or_intent_again links.investigation_id "investigation_id" intent,
        or_intent_again links.agent_run_id "agent_run_id" intent,
        or_intent_again links.tool_call_id "tool_call_id" intent,
        or_intent_again links.changeset_id "changeset_id" intent,
        or_intent_again links.proposal_id "proposal_id" intent,
      )
      refl

either_way : (b : Bool) (r : String) → (if b then r else r) ≡ r
either_way true r = refl
either_way false r = refl

derive_from_again :
    (risk stored : Option String)
    → filled risk ≡ risk
    → filled stored ≡ stored
    → derive_from risk (filled (some (derive_from risk stored))) ≡ derive_from risk stored
derive_from_again none none h k = refl
derive_from_again none (some s) h k = rw k refl
derive_from_again (some r) none h k = rw h (either_way (str_eq r "approval_required") r)
derive_from_again (some r) (some s) h k = elim (Bool-cases (str_eq s "approval_required")) [
  | inl e ↦ rw (e, h) (either_way (str_eq r "approval_required") r)
  | inr e ↦ rw (e, k, e) refl
]

derive_risk_again :
    (intent : Fields) (stored : String)
    → derive_risk intent (derive_risk intent stored) ≡ derive_risk intent stored
unfolding derive_risk
derive_risk_again intent stored =
    derive_from_again (string_of (get_field "risk" intent)) (filled (some stored))
      (filled-string_of (get_field "risk" intent)) (filled_again (some stored))

derive_downstream_again :
    (intent : Fields) (links : Links) (stored : ApprovalDownstreamStatus) (at : Option ℕ)
    → derive_downstream_status intent links (derive_downstream_status intent links stored at) at
      ≡ derive_downstream_status intent links stored at
unfolding derive_downstream_status
derive_downstream_again intent links stored at =
    elim (Bool-cases (
      is_not_applicable stored
      && is_linked links
      && is_none at
      && is_linked (intent_links intent))) [ inl e ↦ rw e refl | inr e ↦ rw (e, e) refl ]

-- The completion of rows at a migration, run over any row, shows in no later read but in the
-- preview, which is made from the intent where it was empty.
pub record_from_row-backfill_row :
    (r : ApprovalRecord)
    → record_from_row (backfill_row r) ≡ (
        let before = record_from_row r in
        record before { preview = preview_or_safe r.preview r.intent })
unfolding record_from_row backfill_row
record_from_row-backfill_row r =
    rw
      (
        links_again (links_of r) r.intent,
        or_intent_again r.project_id "project_id" r.intent,
        or_intent_again r.target_id "target_id" r.intent,
        or_intent_again r.service "service" r.intent,
        derive_risk_again r.intent r.risk,
        derive_downstream_again r.intent (links_or_intent (links_of r) r.intent) r.downstream_status
            r.downstream_updated_at,
      )
      (rw
        (
          or_intent_again r.session_id "session_id" r.intent,
          or_intent_again r.investigation_id "investigation_id" r.intent,
          or_intent_again r.agent_run_id "agent_run_id" r.intent,
          or_intent_again r.tool_call_id "tool_call_id" r.intent,
          or_intent_again r.changeset_id "changeset_id" r.intent,
          or_intent_again r.proposal_id "proposal_id" r.intent,
        )
        refl)

-- A request whose id no row has is stored. A read of it then returns the record that
-- `create_request` returned, but for two fields that a read derives from the intent: the risk, and
-- the state of what follows the decision.
pub get-create_request :
    (request : NewRequest) (now : ℕ) (rows : List ApprovalRecord)
    → find approval_key request.approval_id rows ≡ none
    → ((create_request request now rows).0 ≡ ok (new_record request now))
      × (get request.approval_id (create_request request now rows).1
          ≡ some (
              let made = new_record request now in
              record made {
                risk = derive_risk request.intent made.risk;
                downstream_status =
                    derive_downstream_status request.intent
                      (links_of made)
                      made.downstream_status
                      none;
              }))
unfolding create_request new_record get record_from_row
get-create_request request now rows h = (
  rw h refl,
  rw (h, find-insert_self approval_key request.approval_id (new_record request now) rows refl h)
      (rw
        (
          links_again request.links request.intent,
          or_intent_again request.project_id "project_id" request.intent,
          or_intent_again request.target_id "target_id" request.intent,
          or_intent_again request.service "service" request.intent,
        )
        (rw
          (
            or_intent_again request.links.session_id "session_id" request.intent,
            or_intent_again request.links.investigation_id "investigation_id" request.intent,
            or_intent_again request.links.agent_run_id "agent_run_id" request.intent,
            or_intent_again request.links.tool_call_id "tool_call_id" request.intent,
            or_intent_again request.links.changeset_id "changeset_id" request.intent,
            or_intent_again request.links.proposal_id "proposal_id" request.intent,
          )
          refl)),
)
