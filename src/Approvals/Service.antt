-- ===== src/Approvals/Service.antt =====
-- class ApprovalService of approvals/service.py. The SHA-256 of a canonical intent and Python's
-- `str` of a JSON value are parameters; the ids that uuid4 draws are arguments.
use Prim.Native.String.{◌++◌ as concat}
use incidentlens.Common.{
  ℕ, String, Bool, true, false, ◌||◌, ◌++◌, not, Option, none, some, [], ◌∷◌, if◌then◌else◌, str_eq,
  ok, Action, raise, ◌>>=◌,
}
use incidentlens.Operation.Json.{
  Json, Fields, null, boolean, number, text, array, object, nil, cons, end, field,
}
use incidentlens.Approvals.Types.{
  ApprovalDownstreamStatus, ApprovalRecord, ApprovalError, ApprovalEventType, Links, Db,
  approval_not_found, approval_mismatch, requested, approved, rejected, consumed,
}
use incidentlens.Approvals.Store.{Store, get, create_request, default_ttl_minutes}
use incidentlens.Operation.Json.{get_field}
use incidentlens.Approvals.Decisions.{Decision, approve, reject, mark_downstream, consume}

abbrev pub Service : Type 0 → Type 0
Service A = Action Db ApprovalError A

-- A call of the store, which is one transaction on the table.
abbrev pub stored : {A : Type 0} → Store A → Service A
stored call db = let (result, rows) = call db.approvals in (result, record db { approvals = rows })

-- `intent.get(key, "unknown")`.
abbrev or_unknown : Option Json → Json
or_unknown none = text "unknown"
or_unknown (some v) = v

-- `bool(value)`; a number's text is that of `json.dumps`.
abbrev is_truthy : Json → Bool
is_truthy null = false
is_truthy (boolean b) = b
is_truthy (number n) = not (str_eq n "0" || str_eq n "0.0" || str_eq n "-0.0")
is_truthy (text s) = not (str_eq s "")
is_truthy (array nil) = false
is_truthy (array (cons v items)) = true
is_truthy (object end) = false
is_truthy (object (field k v fields)) = true

-- `_append` and `publish` of the event that a call emits.
abbrev pub emit : ApprovalEventType → ℕ → ApprovalRecord → Service ApprovalRecord
emit type now r db = (
  ok r,
  record db {
    events =
        db.events
        ++ record {
          event_type = type;
          occurred_at = now;
          approval_id = r.approval_id;
          kind = or_unknown (get_field "kind" r.intent);
          target_id = or_unknown (get_field "target_id" r.intent);
          status = r.status;
        }
          ∷ [];
  },
)

-- The event for what the store returned; after a successful call the row is there.
abbrev pub emit_some :
    ApprovalEventType → ℕ → Option ApprovalRecord → Service (Option ApprovalRecord)
emit_some type now none db = (ok none, db)
emit_some type now (some r) db = let (result, after) = emit type now r db in (ok (some r), after)

module _ (sha256 : Fields → String) (str : Json → String) where
  abbrev named_container : Json → Json → Json → String
  named_container kind container target =
      if is_truthy container
      then concat (concat (concat (concat (str kind) " ") (str container)) " on ") (str target)
      else concat (concat (str kind) " on ") (str target)

  abbrev summary_of : Json → Json → Option Json → String
  summary_of kind target (some container) = named_container kind container target
  summary_of kind target none = concat (concat (str kind) " on ") (str target)

  -- `_redact_summary`.
  abbrev pub redact_summary : Fields → String
  redact_summary intent =
      summary_of (or_unknown (get_field "kind" intent)) (or_unknown (get_field "target_id" intent))
        (get_field "container" intent)

  -- `request`.
  unfoldable pub request :
      String
      → Fields
      → ℕ
      → Option String
      → Option String
      → Option String
      → Links
      → String
      → Option Fields
      → Service ApprovalRecord
  unfolding create_request
  request approval_id intent now project_id target_id service links risk preview =
      stored (
        create_request
          (record {
            approval_id = approval_id;
            intent_sha256 = sha256 intent;
            intent = intent;
            intent_summary = redact_summary intent;
            ttl_minutes = default_ttl_minutes;
            project_id = project_id;
            target_id = target_id;
            service = service;
            links = links;
            risk = risk;
            preview = preview;
          })
          now)
      >>= emit requested now

module _ (sha256 : Fields → String) where
  -- `consume`, after the row is read.
  abbrev pub consume_found :
      String → Fields → ℕ → Option ApprovalRecord → Service (Option ApprovalRecord)
  consume_found approval_id intent now none = raise approval_not_found
  consume_found approval_id intent now (some existing) =
      if not (str_eq (sha256 intent) existing.intent_sha256)
      then raise approval_mismatch
      else stored (consume approval_id now) >>= emit_some consumed now

  unfoldable pub service_consume : String → Fields → ℕ → Service (Option ApprovalRecord)
  unfolding consume get
  service_consume approval_id intent now db =
      consume_found approval_id intent now (get approval_id db.approvals) db

unfoldable pub service_approve : String → ℕ → Decision → Service (Option ApprovalRecord)
service_approve approval_id now decision =
    stored (approve approval_id now decision) >>= emit_some approved now

unfoldable pub service_reject : String → ℕ → Decision → Service (Option ApprovalRecord)
service_reject approval_id now decision =
    stored (reject approval_id now decision) >>= emit_some rejected now

abbrev pub service_mark_downstream :
    String → ApprovalDownstreamStatus → Option String → ℕ → Service (Option ApprovalRecord)
service_mark_downstream approval_id status error_code now =
    stored (mark_downstream approval_id status error_code now)
