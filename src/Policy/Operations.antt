-- ===== src/Policy/Operations.antt =====
-- class RemoteOperationPolicy of remote_ops/policy.py, and its types of remote_ops/types.py.
use incidentlens.Common.{
  ℕ, String, Bool, true, false, not, Option, none, some, List, [], ◌∷◌, any, if◌then◌else◌, str_eq,
  ◌≡◌, refl, ◌↔◌, ◌⊎◌, inl, inr, arith, Any, any_iff, Bool-cases, eq_iff, some_inj, subst, sym,
}

pub data OperationKind : Type 0 where
  collect_logs inspect_config inspect_container inspect_source lookup_source_archive : OperationKind
  propose_change apply_change : OperationKind

-- `operation in READ_ONLY_OPERATIONS`.
abbrev pub is_read_only : OperationKind → Bool
is_read_only propose_change = false
is_read_only apply_change = false
is_read_only _ = true

pub record ChangeControls : Type 0 where
  pub change_ticket : String
  pub backup_ref : String
  pub approval_id : String
  pub verification_plan : String
  pub rollback_plan : String

pub data RuntimeKind : Type 0 where
  docker_compose : RuntimeKind

pub record TargetProfile : Type 0 where
  pub target_id : String
  pub host : String
  pub ssh_user : String
  pub runtime : RuntimeKind
  pub allowed_services : List String
  pub credential_ref : String

pub record RemoteAction : Type 0 where
  pub target_id : String
  pub operation : OperationKind
  pub service : String
  pub incident_id : String
  pub log_query : Option String
  pub time_range_minutes : ℕ
  pub change_controls : Option ChangeControls

pub record PolicyDecision : Type 0 where
  pub allowed : Bool
  pub reason : String
  pub required_gates : List String

abbrev decided : Bool → String → List String → PolicyDecision
decided allowed reason gates = record { allowed = allowed; reason = reason; required_gates = gates }

abbrev change_decision : Option ChangeControls → PolicyDecision
change_decision none =
    decided false "a change needs backup, approval, verification, and rollback controls"
      ("backup" ∷ "human_approval" ∷ "verification_plan" ∷ "rollback_plan" ∷ [])
change_decision (some controls) =
    decided true "approved reversible change; adapter must verify after execution"
      ("post_change_verification" ∷ [])

abbrev operation_decision : OperationKind → Option ChangeControls → PolicyDecision
operation_decision propose_change controls =
    decided true "proposal may be generated but cannot modify the target" ("human_review" ∷ [])
operation_decision apply_change controls = change_decision controls
operation_decision _ controls = decided true "allowlisted read-only operation" []

abbrev target_decision : Option TargetProfile → RemoteAction → PolicyDecision
target_decision none action = decided false "target is not registered" []
target_decision (some target) action =
    if not (any (str_eq action.service) target.allowed_services)
    then decided false "service is not allowlisted for this target" []
    else operation_decision action.operation action.change_controls

-- `RemoteOperationPolicy.evaluate`; the targets are the mapping that the policy was built with.
unfoldable pub evaluate_operation : (String → Option TargetProfile) → RemoteAction → PolicyDecision
evaluate_operation targets action = target_decision (targets action.target_id) action

-- A read, a proposal, or a change that carries its controls.
abbrev pub IsControlled : RemoteAction → Type 0
IsControlled action =
    (is_read_only action.operation ≡ true)
    ⊎ (action.operation ≡ propose_change)
    ⊎ ((action.operation ≡ apply_change)
        × ((controls : ChangeControls) × (action.change_controls ≡ some controls)))

operation_decision_iff :
    (operation : OperationKind) (controls : Option ChangeControls)
    → ((operation_decision operation controls).allowed ≡ true) ↔ (
        (is_read_only operation ≡ true)
        ⊎ (operation ≡ propose_change)
        ⊎ ((operation ≡ apply_change) × ((given : ChangeControls) × (controls ≡ some given))))
operation_decision_iff propose_change controls = (λ h. inr (inl refl), λ h. refl)
operation_decision_iff apply_change none = (λ h. absurd (cc h), λ h. ground arith)
operation_decision_iff apply_change (some controls) =
    (λ h. inr (inr (refl, (controls, refl))), λ h. refl)
operation_decision_iff _ controls = (λ h. inl refl, λ h. refl)

listed_iff :
    (name : String) (names : List String)
    → (any (str_eq name) names ≡ true) ↔ Any (λ listed. name ≡ listed) names
listed_iff name names = any_iff (λ listed. name ≡ listed) (str_eq name) names (eq_iff name)

target_decision_iff :
    (found : Option TargetProfile) (action : RemoteAction)
    → ((target_decision found action).allowed ≡ true) ↔ (
        (target : TargetProfile) × (found ≡ some target)
        × Any (λ listed. action.service ≡ listed) target.allowed_services
        × IsControlled action)
target_decision_iff none action = (λ h. absurd (cc h), λ (t, e, l, c). absurd (cc e))
target_decision_iff (some target) action =
    elim (Bool-cases (any (str_eq action.service) target.allowed_services)) [
      | inl e ↦ (
        λ h. (
          target,
          refl,
          (listed_iff action.service target.allowed_services).0 e,
          (operation_decision_iff action.operation action.change_controls).0 (rw e at h),
        ),
        λ (t, same, l, c).
            rw e ((operation_decision_iff action.operation action.change_controls).1 c),
      )
      | inr e ↦ (
        λ h. absurd (cc (rw e at h)),
        λ (t, same, l, c). absurd (
            cc (
              e,
              (listed_iff action.service target.allowed_services).1 (
                  subst
                    (λ (o : TargetProfile).
                      Any (λ listed. action.service ≡ listed) o.allowed_services)
                    (sym (some_inj.0 same)) l),
            )),
      )
    ]

-- An action is allowed exactly when its target is registered, the target's allowlist has its
-- service, and it is a read, a proposal, or a change that carries its controls.
pub evaluate_operation_iff :
    (targets : String → Option TargetProfile) (action : RemoteAction)
    → ((evaluate_operation targets action).allowed ≡ true) ↔ (
        (target : TargetProfile) × (targets action.target_id ≡ some target)
        × Any (λ listed. action.service ≡ listed) target.allowed_services
        × IsControlled action)
unfolding evaluate_operation
evaluate_operation_iff targets action = target_decision_iff (targets action.target_id) action
