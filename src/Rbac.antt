-- ===== src/Rbac.antt =====
-- rbac.py: roles, permissions, identities, and the access decision. The identifier that
-- `AuthorizationDecision` draws at random is left out; a rejection's text is a constructor with
-- the values that the text shows. The proofs are in the modules below.
mod Decisions
mod Examples
use continuityos.Prelude.{
  String, List, [], ◌∷◌, ◌++◌, Bool, true, false, not, ◌&&◌, Option, none, some, ltb, if◌then◌else◌,
  str_eq, mem, same,
}
use continuityos.Domain.{DataClassification, level}

pub data SovereignRole : Type 0 where
  sovereign_commander tenant_admin operator_analyst : SovereignRole
  security_auditor scif_airgap_operator nato_liaison_viewer : SovereignRole

pub data Permission : Type 0 where
  read_public read_protected read_secret read_top_secret : Permission
  ingest_telemetry compile_plan trigger_wargame mutate_network : Permission
  verify_ledger export_cop manage_cluster admin_tenants : Permission

pub data DisseminationControl : Type 0 where
  canadian_eyes_only five_eyes nato_secret noforn : DisseminationControl

unfoldable pub role_discrete : Discrete SovereignRole
role_discrete = hlevel

unfoldable pub permission_discrete : Discrete Permission
permission_discrete = hlevel

-- `ROLE_PERMISSIONS`, which has an entry for every role.
unfoldable pub role_permissions : SovereignRole → List Permission
role_permissions sovereign_commander =
    read_public ∷ read_protected ∷ read_secret ∷ read_top_secret ∷ ingest_telemetry ∷ compile_plan
    ∷ trigger_wargame ∷ mutate_network ∷ verify_ledger ∷ export_cop ∷ manage_cluster ∷ admin_tenants
    ∷ []
role_permissions tenant_admin =
    read_public ∷ read_protected ∷ read_secret ∷ ingest_telemetry ∷ compile_plan ∷ trigger_wargame
    ∷ mutate_network ∷ verify_ledger ∷ export_cop ∷ manage_cluster ∷ []
role_permissions operator_analyst =
    read_public ∷ read_protected ∷ read_secret ∷ ingest_telemetry ∷ compile_plan ∷ trigger_wargame
    ∷ export_cop ∷ []
role_permissions security_auditor = read_public ∷ read_protected ∷ read_secret ∷ verify_ledger ∷ []
role_permissions scif_airgap_operator =
    read_public ∷ read_protected ∷ read_secret ∷ ingest_telemetry ∷ compile_plan ∷ manage_cluster
    ∷ verify_ledger ∷ []
role_permissions nato_liaison_viewer = read_public ∷ read_protected ∷ export_cop ∷ []

pub record SovereignIdentity : Type 0 where
  pub user_id : String
  pub tenant_id : String
  pub roles : List SovereignRole
  pub clearance_level : DataClassification
  pub citizenship_nation : String
  pub authorized_caveats : List DisseminationControl

pub data RejectionReason : Type 0 where
  cross_tenant : String → String → RejectionReason
  lacks_permission : Permission → RejectionReason
  insufficient_clearance : DataClassification → DataClassification → RejectionReason
  nationality : String → RejectionReason

pub record AuthorizationDecision : Type 0 where
  pub user_id : String
  pub tenant_id : String
  pub is_authorized : Bool
  pub requested_permission : Permission
  pub resource_classification : DataClassification
  pub rejection_reason : Option RejectionReason

-- What a call of `evaluate_access` names beside the identity.
pub record AccessRequest : Type 0 where
  pub target_tenant_id : String
  pub required_permission : Permission
  pub resource_classification : DataClassification
  pub required_dissemination : Option DisseminationControl

-- The loop that fills `user_perms`.
unfoldable pub user_perms : List SovereignRole → List Permission
unfolding role_permissions
user_perms [] = []
user_perms (role ∷ roles) = role_permissions role ++ user_perms roles

unfoldable pub is_canadian_eyes_only : Option DisseminationControl → Bool
is_canadian_eyes_only (some canadian_eyes_only) = true
is_canadian_eyes_only _ = false

decision : SovereignIdentity → AccessRequest → Bool → Option RejectionReason → AuthorizationDecision
decision i q granted reason = record {
  user_id = i.user_id;
  tenant_id = i.tenant_id;
  is_authorized = granted;
  requested_permission = q.required_permission;
  resource_classification = q.resource_classification;
  rejection_reason = reason;
}

-- The four guards in the code's order, each with its early return.
unfoldable pub evaluate_access : SovereignIdentity → AccessRequest → AuthorizationDecision
unfolding decision is_canadian_eyes_only
evaluate_access i q =
    if not (str_eq i.tenant_id q.target_tenant_id)
      && not (mem role_discrete sovereign_commander i.roles)
    then decision i q false (some (cross_tenant i.tenant_id q.target_tenant_id))
    else if not (mem permission_discrete q.required_permission (user_perms i.roles))
    then decision i q false (some (lacks_permission q.required_permission))
    else if ltb (level i.clearance_level) (level q.resource_classification)
    then decision i q false
        (some (insufficient_clearance i.clearance_level q.resource_classification))
    else if is_canadian_eyes_only q.required_dissemination
        && not (str_eq i.citizenship_nation "CAN")
    then decision i q false (some (nationality i.citizenship_nation))
    else decision i q true none
