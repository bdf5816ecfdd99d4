-- ===== src/Rbac/Examples.antt =====
-- Access requests of the kind that rbac.py decides.
use continuityos.Prelude.{◌≡◌, [], ◌∷◌, refl, true, false, some, mem}
use continuityos.Domain.{secret, protected_b, top_secret, level}
use continuityos.Rbac.{
  sovereign_commander, operator_analyst, security_auditor, compile_plan, admin_tenants,
  canadian_eyes_only, SovereignIdentity, AccessRequest, evaluate_access, user_perms, role_discrete,
  permission_discrete,
}
use continuityos.Rbac.Decisions.{evaluate_access-MayAccess, MayAccess}

abbrev analyst : SovereignIdentity
analyst = record {
  user_id = "analyst";
  tenant_id = "north";
  roles = operator_analyst ∷ [];
  clearance_level = secret;
  citizenship_nation = "CAN";
  authorized_caveats = [];
}

abbrev commander : SovereignIdentity
commander = record analyst {
  user_id = "commander";
  roles = security_auditor ∷ sovereign_commander ∷ [];
  clearance_level = top_secret;
}

abbrev plan_request : AccessRequest
plan_request = record {
  target_tenant_id = "north";
  required_permission = compile_plan;
  resource_classification = protected_b;
  required_dissemination = some canadian_eyes_only;
}

abbrev admin_request : AccessRequest
admin_request = record plan_request {
  target_tenant_id = "south";
  required_permission = admin_tenants;
}

analyst_granted : (evaluate_access analyst plan_request).is_authorized ≡ true
unfolding evaluate_access mem user_perms role_discrete permission_discrete level
analyst_granted = refl

commander_granted : (evaluate_access commander admin_request).is_authorized ≡ true
unfolding evaluate_access mem user_perms role_discrete permission_discrete level
commander_granted = refl

analyst_refused : (evaluate_access analyst admin_request).is_authorized ≡ false
unfolding evaluate_access mem user_perms role_discrete permission_discrete level
analyst_refused = refl

evaluate_access-MayAccess_example : MayAccess analyst plan_request
evaluate_access-MayAccess_example =
    (evaluate_access-MayAccess analyst plan_request).0 analyst_granted
