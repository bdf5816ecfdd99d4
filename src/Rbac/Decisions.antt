-- ===== src/Rbac/Decisions.antt =====
-- What `evaluate_access` of rbac.py grants, and what it looks at.
use continuityos.Prelude.{
  ◌≤◌, List, [], ◌∷◌, ◌≡◌, ◌≢◌, ◌↔◌, ◌⊎◌, refl, true, Option, none, some, arith, eq_iff, mem,
  mem_iff, Any, Any-append, Any-map, Any-subset,
}
use continuityos.Domain.{level}
use continuityos.Rbac.{
  SovereignRole, sovereign_commander, Permission, admin_tenants, read_top_secret,
  canadian_eyes_only, role_discrete, permission_discrete, SovereignIdentity, AccessRequest,
  role_permissions, user_perms, is_canadian_eyes_only, evaluate_access, DisseminationControl,
}

-- The identity may act in the tenant; one of its roles has the permission; its clearance reaches
-- the resource; and a resource for Canadian eyes only is asked for by a Canadian.
pub record MayAccess (i : SovereignIdentity) (q : AccessRequest) : Type 0 where
  pub tenant : (i.tenant_id ≡ q.target_tenant_id) ⊎ Any (λ r. sovereign_commander ≡ r) i.roles
  pub permission : Any (λ r. Any (λ p. q.required_permission ≡ p) (role_permissions r)) i.roles
  pub clearance : level q.resource_classification ≤ level i.clearance_level
  pub nationality :
      q.required_dissemination ≡ some canadian_eyes_only → i.citizenship_nation ≡ "CAN"

user_perms_iff :
    (p : Permission) (roles : List SovereignRole)
    → Any (λ x. p ≡ x) (user_perms roles) ↔ Any (λ r. Any (λ x. p ≡ x) (role_permissions r)) roles
unfolding user_perms
user_perms_iff p [] = (λ h. h, λ h. h)
user_perms_iff p (r ∷ roles) = (
  λ h. ground (
    arith,
    (Any-append (λ x. p ≡ x) (role_permissions r) (user_perms roles)).0,
    (user_perms_iff p roles).0,
  ),
  λ h. ground (
    arith,
    (Any-append (λ x. p ≡ x) (role_permissions r) (user_perms roles)).1,
    (user_perms_iff p roles).1,
  ),
)

eyes_only_iff :
    (d : Option DisseminationControl)
    → (is_canadian_eyes_only d ≡ true) ↔ (d ≡ some canadian_eyes_only)
unfolding is_canadian_eyes_only
eyes_only_iff none = (λ h. cc, λ h. cc)
eyes_only_iff (some canadian_eyes_only) = (λ h. refl, λ h. refl)
eyes_only_iff (some _) = (λ h. cc, λ h. cc)

-- The permission test as the code makes it.
granted_iff :
    (i : SovereignIdentity) (p : Permission)
    → (mem permission_discrete p (user_perms i.roles) ≡ true)
      ↔ Any (λ r. Any (λ x. p ≡ x) (role_permissions r)) i.roles
granted_iff i p = (
  λ h. (user_perms_iff p i.roles).0 ((mem_iff permission_discrete p (user_perms i.roles)).0 h),
  λ h. (mem_iff permission_discrete p (user_perms i.roles)).1 ((user_perms_iff p i.roles).1 h),
)

-- Access is granted exactly when the identity is of the target tenant or a sovereign commander, of any
-- clearance; one of its roles has the permission; its clearance reaches the resource's; and it is
-- Canadian if the resource is for Canadian eyes only.
pub evaluate_access-MayAccess :
    (i : SovereignIdentity) (q : AccessRequest)
    → ((evaluate_access i q).is_authorized ≡ true) ↔ MayAccess i q
unfolding evaluate_access
evaluate_access-MayAccess i q = (
  λ h. record {
    tenant = ground (
      arith,
      eq_iff i.tenant_id q.target_tenant_id,
      (mem_iff role_discrete sovereign_commander i.roles).0,
    );
    permission = ground (arith, (granted_iff i q.required_permission).0);
    clearance = ground arith;
    nationality = λ e.
        ground
          (arith, (eyes_only_iff q.required_dissemination).1 e, eq_iff i.citizenship_nation "CAN");
  },
  λ h. ground (
    arith,
    eq_iff i.tenant_id q.target_tenant_id,
    (mem_iff role_discrete sovereign_commander i.roles).1,
    (granted_iff i q.required_permission).1,
    eyes_only_iff q.required_dissemination,
    eq_iff i.citizenship_nation "CAN",
  ),
)

commander_only_role :
    (p : Permission) (r : SovereignRole)
    → (p ≡ admin_tenants) ⊎ (p ≡ read_top_secret)
    → Any (λ x. p ≡ x) (role_permissions r)
    → sovereign_commander ≡ r
unfolding role_permissions
commander_only_role p sovereign_commander h g = refl
commander_only_role p _ h g = ground arith

-- Whoever is granted the administration of tenants or the reading of top secret material is a
-- sovereign commander.
commander_only :
    (i : SovereignIdentity) (q : AccessRequest)
    → (q.required_permission ≡ admin_tenants) ⊎ (q.required_permission ≡ read_top_secret)
    → (evaluate_access i q).is_authorized ≡ true
    → Any (λ r. sovereign_commander ≡ r) i.roles
commander_only i q h g =
    Any-map (λ r. commander_only_role q.required_permission r h) i.roles
      ((evaluate_access-MayAccess i q).0 g).permission

-- One identity has every credential of another: the same tenant and nation, more roles, and at
-- least the clearance.
pub record HasMore (i j : SovereignIdentity) : Type 0 where
  pub tenant : i.tenant_id ≡ j.tenant_id
  pub nation : i.citizenship_nation ≡ j.citizenship_nation
  pub clearance : level i.clearance_level ≤ level j.clearance_level
  pub roles : (r : SovereignRole) → Any (λ x. r ≡ x) i.roles → Any (λ x. r ≡ x) j.roles

-- More credentials never lose an access: what an identity is granted, one with the same tenant and
-- nation, all its roles and at least its clearance is granted too.
evaluate_access_mono :
    (i j : SovereignIdentity) (q : AccessRequest)
    → HasMore i j
    → (evaluate_access i q).is_authorized ≡ true
    → (evaluate_access j q).is_authorized ≡ true
evaluate_access_mono i j q m g =
    let may = (evaluate_access-MayAccess i q).0 g in
    (evaluate_access-MayAccess j q).1 (record {
      tenant = ground (arith, may.tenant, m.tenant, m.roles sovereign_commander);
      permission =
          Any-subset (λ r. Any (λ p. q.required_permission ≡ p) (role_permissions r)) i.roles
            j.roles m.roles may.permission;
      clearance = omega (arith, may.clearance, m.clearance);
      nationality = λ e. cc (m.nation, may.nationality e);
    })

-- A dissemination control other than Canadian eyes only, and the caveats that the identity holds,
-- change nothing in the decision.
evaluate_access_ignores_caveats :
    (i : SovereignIdentity) (q : AccessRequest) (d : DisseminationControl)
    (caveats : List DisseminationControl)
    → d ≢ canadian_eyes_only
    → evaluate_access
        (record i { authorized_caveats = caveats })
        (record q { required_dissemination = some d })
      ≡ evaluate_access i (record q { required_dissemination = none })
unfolding evaluate_access
evaluate_access_ignores_caveats i q canadian_eyes_only caveats h = absurd (h refl)
evaluate_access_ignores_caveats i q _ caveats h = refl
