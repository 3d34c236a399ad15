-- ===== src/Governance/Rbac/Exact.antt =====
-- When an action is authorized.
use digital_colleagues.Base.{
  ◌≡◌, ◌↔◌, ◌⊎◌, true, some, arith, nat_eq, string_eq, option_eq, list_eq, ok,
}
use digital_colleagues.Base.Lists.{any}
use digital_colleagues.Core.Namespace.{Namespace, tenant, principal, colleague}
use digital_colleagues.Core.Principals.{Principal, human}
use digital_colleagues.Core.Governance.{
  AuthorizationAction, Membership, active, allows_namespace, every_colleague, in_scope,
}
use digital_colleagues.Governance.Rbac.{role_allows, authorize_action}

-- A human with a current and active membership of the tenant, which covers the namespace, and one
-- of whose roles has the action.
pub record IsAuthorized (actor : Principal) (membership : Membership) (action : AuthorizationAction)
    (namespace : Namespace) : Type 0 where
  pub is_human : actor.kind ≡ human
  pub bound : actor.namespace ≡ membership.namespace
  pub one_tenant : namespace.tenant_id ≡ membership.namespace.tenant_id
  pub is_active : membership.status ≡ active
  pub current_roles : membership.roles ≡ actor.roles
  pub current_revision : membership.role_revision ≡ actor.revision
  pub whole_tenant : namespace.scope ≡ tenant → membership.colleague_ids ≡ every_colleague
  pub own : namespace.scope ≡ principal → namespace.scope_id ≡ some membership.principal_id
  pub covered :
      namespace.scope ≡ colleague
      → (membership.colleague_ids ≡ every_colleague)
        ⊎ (in_scope namespace.scope_id membership.colleague_ids ≡ true)
  pub has_action : any (role_allows action) membership.roles ≡ true

module _ (actor : Principal) (membership : Membership) (action : AuthorizationAction)
    (namespace : Namespace) where
  IsAuthorized-of_ok :
      authorize_action actor membership action namespace ≡ ok tt
      → IsAuthorized actor membership action namespace
  unfolding authorize_action allows_namespace
  IsAuthorized-of_ok h = record {
    is_human = ground arith;
    bound = ground arith;
    one_tenant = ground arith;
    is_active = ground arith;
    current_roles = ground arith;
    current_revision = ground arith;
    whole_tenant = λ e. ground arith;
    own = λ e. ground arith;
    covered = λ e. ground arith;
    has_action = ground arith;
  }

  ok_of_IsAuthorized :
      IsAuthorized actor membership action namespace
      → authorize_action actor membership action namespace ≡ ok tt
  unfolding authorize_action allows_namespace
  ok_of_IsAuthorized a = ground arith

  -- `authorize_action` passes exactly when the action is authorized.
  pub authorize_action_exact :
      (authorize_action actor membership action namespace ≡ ok tt)
      ↔ IsAuthorized actor membership action namespace
  authorize_action_exact = (IsAuthorized-of_ok, ok_of_IsAuthorized)
