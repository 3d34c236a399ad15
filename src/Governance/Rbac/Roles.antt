-- ===== src/Governance/Rbac/Roles.antt =====
-- What the roles can and cannot do.
use digital_colleagues.Base.{
  ◌≡◌, refl, ◌≢◌, inl, inr, Bool, true, false, List, [], ◌∷◌, arith, nat_eq, string_eq, option_eq,
  list_eq, ok,
}
use digital_colleagues.Base.Lists.{any, elem}
use digital_colleagues.Core.Namespace.{Namespace, tenant, colleague}
use digital_colleagues.Core.Principals.{
  Principal, HumanRole, tenant_admin, colleague_user, auditor, role_eq,
}
use digital_colleagues.Core.Governance.{
  AuthorizationAction, AuthorizationAction-discrete, assign_work, submit_trigger, process_runtime,
  decide_effect, manage_draft, propose_change, decide_change, apply_change, manage_credential,
  manage_membership, manage_agent_packages, manage_deployments, select_deployment, export_audit,
  Membership, construct_membership, in_scope,
}
use digital_colleagues.Core.Governance.Scopes.{tenant_scope_admin}
use digital_colleagues.Governance.Rbac.{role_allows, authorize_action}
use digital_colleagues.Governance.Rbac.Exact.{authorize_action_exact}

-- Actions that change the authority of somebody.
abbrev pub changes_authority : AuthorizationAction → Bool
changes_authority manage_draft = true
changes_authority propose_change = true
changes_authority decide_change = true
changes_authority apply_change = true
changes_authority manage_credential = true
changes_authority manage_membership = true
changes_authority manage_agent_packages = true
changes_authority manage_deployments = true
changes_authority _ = false

-- The actions that change work, the runtime, effects, deployments or authority, and the export of
-- audit records, which adds a record of its own.
abbrev pub writes : AuthorizationAction → Bool
writes export_audit = true
writes assign_work = true
writes submit_trigger = true
writes process_runtime = true
writes decide_effect = true
writes select_deployment = true
writes action = changes_authority action

role_changes_authority :
    (action : AuthorizationAction) (role : HumanRole)
    → changes_authority action ≡ true
    → role_allows action role ≡ true
    → role ≡ tenant_admin
unfolding AuthorizationAction-discrete
role_changes_authority action tenant_admin c h = refl
role_changes_authority action colleague_user c h = ground arith
role_changes_authority action auditor c h = ground arith

admin_of_any :
    (action : AuthorizationAction) (roles : List HumanRole)
    → changes_authority action ≡ true
    → any (role_allows action) roles ≡ true
    → elem tenant_admin roles ≡ true
admin_of_any action [] c h = cc
admin_of_any action (role ∷ roles) c h =
    ground (arith, role_changes_authority action role c, admin_of_any action roles c)

-- Only an Admin is authorized to change authority.
pub changes_authority_admin :
    (actor : Principal) (membership : Membership) (action : AuthorizationAction)
    (namespace : Namespace)
    → changes_authority action ≡ true
    → authorize_action actor membership action namespace ≡ ok tt
    → elem tenant_admin membership.roles ≡ true
changes_authority_admin actor membership action namespace c h =
    let a = (authorize_action_exact actor membership action namespace).0 h in
    admin_of_any action membership.roles c a.has_action

auditor_writes :
    (action : AuthorizationAction)
    → role_allows action auditor ≡ true
    → writes action ≡ true
    → action ≡ export_audit
unfolding AuthorizationAction-discrete
auditor_writes action h w = ground arith

-- Who is an auditor and nothing else is authorized for none of the actions that change work, the
-- runtime, effects, deployments or authority: of these and the export of audit records, only for
-- the export.
pub auditor_only_exports :
    (actor : Principal) (membership : Membership) (action : AuthorizationAction)
    (namespace : Namespace)
    → membership.roles ≡ auditor ∷ []
    → writes action ≡ true
    → authorize_action actor membership action namespace ≡ ok tt
    → action ≡ export_audit
auditor_only_exports actor membership action namespace e w h =
    let a = (authorize_action_exact actor membership action namespace).0 h in
    auditor_writes action (only (rw e at a.has_action)) w
  where
    only : any (role_allows action) (auditor ∷ []) ≡ true → role_allows action auditor ≡ true
    only p = ground arith

-- Without the role of an Admin, a constructed membership never reaches the tenant namespace, and
-- the namespace of a colleague only if the colleague is named in it.
pub confined_without_admin :
    (actor : Principal) (membership : Membership) (action : AuthorizationAction)
    (namespace : Namespace)
    → construct_membership membership ≡ ok membership
    → elem tenant_admin membership.roles ≡ false
    → authorize_action actor membership action namespace ≡ ok tt
    → (namespace.scope ≢ tenant)
      × (namespace.scope ≡ colleague → in_scope namespace.scope_id membership.colleague_ids ≡ true)
confined_without_admin actor membership action namespace built plain h =
    let a = (authorize_action_exact actor membership action namespace).0 h in
    (
      λ e. cc (plain, tenant_scope_admin membership built (a.whole_tenant e)),
      λ e. elim (a.covered e) [
        | inl all ↦ cc (plain, tenant_scope_admin membership built all)
        | inr named ↦ named
      ],
    )
