-- ===== src/Governance/Rbac.antt =====
-- governance/rbac.py: the finite matrix of roles and actions, and the decision of one action.
pub mod Exact
pub mod Roles
use digital_colleagues.Base.{
  ℕ, zero, suc, ◌+◌, ◌-◌, ◌*◌, ◌/◌, ◌%◌, ◌≤◌, ◌<◌, ◌≡◌, refl, sym, ap, ◌∙◌, ◌≢◌, ◌↔◌, ◌⊎◌, inl, inr,
  Bool, true, false, not, ◌&&◌, ◌||◌, Option, none, some, List, [], ◌∷◌, ◌++◌, map, String, arith,
  Eq, ◌==◌, nat_eq, string_eq, option_eq, list_eq, String-discrete, ℕ_discrete, ltb, leb,
  if◌then◌else◌, Bool-cases, Error, Result, ok, err, ◌>>=◌, ◌>>◌, require, core_invariant,
  namespace_mismatch, revision_mismatch, authorization, replay, lifecycle, >>=-ok_parts,
}
use digital_colleagues.Base.Lists.{elem, any}
use digital_colleagues.Core.Namespace.{Namespace, namespace_eq, require_exact, require_same_tenant}
use digital_colleagues.Core.Principals.{
  Principal, HumanRole, tenant_admin, colleague_user, auditor, role_eq, human, kind_eq,
}
use digital_colleagues.Core.Governance.{
  AuthorizationAction, read_session_security, read_colleague, read_governance, assign_work,
  submit_trigger, process_runtime, decide_effect, export_audit, read_agent_packages,
  read_deployments, select_deployment, read_deployment_audit, action_eq, Membership, active,
  status_eq, allows_namespace,
}

-- `action in ROLE_ACTIONS[role]`; an Admin has every action.
abbrev pub role_allows : AuthorizationAction → HumanRole → Bool
role_allows action tenant_admin = true
role_allows action colleague_user = elem action (
    read_session_security ∷ read_colleague ∷ assign_work ∷ submit_trigger ∷ process_runtime
    ∷ decide_effect ∷ read_agent_packages ∷ read_deployments ∷ select_deployment ∷ [])
role_allows action auditor = elem action (
    read_session_security ∷ read_colleague ∷ read_governance ∷ export_audit ∷ read_agent_packages
    ∷ read_deployments ∷ read_deployment_audit ∷ [])

-- `authorize_action`
unfoldable pub authorize_action :
    Principal → Membership → AuthorizationAction → Namespace → Result (Unit {0})
authorize_action principal' membership action namespace = do
  require (principal'.kind == human) authorization
  require_exact principal'.namespace membership.namespace
  require_same_tenant namespace principal'.namespace
  require (membership.status == active) authorization
  require (membership.roles == principal'.roles && membership.role_revision == principal'.revision)
      authorization
  allowed ← allows_namespace membership namespace
  require allowed authorization
  require (any (role_allows action) membership.roles) authorization
