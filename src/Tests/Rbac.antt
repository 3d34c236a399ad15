-- ===== src/Tests/Rbac.antt =====
-- Decisions of actions at concrete inputs.
use digital_colleagues.Base.{
  ◌≡◌, refl, ◌≢◌, ◌↔◌, true, false, none, some, List, [], ◌∷◌, String, nat_eq, string_eq, option_eq,
  list_eq, ok,
}
use digital_colleagues.Base.Lists.{elem}
use digital_colleagues.Core.Namespace.{Namespace, tenant, colleague}
use digital_colleagues.Core.Principals.{Principal, tenant_admin, colleague_user, auditor, role_eq}
use digital_colleagues.Core.Governance.{
  Membership, active, construct_membership, allows_namespace, in_scope, decide_effect, apply_change,
  export_audit, MembershipStatus-discrete, AuthorizationAction, AuthorizationAction-discrete,
}
use digital_colleagues.Governance.Rbac.{authorize_action}
use digital_colleagues.Governance.Rbac.Exact.{IsAuthorized, authorize_action_exact}
use digital_colleagues.Governance.Rbac.Roles.{
  changes_authority_admin, auditor_only_exports, confined_without_admin,
}
use digital_colleagues.Tests.Samples.{running, at, office, person, boss, user}

abbrev member : Principal → List String → Membership
member who ids = record {
  namespace = who.namespace;
  membership_id = "membership";
  principal_id = who.principal_id;
  roles = who.roles;
  colleague_ids = ids;
  status = active;
  role_revision = who.revision;
  membership_revision = 1;
  issued_by = boss;
  created_at = at 0;
  updated_at = at 0;
  correlation_id = "c-1";
  causation_id = "c-0";
  revision = 1;
  schema_version = 1;
}

abbrev head_office : Namespace
head_office = record { tenant_id = "acme"; scope = tenant; scope_id = none }

abbrev watcher : Principal
watcher = record user { principal_id = "eve"; namespace = person "eve"; roles = auditor ∷ [] }

user_decides : authorize_action user (member user ("ada" ∷ [])) decide_effect office ≡ ok tt
unfolding authorize_action allows_namespace MembershipStatus-discrete AuthorizationAction-discrete
    running
user_decides = refl

boss_applies : authorize_action boss (member boss ("*" ∷ [])) apply_change head_office ≡ ok tt
unfolding authorize_action allows_namespace MembershipStatus-discrete AuthorizationAction-discrete
    running
boss_applies = refl

watcher_exports : authorize_action watcher (member watcher ("ada" ∷ [])) export_audit office ≡ ok tt
unfolding authorize_action allows_namespace MembershipStatus-discrete AuthorizationAction-discrete
    running
watcher_exports = refl

member_constructed : construct_membership (member user ("ada" ∷ [])) ≡ ok (member user ("ada" ∷ []))
unfolding construct_membership running
member_constructed = refl

plain_user : elem tenant_admin (colleague_user ∷ []) ≡ false
unfolding running
plain_user = refl

authorize_action_exact_example :
    (authorize_action user (member user ("ada" ∷ [])) decide_effect office ≡ ok tt)
    ↔ IsAuthorized user (member user ("ada" ∷ [])) decide_effect office
authorize_action_exact_example =
    authorize_action_exact user (member user ("ada" ∷ [])) decide_effect office

changes_authority_admin_example : elem tenant_admin (tenant_admin ∷ []) ≡ true
changes_authority_admin_example =
    changes_authority_admin boss (member boss ("*" ∷ [])) apply_change head_office refl boss_applies

auditor_only_exports_example : ◌≡◌ {A = AuthorizationAction} export_audit export_audit
auditor_only_exports_example =
    auditor_only_exports watcher (member watcher ("ada" ∷ [])) export_audit office refl refl
      watcher_exports

confined_without_admin_example :
    (office.scope ≢ tenant) × (office.scope ≡ colleague → in_scope (some "ada") ("ada" ∷ []) ≡ true)
confined_without_admin_example =
    confined_without_admin user (member user ("ada" ∷ [])) decide_effect office member_constructed
      plain_user user_decides
