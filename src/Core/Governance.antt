-- ===== src/Core/Governance.antt =====
-- core/governance.py: actions, memberships, credentials and changes of authority.
pub mod Scopes
pub mod Changes
pub mod Exports
use digital_colleagues.Base.{
  ℕ, zero, suc, ◌+◌, ◌-◌, ◌*◌, ◌/◌, ◌%◌, ◌≤◌, ◌<◌, ◌≡◌, refl, sym, ap, ◌∙◌, ◌≢◌, ◌↔◌, ◌⊎◌, inl, inr,
  Bool, true, false, not, ◌&&◌, ◌||◌, Option, none, some, List, [], ◌∷◌, ◌++◌, map, String, arith,
  Eq, ◌==◌, nat_eq, string_eq, option_eq, list_eq, String-discrete, ℕ_discrete, ltb, leb,
  if◌then◌else◌, Bool-cases, Error, Result, ok, err, ◌>>=◌, ◌>>◌, require, core_invariant,
  namespace_mismatch, revision_mismatch, authorization, replay, lifecycle, >>=-ok_parts,
}
use digital_colleagues.Base.Lists.{elem, unique, each}
use digital_colleagues.Core.Common.{
  DateTime, require_stable_id, require_schema_version, require_revision, require_utc,
  require_digest, freeze_strings, require_optional_id, require_optional, given, filled,
}
use digital_colleagues.Core.Namespace.{
  Namespace, NamespaceScope, tenant, colleague, principal, scope_eq, require_principal,
  require_same_tenant, require_colleague,
}
use digital_colleagues.Core.Principals.{
  HumanRole, tenant_admin, role_eq, Principal, PrincipalKind, human, kind_eq,
}

pub data AuthorizationAction : Type 0 where
  read_session_security read_colleague read_governance assign_work submit_trigger :
      AuthorizationAction
  process_runtime decide_effect manage_draft propose_change decide_change : AuthorizationAction
  apply_change manage_credential manage_membership export_audit : AuthorizationAction
  read_agent_packages manage_agent_packages read_deployments : AuthorizationAction
  manage_deployments select_deployment read_deployment_audit : AuthorizationAction

unfoldable pub AuthorizationAction-discrete : Discrete AuthorizationAction
AuthorizationAction-discrete = hlevel

instance abbrev pub action_eq : Eq AuthorizationAction
action_eq = record { decide_eq = AuthorizationAction-discrete }

pub data MembershipStatus : Type 0 where
  active revoked : MembershipStatus

unfoldable pub MembershipStatus-discrete : Discrete MembershipStatus
MembershipStatus-discrete = hlevel

instance abbrev pub status_eq : Eq MembershipStatus
status_eq = record { decide_eq = MembershipStatus-discrete }

pub record Membership : Type 0 where
  pub namespace : Namespace
  pub membership_id : String
  pub principal_id : String
  pub roles : List HumanRole
  pub colleague_ids : List String
  pub status : MembershipStatus
  pub role_revision : ℕ
  pub membership_revision : ℕ
  pub issued_by : Principal
  pub created_at : DateTime
  pub updated_at : DateTime
  pub correlation_id : String
  pub causation_id : String
  pub revision : ℕ
  pub schema_version : ℕ

-- The scope of a whole tenant, `("*",)`.
abbrev pub every_colleague : List String
every_colleague = "*" ∷ []

-- The test of `"*" in ids`, and what each branch requires.
abbrev pub check_scopes : Bool → List String → Result (Unit {0})
check_scopes may_cover_tenant ids =
    if elem "*" ids
    then require (ids == every_colleague && may_cover_tenant) authorization
    else each require_stable_id ids

-- `Membership.__post_init__`
unfoldable pub construct_membership : Membership → Result Membership
construct_membership self = do
  require_schema_version self.schema_version
  require_stable_id self.membership_id
  require_stable_id self.principal_id
  require_principal self.namespace self.principal_id
  require (filled self.roles && unique self.roles) core_invariant
  require (filled self.colleague_ids && unique self.colleague_ids) core_invariant
  check_scopes (elem tenant_admin self.roles) self.colleague_ids
  require_revision self.role_revision
  require_revision self.membership_revision
  require (self.issued_by.kind == human) authorization
  require_same_tenant self.namespace self.issued_by.namespace
  require_utc self.created_at
  require_utc self.updated_at
  require (leb self.created_at.clock self.updated_at.clock) core_invariant
  require_stable_id self.correlation_id
  require_stable_id self.causation_id
  require_revision self.revision
  ok self

-- `namespace.scope_id in self.colleague_ids`
abbrev pub in_scope : Option String → List String → Bool
in_scope none ids = false
in_scope (some id) ids = elem id ids

abbrev allows_scope : Membership → NamespaceScope → Option String → Bool
allows_scope self tenant scope_id = self.colleague_ids == every_colleague
allows_scope self principal scope_id = scope_id == some self.principal_id
allows_scope self colleague scope_id =
    self.colleague_ids == every_colleague || in_scope scope_id self.colleague_ids

-- `Membership.allows_namespace`
unfoldable pub allows_namespace : Membership → Namespace → Result Bool
allows_namespace self namespace = do
  require_same_tenant self.namespace namespace
  ok (if self.status == active then allows_scope self namespace.scope namespace.scope_id else false)

pub data CredentialKind : Type 0 where
  enrollment recovery : CredentialKind

pub data CredentialState : Type 0 where
  authorized retrieved consumed revoked expired : CredentialState

pub record GovernanceCredential : Type 0 where
  pub namespace : Namespace
  pub credential_id : String
  pub kind : CredentialKind
  pub state : CredentialState
  pub target_principal_id : Option String
  pub target_role_revision : Option ℕ
  pub target_membership_revision : Option ℕ
  pub target_role : Option HumanRole
  pub colleague_ids : List String
  pub bootstrap_transition : Bool
  pub issued_by_principal_id : String
  pub issued_at : DateTime
  pub expires_at : DateTime
  pub correlation_id : String
  pub causation_id : String
  pub token_digest : Option String
  pub change_decision_id : Option String
  pub retrieved_at : Option DateTime
  pub consumed_at : Option DateTime
  pub revoked_at : Option DateTime
  pub consumed_principal_id : Option String
  pub revision : ℕ
  pub schema_version : ℕ

-- What the kind of a credential says of its target.
abbrev target_fits : CredentialKind → GovernanceCredential → Bool
target_fits enrollment self =
    given self.target_role
    && not (given self.target_principal_id)
    && not (given self.target_role_revision)
    && not (given self.target_membership_revision)
target_fits recovery self =
    given self.target_principal_id
    && not (given self.target_role)
    && given self.target_role_revision
    && given self.target_membership_revision

abbrev is_enrollment : CredentialKind → Bool
is_enrollment enrollment = true
is_enrollment recovery = false

-- The fields that a state requires.
abbrev state_fits : CredentialState → GovernanceCredential → Bool
state_fits authorized self = true
state_fits retrieved self = given self.token_digest && given self.retrieved_at
state_fits consumed self = given self.consumed_at
state_fits revoked self = given self.revoked_at
state_fits expired self = true

-- `GovernanceCredential.__post_init__`
unfoldable pub construct_credential : GovernanceCredential → Result GovernanceCredential
construct_credential self = do
  require_schema_version self.schema_version
  require (self.namespace.scope == tenant) core_invariant
  require_stable_id self.credential_id
  require (target_fits self.kind self) core_invariant
  require_optional_id self.target_principal_id
  require_optional require_revision self.target_role_revision
  require_optional require_revision self.target_membership_revision
  require (filled self.colleague_ids && unique self.colleague_ids) core_invariant
  check_scopes (elem self.target_role (some tenant_admin ∷ none ∷ [])) self.colleague_ids
  require
      (not self.bootstrap_transition
        || is_enrollment self.kind && self.target_role == some tenant_admin)
      authorization
  require_stable_id self.issued_by_principal_id
  require_utc self.issued_at
  require_utc self.expires_at
  require (ltb self.issued_at.clock self.expires_at.clock) core_invariant
  require_optional require_digest self.token_digest
  require_optional_id self.change_decision_id
  require_optional require_utc self.retrieved_at
  require_optional require_utc self.consumed_at
  require_optional require_utc self.revoked_at
  require (state_fits self.state self) core_invariant
  require_optional_id self.consumed_principal_id
  require_stable_id self.correlation_id
  require_stable_id self.causation_id
  require_revision self.revision
  ok self
