-- ===== src/Core/Governance/Changes.antt =====
-- core/governance.py: changes of authority, proposed by one human and decided by another.
pub mod Binding
use digital_colleagues.Base.{
  ℕ, zero, suc, ◌+◌, ◌-◌, ◌*◌, ◌/◌, ◌%◌, ◌≤◌, ◌<◌, ◌≡◌, refl, sym, ap, ◌∙◌, ◌≢◌, ◌↔◌, ◌⊎◌, inl, inr,
  Bool, true, false, not, ◌&&◌, ◌||◌, Option, none, some, List, [], ◌∷◌, ◌++◌, map, String, arith,
  Eq, ◌==◌, nat_eq, string_eq, option_eq, list_eq, List-discrete, Option-discrete, String-discrete,
  ℕ_discrete, ltb, leb, if◌then◌else◌, Bool-cases, Error, Result, ok, err, ◌>>=◌, ◌>>◌, require,
  core_invariant, namespace_mismatch, revision_mismatch, authorization, replay, lifecycle,
  >>=-ok_parts,
}
use digital_colleagues.Base.Lists.{elem, each}
use digital_colleagues.Base.Sorting.{sort, str_leb, elem-sort}
use digital_colleagues.Core.Common.{
  DateTime, require_stable_id, require_schema_version, require_revision, require_utc,
  require_digest, freeze_strings, require_optional_id, require_optional, given,
}
use digital_colleagues.Core.Common.Json.{
  Value, text, null, integer, pos, array, mapping, Entries, entry, empty, Values,
}
use digital_colleagues.Core.Namespace.{
  Namespace, NamespaceScope, tenant, colleague, scope_eq, require_colleague,
}
use digital_colleagues.Core.Principals.{HumanRole}
use digital_colleagues.Core.Effects.Envelope.{texts, role_value}
use digital_colleagues.Core.Governance.{MembershipStatus, active, revoked, every_colleague}

pub data ChangeKind : Type 0 where
  draft membership admin_enrollment : ChangeKind

abbrev pub is_draft : ChangeKind → Bool
is_draft draft = true
is_draft _ = false

pub data ChangeState : Type 0 where
  pending approved rejected expired stale applied : ChangeState

abbrev pub is_applied : ChangeState → Bool
is_applied applied = true
is_applied _ = false

pub data ChangeChoice : Type 0 where
  approve reject : ChangeChoice

abbrev pub change_kind_value : ChangeKind → String
change_kind_value draft = "draft"
change_kind_value membership = "membership"
change_kind_value admin_enrollment = "admin_enrollment"

abbrev pub status_value : MembershipStatus → String
status_value active = "active"
status_value revoked = "revoked"

abbrev pub optional_role : Option HumanRole → Value
optional_role none = null
optional_role (some role) = text (role_value role)

abbrev pub optional_status : Option MembershipStatus → Value
optional_status none = null
optional_status (some status) = text (status_value status)

-- The keyword arguments of `governance_change_digest`.
pub record Change : Type 0 where
  pub change_kind : ChangeKind
  pub target_id : String
  pub target_revision : ℕ
  pub proposed_role : Option HumanRole
  pub proposed_status : Option MembershipStatus
  pub proposed_colleague_ids : List String

-- The document that the digest of a change covers.
abbrev pub change_document : Change → Value
change_document self = mapping (
    entry "digest_schema_version" (integer (pos 1)) (
      entry "change_kind" (text (change_kind_value self.change_kind)) (
        entry "target_id" (text self.target_id) (
          entry "target_revision" (integer (pos self.target_revision)) (
            entry "proposed_role" (optional_role self.proposed_role) (
              entry "proposed_status" (optional_status self.proposed_status) (
                entry "proposed_colleague_ids"
                  (array (texts (sort str_leb self.proposed_colleague_ids))) empty)))))))

-- `governance_change_digest`, for a digest of documents.
unfoldable pub governance_change_digest : (Value → String) → Change → Result String
governance_change_digest canonical_digest self = do
  require_stable_id self.target_id
  require_revision self.target_revision
  ok (canonical_digest (change_document self))

pub record ChangeProposal : Type 0 where
  pub namespace : Namespace
  pub proposal_id : String
  pub change_kind : ChangeKind
  pub target_id : String
  pub target_revision : ℕ
  pub canonical_digest : String
  pub base_profile_revision : ℕ
  pub base_mandate_revision : ℕ
  pub base_policy_revision : ℕ
  pub proposed_role : Option HumanRole
  pub proposed_status : Option MembershipStatus
  pub proposed_colleague_ids : List String
  pub proposer_principal_id : String
  pub proposer_role_revision : ℕ
  pub proposer_membership_revision : ℕ
  pub issued_at : DateTime
  pub expires_at : DateTime
  pub state : ChangeState
  pub idempotency_key : String
  pub request_digest : String
  pub correlation_id : String
  pub causation_id : String
  pub decision_id : Option String
  pub consumed_at : Option DateTime
  pub revision : ℕ
  pub schema_version : ℕ

-- `if scope != "*": require_stable_id(scope)`
abbrev pub check_scope : String → Result (Unit {0})
check_scope scope = if scope == "*" then ok tt else require_stable_id scope

-- `ChangeProposal.__post_init__`
unfoldable pub construct_proposal : ChangeProposal → Result ChangeProposal
construct_proposal self = do
  require_schema_version self.schema_version
  require (self.namespace.scope == tenant || self.namespace.scope == colleague) core_invariant
  require_stable_id self.proposal_id
  (if is_draft self.change_kind
      then require_colleague self.namespace
      else require (self.namespace.scope == tenant) core_invariant)
  require_stable_id self.target_id
  require_revision self.target_revision
  require_digest self.canonical_digest
  scopes ← freeze_strings (is_draft self.change_kind) self.proposed_colleague_ids
  require (not (elem "*" scopes) || scopes == every_colleague) authorization
  each check_scope scopes
  require_stable_id self.proposer_principal_id
  require_revision self.proposer_role_revision
  require_revision self.proposer_membership_revision
  require_utc self.issued_at
  require_utc self.expires_at
  require (ltb self.issued_at.clock self.expires_at.clock) core_invariant
  require_stable_id self.idempotency_key
  require_digest self.request_digest
  require_stable_id self.correlation_id
  require_stable_id self.causation_id
  require_optional_id self.decision_id
  require_optional require_utc self.consumed_at
  require (not (is_applied self.state) || given self.consumed_at) core_invariant
  require_revision self.revision
  ok (record self { proposed_colleague_ids = scopes })

pub record ChangeDecision : Type 0 where
  pub namespace : Namespace
  pub decision_id : String
  pub proposal_id : String
  pub proposal_revision : ℕ
  pub proposal_digest : String
  pub choice : ChangeChoice
  pub approver_principal_id : String
  pub approver_role_revision : ℕ
  pub approver_membership_revision : ℕ
  pub occurred_at : DateTime
  pub valid_until : DateTime
  pub idempotency_key : String
  pub request_digest : String
  pub correlation_id : String
  pub causation_id : String
  pub consumed_at : Option DateTime
  pub revision : ℕ
  pub schema_version : ℕ

-- `ChangeDecision.__post_init__`
unfoldable pub construct_decision : ChangeDecision → Result ChangeDecision
construct_decision self = do
  require_schema_version self.schema_version
  require_stable_id self.decision_id
  require_stable_id self.proposal_id
  require_revision self.proposal_revision
  require_digest self.proposal_digest
  require_stable_id self.approver_principal_id
  require_revision self.approver_role_revision
  require_revision self.approver_membership_revision
  require_utc self.occurred_at
  require_utc self.valid_until
  require (leb self.occurred_at.clock self.valid_until.clock) core_invariant
  require_stable_id self.idempotency_key
  require_digest self.request_digest
  require_stable_id self.correlation_id
  require_stable_id self.causation_id
  require (self.causation_id == self.proposal_id) core_invariant
  require_optional require_utc self.consumed_at
  require_revision self.revision
  ok self
