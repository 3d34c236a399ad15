-- ===== src/Governance/Approvals.antt =====
-- governance/approvals.py: the authority of effects and of human approvals.
pub mod Boundary
pub mod Parameters
pub mod Exact
pub mod Binding
use digital_colleagues.Base.{
  ℕ, zero, suc, ◌+◌, ◌-◌, ◌*◌, ◌/◌, ◌%◌, ◌≤◌, ◌<◌, ◌≡◌, refl, sym, ap, ◌∙◌, ◌≢◌, ◌↔◌, ◌⊎◌, inl, inr,
  Bool, true, false, not, ◌&&◌, ◌||◌, Option, none, some, List, [], ◌∷◌, ◌++◌, map, String, arith,
  Eq, ◌==◌, nat_eq, string_eq, option_eq, list_eq, List-discrete, Option-discrete, String-discrete,
  ℕ_discrete, ltb, leb, if◌then◌else◌, Bool-cases, Error, Result, ok, err, ◌>>=◌, ◌>>◌, require,
  core_invariant, namespace_mismatch, revision_mismatch, authorization, replay, lifecycle,
  >>=-ok_parts,
}
use digital_colleagues.Base.Lists.{elem, any, all}
use digital_colleagues.Core.Common.{
  DateTime, supported_schema, require_stable_id, require_schema_version, require_revision,
  require_utc, require_digest, freeze_strings,
}
use digital_colleagues.Core.Common.Json.{
  FrozenJsonObject, Value, boolean, Entries, empty, entry, is_empty,
}
use digital_colleagues.Core.Namespace.{Namespace, require_colleague, require_exact, namespace_eq}
use digital_colleagues.Core.Principals.{
  Principal, human, kind_eq, HumanRole, role_eq, canonical_role_ids,
}
use digital_colleagues.Core.Authority.{EffectBoundary, Mandate, effect_kind_eq}
use digital_colleagues.Core.Effects.{EffectProposal, pending_approval, approved, proposal_state_eq}
use digital_colleagues.Core.Effects.Approval.{HumanApprovalDecision, approve, choice_eq}

-- `require_authoritative_human_role`
abbrev pub require_authoritative_human_role :
    Principal → List HumanRole → List String → Result (Unit {0})
require_authoritative_human_role self accepted_roles [] = do
  require (self.kind == human) authorization
  require (any (λ role. elem role accepted_roles) self.roles) authorization
require_authoritative_human_role self accepted_roles (id ∷ ids) =
    canonical_role_ids (id ∷ ids) >>= λ role_ids. err authorization

-- The loop of `_typed_constraint_values`. The keys of a frozen object are distinct, so no entry of
-- `typed` replaces another. Of the values only Booleans have the one expected type.
unfoldable pub typed_entries : Entries → Result (List (String × Bool))
typed_entries empty = ok []
typed_entries (entry key (boolean value) rest) = do
  require (key == "network") authorization
  typed ← typed_entries rest
  ok ((key, value) ∷ typed)
typed_entries (entry key value rest) = err authorization

-- `_typed_constraint_values`
unfoldable pub typed_constraint_values : FrozenJsonObject → Result (List (String × Bool))
unfolding typed_entries
typed_constraint_values values = do
  require (not (is_empty values)) authorization
  typed_entries values.as_entries

-- A key of a dict of Booleans, and the test of its value.
abbrev pub has_key : String → List (String × Bool) → Bool
has_key key typed = any (λ item. key == item.0) typed

abbrev pub same_flag : Bool → Bool → Bool
same_flag true other = other
same_flag false other = not other

abbrev pub holds_value : String → Bool → List (String × Bool) → Bool
holds_value key value [] = false
holds_value key value (item ∷ typed) =
    if key == item.0 then same_flag value item.1 else holds_value key value typed

-- `_authorize_constraint_parameters`
unfoldable pub authorize_constraint_parameters :
    FrozenJsonObject → FrozenJsonObject → Result (Unit {0})
unfolding typed_constraint_values
authorize_constraint_parameters proposal authoritative = do
  proposed ← typed_constraint_values proposal
  authority ← typed_constraint_values authoritative
  require
      (all (λ item. has_key item.0 authority) proposed
        && all (λ item. has_key item.0 proposed) authority)
      authorization
  require (all (λ item. holds_value item.0 item.1 proposed) authority) authorization

-- The boundaries that a proposal names.
abbrev pub matching : String → List EffectBoundary → List EffectBoundary
matching boundary_id [] = []
matching boundary_id (boundary ∷ boundaries) =
    if boundary.boundary_id == boundary_id
    then boundary ∷ matching boundary_id boundaries
    else matching boundary_id boundaries

-- `if len(matching) != 1: raise`, and `matching[0]`
abbrev pub only_one : List EffectBoundary → Result EffectBoundary
only_one (boundary ∷ []) = ok boundary
only_one _ = err authorization

-- What `authorize_effect_proposal` asks of the boundary.
unfoldable pub check_boundary : EffectProposal → EffectBoundary → Result (Unit {0})
unfolding authorize_constraint_parameters
check_boundary proposal boundary = do
  require (proposal.effect_kind == boundary.effect_kind) authorization
  require (elem proposal.destination.kind boundary.allowed_destination_kinds) authorization
  require (elem proposal.action boundary.allowed_actions) authorization
  authorize_constraint_parameters proposal.constraints.parameters boundary.constraints
  require
      (proposal.state == (if boundary.human_approval_required then pending_approval else approved))
      authorization

-- `authorize_effect_proposal`
unfoldable pub authorize_effect_proposal : EffectProposal → Mandate → ℕ → Result (Unit {0})
unfolding check_boundary
authorize_effect_proposal proposal mandate expected_mandate_revision = do
  require_exact proposal.namespace mandate.namespace
  require (mandate.revision == expected_mandate_revision) revision_mismatch
  boundary ← only_one (matching proposal.constraints.boundary_id mandate.effect_boundaries)
  check_boundary proposal boundary

pub record ApprovalAuthorization : Type 0 where
  pub namespace : Namespace
  pub proposal_id : String
  pub proposal_revision : ℕ
  pub proposal_payload_digest : String
  pub proposal_digest : String
  pub approval_decision_id : String
  pub author_principal_id : String
  pub schema_version : ℕ

-- `ApprovalAuthorization.__post_init__`
unfoldable pub construct : ApprovalAuthorization → Result ApprovalAuthorization
construct self = do
  require_schema_version self.schema_version
  require_colleague self.namespace
  require_stable_id self.proposal_id
  require_revision self.proposal_revision
  require_digest self.proposal_payload_digest
  require_digest self.proposal_digest
  require_stable_id self.approval_decision_id
  require_stable_id self.author_principal_id
  ok self

-- The keyword arguments of `authorize_human_approval`.
pub record Evaluation : Type 0 where
  pub evaluated_at : DateTime
  pub consumed_decision_ids : List String
  pub consumed_idempotency_keys : List String
  pub consumed_proposal_revisions : List (String × ℕ)
  pub accepted_roles : List HumanRole
  pub caller_supplied_role_ids : List String

-- `(proposal_id, revision) in consumed_proposal_revisions`
abbrev pub is_consumed : String → ℕ → List (String × ℕ) → Bool
is_consumed proposal_id revision bindings =
    any (λ binding. proposal_id == binding.0 && revision == binding.1) bindings

-- What `authorize_human_approval` returns.
abbrev pub receipt : EffectProposal → HumanApprovalDecision → ApprovalAuthorization
receipt proposal decision = record {
  namespace = proposal.namespace;
  proposal_id = proposal.proposal_id;
  proposal_revision = proposal.revision;
  proposal_payload_digest = proposal.payload_digest;
  proposal_digest = proposal.proposal_digest;
  approval_decision_id = decision.approval_decision_id;
  author_principal_id = decision.author.principal_id;
  schema_version = supported_schema;
}

-- `authorize_human_approval`. Its points in time are in UTC, so their clocks compare.
unfoldable pub authorize_human_approval :
    EffectProposal → HumanApprovalDecision → Evaluation → Result ApprovalAuthorization
authorize_human_approval proposal decision e = do
  require_utc e.evaluated_at
  require_exact proposal.namespace decision.namespace
  require_authoritative_human_role decision.author e.accepted_roles e.caller_supplied_role_ids
  require (proposal.state == pending_approval) authorization
  require (decision.choice == approve) authorization
  require (decision.proposal_id == proposal.proposal_id) core_invariant
  require (decision.proposal_revision == proposal.revision) revision_mismatch
  require (decision.proposal_payload_digest == proposal.payload_digest) revision_mismatch
  require (decision.proposal_digest == proposal.proposal_digest) revision_mismatch
  require (decision.correlation_id == proposal.correlation_id) core_invariant
  require (not (ltb decision.occurred_at.clock proposal.occurred_at.clock)) core_invariant
  require (not (ltb e.evaluated_at.clock decision.occurred_at.clock)) authorization
  require (not (ltb proposal.constraints.valid_until.clock decision.valid_until.clock))
      authorization
  require
      (not (
        ltb proposal.constraints.valid_until.clock e.evaluated_at.clock
        || ltb decision.valid_until.clock e.evaluated_at.clock))
      authorization
  require (not (elem decision.approval_decision_id e.consumed_decision_ids)) replay
  require (not (elem decision.idempotency_key e.consumed_idempotency_keys)) replay
  require (not (is_consumed proposal.proposal_id proposal.revision e.consumed_proposal_revisions))
      replay
  construct (receipt proposal decision)
