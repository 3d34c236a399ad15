-- ===== src/Store/Contracts.antt =====
-- application/contracts.py: what the outbox, the channel and the runtime pass to each other.
use digital_colleagues.Base.{ℕ, String, nat_eq, string_eq, option_eq, list_eq, Result, ok, ◌>>◌}
use digital_colleagues.Core.Common.{
  DateTime, require_stable_id, require_schema_version, require_revision, require_utc,
  require_digest,
}
use digital_colleagues.Core.Common.Json.{FrozenJsonObject}
use digital_colleagues.Core.Namespace.{
  Namespace, require_colleague, require_exact, require_same_tenant, namespace_eq,
}
use digital_colleagues.Core.Principals.{Principal}
use digital_colleagues.Core.Effects.{EffectProposal}
use digital_colleagues.Core.Effects.Approval.{HumanApprovalDecision}
use digital_colleagues.Core.Effects.Attempt.{EffectAttempt}

pub data ChannelOutcomeKind : Type 0 where
  succeeded known_not_executed retryable_failure permanent_failure ambiguous : ChannelOutcomeKind

pub record ChannelOutcome : Type 0 where
  pub kind : ChannelOutcomeKind
  pub safe_projection : FrozenJsonObject
  pub result_digest : String
  pub schema_version : ℕ

-- `ChannelOutcome.__post_init__`
unfoldable pub construct_outcome : ChannelOutcome → Result ChannelOutcome
construct_outcome self = do
  require_schema_version self.schema_version
  require_digest self.result_digest
  ok self

pub data ReconciliationKind : Type 0 where
  confirmed_applied confirmed_absent still_unknown : ReconciliationKind

pub record ReconciliationOutcome : Type 0 where
  pub kind : ReconciliationKind
  pub safe_projection : FrozenJsonObject
  pub result_digest : String
  pub schema_version : ℕ

-- `ReconciliationOutcome.__post_init__`
unfoldable pub construct_reconciliation : ReconciliationOutcome → Result ReconciliationOutcome
construct_reconciliation self = do
  require_schema_version self.schema_version
  require_digest self.result_digest
  ok self

pub record OutboxClaim : Type 0 where
  pub namespace : Namespace
  pub outbox_id : String
  pub proposal_id : String
  pub approval_decision_id : String
  pub effect_attempt_id : String
  pub effect_idempotency_key : String
  pub attempt_number : ℕ
  pub lease_owner : String
  pub lease_until : DateTime
  pub fencing_token : ℕ
  pub schema_version : ℕ

-- `OutboxClaim.__post_init__`
unfoldable pub construct_claim : OutboxClaim → Result OutboxClaim
construct_claim self = do
  require_schema_version self.schema_version
  require_colleague self.namespace
  require_stable_id self.outbox_id
  require_stable_id self.proposal_id
  require_stable_id self.approval_decision_id
  require_stable_id self.effect_attempt_id
  require_stable_id self.effect_idempotency_key
  require_stable_id self.lease_owner
  require_revision self.attempt_number
  require_utc self.lease_until
  require_revision self.fencing_token
  ok self

pub record DispatchBundle : Type 0 where
  pub proposal : EffectProposal
  pub approval : HumanApprovalDecision
  pub attempt : EffectAttempt
  pub approver : Principal
  pub effect_idempotency_key : String
  pub maximum_attempts : ℕ
  pub schema_version : ℕ

-- `DispatchBundle.__post_init__`
unfoldable pub construct_bundle : DispatchBundle → Result DispatchBundle
construct_bundle self = do
  require_schema_version self.schema_version
  require_exact self.proposal.namespace self.approval.namespace
  require_exact self.proposal.namespace self.attempt.namespace
  require_same_tenant self.proposal.namespace self.approver.namespace
  require_stable_id self.effect_idempotency_key
  require_revision self.maximum_attempts
  ok self
