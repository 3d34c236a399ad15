-- ===== src/Core/Policy/Records.antt =====
-- core/policy.py: records of the outcomes of a policy, and escalations.
use digital_colleagues.Base.{
  ℕ, Bool, true, false, not, Option, [], ◌∷◌, String, ◌==◌, nat_eq, string_eq, option_eq, list_eq,
  Result, ok, ◌>>◌, require, core_invariant,
}
use digital_colleagues.Base.Lists.{each}
use digital_colleagues.Core.Common.{
  DateTime, require_stable_id, require_schema_version, require_revision, require_utc,
  require_digest, require_optional_id,
}
use digital_colleagues.Core.Common.Json.{FrozenJsonObject}
use digital_colleagues.Core.Common.Strip.{strip}
use digital_colleagues.Core.Namespace.{Namespace, require_colleague, require_same_tenant}
use digital_colleagues.Core.Principals.{Principal}
use digital_colleagues.Core.Policy.{DurableTriggerKind, EscalationCondition}

pub data PolicyStage : Type 0 where
  trigger pre_wake post_model approval dispatch stop escalation : PolicyStage

pub data PolicyOutcomeKind : Type 0 where
  allowed stale_policy disallowed_trigger outside_hours_defer outside_hours_no_op :
      PolicyOutcomeKind
  outside_hours_stop outside_hours_escalate proactivity_suppressed notification_suppressed :
      PolicyOutcomeKind
  interruption_suppressed budget_exhausted duplicate_trigger repeated_failure_stop :
      PolicyOutcomeKind
  repeated_failure_escalate finite_work_terminal_stop blocked_work_escalate stopped :
      PolicyOutcomeKind
  explicit_resume : PolicyOutcomeKind

-- `POLICY_REFUSAL_OUTCOMES`
abbrev pub is_refusal : PolicyOutcomeKind → Bool
is_refusal allowed = false
is_refusal explicit_resume = false
is_refusal _ = true

pub record PolicyEnforcementRecord : Type 0 where
  pub namespace : Namespace
  pub outcome_id : String
  pub policy_id : String
  pub policy_revision : ℕ
  pub mandate_id : String
  pub mandate_revision : ℕ
  pub stage : PolicyStage
  pub outcome : PolicyOutcomeKind
  pub trigger_class : Option DurableTriggerKind
  pub source_id : Option String
  pub actor : Principal
  pub correlation_id : String
  pub causation_id : String
  pub occurred_at : DateTime
  pub safe_projection : FrozenJsonObject
  pub payload_digest : String
  pub schema_version : ℕ

-- `PolicyEnforcementRecord.__post_init__`
unfoldable pub construct_enforcement : PolicyEnforcementRecord → Result PolicyEnforcementRecord
construct_enforcement self = do
  require_schema_version self.schema_version
  require_colleague self.namespace
  each require_stable_id (
      self.outcome_id ∷ self.policy_id ∷ self.mandate_id ∷ self.correlation_id ∷ self.causation_id
      ∷ [])
  require_revision self.policy_revision
  require_revision self.mandate_revision
  require_optional_id self.source_id
  require_same_tenant self.namespace self.actor.namespace
  require_utc self.occurred_at
  require_digest self.payload_digest
  ok self

pub record EscalationRecord : Type 0 where
  pub namespace : Namespace
  pub escalation_id : String
  pub policy_id : String
  pub policy_revision : ℕ
  pub condition : EscalationCondition
  pub safe_summary : String
  pub actor : Principal
  pub correlation_id : String
  pub causation_id : String
  pub occurred_at : DateTime
  pub revision : ℕ
  pub schema_version : ℕ

-- `EscalationRecord.__post_init__`. Unlike the other records it keeps its summary as it came.
unfoldable pub construct_escalation : EscalationRecord → Result EscalationRecord
construct_escalation self = do
  require_schema_version self.schema_version
  require_colleague self.namespace
  each require_stable_id
      (self.escalation_id ∷ self.policy_id ∷ self.correlation_id ∷ self.causation_id ∷ [])
  require_revision self.policy_revision
  require (not (strip self.safe_summary == "")) core_invariant
  require_same_tenant self.namespace self.actor.namespace
  require_utc self.occurred_at
  require_revision self.revision
  ok self
