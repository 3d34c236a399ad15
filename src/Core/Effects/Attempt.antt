-- ===== src/Core/Effects/Attempt.antt =====
-- core/effects.py: attempts of an effect and their results.
use digital_colleagues.Base.{
  ℕ, some, String, ◌==◌, nat_eq, string_eq, option_eq, list_eq, leb, Result, ok, ◌>>◌, require,
  core_invariant,
}
use digital_colleagues.Core.Common.{DateTime, require_stable_id, require_revision, require_digest}
use digital_colleagues.Core.Common.Json.{FrozenJsonObject}
use digital_colleagues.Core.Namespace.{Namespace}
use digital_colleagues.Core.Principals.{Principal}
use digital_colleagues.Core.Runtime.{validate_causal_record}

pub data EffectAttemptState : Type 0 where
  planned started succeeded failed ambiguous : EffectAttemptState

pub record EffectAttempt : Type 0 where
  pub namespace : Namespace
  pub effect_attempt_id : String
  pub proposal_id : String
  pub proposal_revision : ℕ
  pub approval_decision_id : String
  pub attempt_number : ℕ
  pub state : EffectAttemptState
  pub actor : Principal
  pub correlation_id : String
  pub causation_id : String
  pub occurred_at : DateTime
  pub revision : ℕ
  pub schema_version : ℕ

-- `EffectAttempt.__post_init__`
unfoldable pub construct_attempt : EffectAttempt → Result EffectAttempt
construct_attempt self = do
  require_stable_id self.effect_attempt_id
  require_stable_id self.proposal_id
  require_revision self.proposal_revision
  require_stable_id self.approval_decision_id
  require (leb 1 self.attempt_number) core_invariant
  validate_causal_record (record {
    namespace = self.namespace;
    actor = self.actor;
    correlation_id = self.correlation_id;
    causation_id = some self.causation_id;
    occurred_at = self.occurred_at;
    revision = self.revision;
    schema_version = self.schema_version;
  })
  require (self.causation_id == self.approval_decision_id) core_invariant
  ok self

pub data ActionResultState : Type 0 where
  succeeded failed not_executed retryable_failure permanent_failure ambiguous : ActionResultState

pub record ActionResult : Type 0 where
  pub namespace : Namespace
  pub action_result_id : String
  pub effect_attempt_id : String
  pub state : ActionResultState
  pub safe_projection : FrozenJsonObject
  pub result_digest : String
  pub actor : Principal
  pub correlation_id : String
  pub causation_id : String
  pub occurred_at : DateTime
  pub revision : ℕ
  pub schema_version : ℕ

-- `ActionResult.__post_init__`
unfoldable pub construct_result : ActionResult → Result ActionResult
construct_result self = do
  require_stable_id self.action_result_id
  require_stable_id self.effect_attempt_id
  require_digest self.result_digest
  validate_causal_record (record {
    namespace = self.namespace;
    actor = self.actor;
    correlation_id = self.correlation_id;
    causation_id = some self.causation_id;
    occurred_at = self.occurred_at;
    revision = self.revision;
    schema_version = self.schema_version;
  })
  require (self.causation_id == self.effect_attempt_id) core_invariant
  ok self
