-- ===== src/Core/Effects/Approval.antt =====
-- core/effects.py: the decision of a human on a proposal.
use digital_colleagues.Base.{
  ℕ, some, String, Eq, ◌==◌, nat_eq, string_eq, option_eq, list_eq, leb, Result, ok, ◌>>◌, require,
  core_invariant, authorization,
}
use digital_colleagues.Core.Common.{
  DateTime, require_stable_id, require_revision, require_utc, require_digest,
}
use digital_colleagues.Core.Namespace.{Namespace}
use digital_colleagues.Core.Principals.{Principal, human, kind_eq}
use digital_colleagues.Core.Runtime.{validate_causal_record}

pub data ApprovalChoice : Type 0 where
  approve reject : ApprovalChoice

unfoldable pub ApprovalChoice-discrete : Discrete ApprovalChoice
ApprovalChoice-discrete = hlevel

instance abbrev pub choice_eq : Eq ApprovalChoice
choice_eq = record { decide_eq = ApprovalChoice-discrete }

pub record HumanApprovalDecision : Type 0 where
  pub namespace : Namespace
  pub approval_decision_id : String
  pub proposal_id : String
  pub proposal_revision : ℕ
  pub proposal_payload_digest : String
  pub proposal_digest : String
  pub choice : ApprovalChoice
  pub author : Principal
  pub idempotency_key : String
  pub correlation_id : String
  pub causation_id : String
  pub occurred_at : DateTime
  pub valid_until : DateTime
  pub revision : ℕ
  pub schema_version : ℕ

-- `HumanApprovalDecision.__post_init__`
unfoldable pub construct : HumanApprovalDecision → Result HumanApprovalDecision
construct self = do
  require_stable_id self.approval_decision_id
  require_stable_id self.proposal_id
  require_revision self.proposal_revision
  require_digest self.proposal_payload_digest
  require_digest self.proposal_digest
  require (self.author.kind == human) authorization
  require_stable_id self.idempotency_key
  validate_causal_record (record {
    namespace = self.namespace;
    actor = self.author;
    correlation_id = self.correlation_id;
    causation_id = some self.causation_id;
    occurred_at = self.occurred_at;
    revision = self.revision;
    schema_version = self.schema_version;
  })
  require (self.causation_id == self.proposal_id) core_invariant
  require_utc self.valid_until
  require (leb self.occurred_at.clock self.valid_until.clock) core_invariant
  ok self
