-- ===== src/Store/Approve/Rows.antt =====
-- adapters/sqlite/store.py: the arguments and the rows of `commit_approval_and_attempt`.
use digital_colleagues.Base.{
  ℕ, zero, suc, ◌+◌, ◌/◌, ◌%◌, Bool, ◌&&◌, Option, none, some, List, [], ◌∷◌, String, Eq, ◌==◌,
  nat_eq, string_eq, option_eq, list_eq, String-discrete, ℕ_discrete, ltb, if◌then◌else◌,
}
use digital_colleagues.Core.Common.{DateTime, supported_schema}
use Prim.Native.String.{◌++◌ as join}
use digital_colleagues.Core.Common.Calendar
use digital_colleagues.Core.Namespace.{Namespace, Namespace-discrete, namespace_eq}
use digital_colleagues.Core.Principals.{Principal, Principal-discrete, principal_eq}
use digital_colleagues.Core.Effects.{EffectProposal}
use digital_colleagues.Core.Effects.Approval.{
  HumanApprovalDecision, ApprovalChoice-discrete, choice_eq,
}
use digital_colleagues.Core.Effects.Attempt.{EffectAttempt, planned}
use digital_colleagues.Store.Tables.{Key, key_eq}
use digital_colleagues.Store.Database.{LedgerRow, OutboxRow, pending}

DateTime-discrete : Discrete DateTime
DateTime-discrete = hlevel ℕ_discrete

unfoldable pub Decision-discrete : Discrete HumanApprovalDecision
unfolding String-discrete Namespace-discrete Principal-discrete ApprovalChoice-discrete
Decision-discrete =
    hlevel
      (String-discrete, ℕ_discrete, Namespace-discrete, Principal-discrete, ApprovalChoice-discrete)

instance abbrev pub decision_eq : Eq HumanApprovalDecision
decision_eq = record { decide_eq = Decision-discrete }

-- `str` of a number.
decimal_on : ℕ → ℕ → String
unfolding Calendar.digit
decimal_on zero n = ""
decimal_on (suc fuel) n =
    let rest = decimal_on fuel (n / 10) in
    if ltb n 10 then Calendar.digit n else join rest (Calendar.digit (n % 10))

unfoldable pub decimal : ℕ → String
unfolding decimal_on
decimal n = decimal_on (n + 1) n

-- The keyword arguments of `commit_approval_and_attempt`.
pub record Approving : Type 0 where
  pub namespace : Namespace
  pub mandate_id : String
  pub expected_mandate_revision : ℕ
  pub decision : HumanApprovalDecision
  pub effect_attempt_id : String
  pub outbox_id : String
  pub service_actor : Principal
  pub occurred_at : DateTime

-- `proposal_binding`
unfoldable pub proposal_binding : EffectProposal → String
unfolding decimal
proposal_binding proposal = join proposal.proposal_id (join ":" (decimal proposal.revision))

abbrev pub ledger_row : Namespace → String → String → String → ℕ → LedgerRow
ledger_row namespace idempotency_key record_type record_id created_at = record {
  namespace = namespace;
  idempotency_key = idempotency_key;
  record_type = record_type;
  record_id = record_id;
  created_at = created_at;
}

-- The first attempt.
abbrev pub first_attempt : Approving → EffectProposal → EffectAttempt
first_attempt self proposal = record {
  namespace = self.namespace;
  effect_attempt_id = self.effect_attempt_id;
  proposal_id = proposal.proposal_id;
  proposal_revision = proposal.revision;
  approval_decision_id = self.decision.approval_decision_id;
  attempt_number = 1;
  state = planned;
  actor = self.service_actor;
  correlation_id = proposal.correlation_id;
  causation_id = self.decision.approval_decision_id;
  occurred_at = self.occurred_at;
  revision = 1;
  schema_version = supported_schema;
}

abbrev pub first_row : Approving → EffectProposal → ℕ → OutboxRow
first_row self proposal at = record {
  namespace = self.namespace;
  outbox_id = self.outbox_id;
  proposal_id = proposal.proposal_id;
  approval_decision_id = self.decision.approval_decision_id;
  effect_attempt_id = self.effect_attempt_id;
  effect_idempotency_key = proposal.constraints.idempotency_key;
  state = pending;
  attempt_number = 1;
  maximum_attempts = proposal.constraints.maximum_attempts;
  next_attempt_at = at;
  lease_owner = none;
  lease_until = none;
  fencing_token = 0;
  last_outcome = none;
  actor_principal_id = self.service_actor.principal_id;
  correlation_id = proposal.correlation_id;
  causation_id = self.decision.approval_decision_id;
  created_at = at;
  updated_at = at;
  revision = 1;
}

-- `UNIQUE (namespace, effect_idempotency_key)`
abbrev pub same_effect : OutboxRow → OutboxRow → Bool
same_effect row other =
    row.namespace == other.namespace && row.effect_idempotency_key == other.effect_idempotency_key

-- The outbox row of an approval; the approval names one row at most.
abbrev pub row_of_approval : Namespace → String → List OutboxRow → Option OutboxRow
row_of_approval namespace approval_decision_id [] = none
row_of_approval namespace approval_decision_id (row ∷ rows) =
    if namespace == row.namespace && approval_decision_id == row.approval_decision_id
    then some row
    else row_of_approval namespace approval_decision_id rows

-- The rows of the replay ledger.
abbrev pub bound_key : Approving → EffectProposal → Key
bound_key self proposal = record { namespace = self.namespace; id = proposal_binding proposal }

abbrev pub decided : Approving → ℕ → String → LedgerRow
decided self at key =
    ledger_row self.namespace key "human_approval" self.decision.approval_decision_id at

abbrev pub effect_row : Approving → EffectProposal → EffectAttempt → ℕ → LedgerRow
effect_row self proposal attempt at =
    ledger_row self.namespace proposal.constraints.idempotency_key "effect_attempt"
      attempt.effect_attempt_id at
