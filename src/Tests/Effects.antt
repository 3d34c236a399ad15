-- ===== src/Tests/Effects.antt =====
-- Effects, their authority and their approval at concrete inputs.
use digital_colleagues.Base.{
  ◌≡◌, refl, ◌↔◌, Bool, true, false, none, some, [], ◌∷◌, String, nat_eq, string_eq, option_eq,
  list_eq, ok,
}
use digital_colleagues.Base.Lists.{unique}
use digital_colleagues.Core.Common.Json.{FrozenJsonObject, Value, text, empty, entry, keys}
use digital_colleagues.Core.Principals
use digital_colleagues.Core.Principals.{colleague_user, tenant_admin}
use digital_colleagues.Core.Authority.{reference_message}
use digital_colleagues.Core.Runtime.{validate_causal_record, validate_policy_binding}
use digital_colleagues.Core.Effects.{EffectProposal, pending_approval, EffectProposalState-discrete}
use digital_colleagues.Core.Effects.Envelope
use digital_colleagues.Core.Effects.Envelope.{json_data}
use digital_colleagues.Core.Effects.Approval
use digital_colleagues.Core.Effects.Approval.{
  HumanApprovalDecision, approve, ApprovalChoice-discrete,
}
use digital_colleagues.Governance.Approvals
use digital_colleagues.Governance.Approvals.{
  Evaluation, receipt, authorize_effect_proposal, check_boundary, authorize_constraint_parameters,
  typed_constraint_values, typed_entries, authorize_human_approval,
}
use digital_colleagues.Governance.Approvals.Parameters.{
  network, authorize_constraint_parameters_exact,
}
use digital_colleagues.Governance.Approvals.Exact.{IsApproved, authorize_human_approval_exact}
use digital_colleagues.Governance.Approvals.Binding.{IsSameEffect, approval_binds}
use digital_colleagues.Tests.Samples.{running, at, office, boss, user}

abbrev pub zeros : String
zeros = "sha256:0000000000000000000000000000000000000000000000000000000000000000"

-- One digest for all: what follows does not depend on the digest.
abbrev pub same_digest : Value → String
same_digest document = zeros

abbrev note : FrozenJsonObject
note = record { as_entries = entry "text" (text "hello") empty }

abbrev pub raw_proposal : EffectProposal
raw_proposal = record {
  namespace = office;
  proposal_id = "proposal";
  decision_id = "decision";
  effect_kind = reference_message;
  destination = record { kind = "channel"; target = "general" };
  action = "send";
  payload = note;
  safe_projection = note;
  constraints = record {
    boundary_id = "messages";
    idempotency_key = "key";
    valid_until = at 100;
    maximum_attempts = 3;
    parameters = network false;
  };
  state = pending_approval;
  actor = boss;
  correlation_id = "c-1";
  causation_id = "decision";
  occurred_at = at 10;
  revision = 1;
  schema_version = 1;
  mandate_id = some "mandate";
  mandate_revision = some 1;
  policy_id = none;
  policy_revision = none;
  payload_digest = "";
  proposal_digest = "";
}

abbrev pub proposal : EffectProposal
proposal = record raw_proposal { payload_digest = zeros; proposal_digest = zeros }

pub proposal_constructed : Envelope.construct same_digest raw_proposal ≡ ok proposal
unfolding Envelope.construct validate_causal_record validate_policy_binding running
proposal_constructed = refl

abbrev pub approval : HumanApprovalDecision
approval = record {
  namespace = office;
  approval_decision_id = "approval";
  proposal_id = "proposal";
  proposal_revision = 1;
  proposal_payload_digest = zeros;
  proposal_digest = zeros;
  choice = approve;
  author = user;
  idempotency_key = "approval-key";
  correlation_id = "c-1";
  causation_id = "proposal";
  occurred_at = at 20;
  valid_until = at 90;
  revision = 1;
  schema_version = 1;
}

pub approval_constructed : Approval.construct approval ≡ ok approval
unfolding Approval.construct validate_causal_record running
approval_constructed = refl

user_constructed : Principals.construct user ≡ ok user
unfolding Principals.construct running
user_constructed = refl

abbrev evaluation : Evaluation
evaluation = record {
  evaluated_at = at 30;
  consumed_decision_ids = "other" ∷ [];
  consumed_idempotency_keys = [];
  consumed_proposal_revisions = [];
  accepted_roles = tenant_admin ∷ colleague_user ∷ [];
  caller_supplied_role_ids = [];
}

approved_once :
    authorize_human_approval proposal approval evaluation ≡ ok (receipt proposal approval)
unfolding authorize_human_approval Approvals.construct EffectProposalState-discrete
    ApprovalChoice-discrete running
approved_once = refl

authorize_human_approval_exact_example :
    (authorize_human_approval proposal approval evaluation ≡ ok (receipt proposal approval)) ↔ (
      IsApproved proposal approval evaluation
      × (receipt proposal approval ≡ receipt proposal approval))
authorize_human_approval_exact_example =
    authorize_human_approval_exact same_digest raw_proposal proposal approval approval user
      evaluation proposal_constructed approval_constructed user_constructed
      (receipt proposal approval)

approval_binds_example : IsSameEffect proposal proposal
approval_binds_example =
    approval_binds same_digest raw_proposal proposal raw_proposal proposal approval evaluation
      evaluation (receipt proposal approval) (receipt proposal approval) proposal_constructed
      proposal_constructed approved_once approved_once (λ same. refl) (λ same. refl)

network-unique : unique (keys (network false).as_entries) ≡ true
unfolding running
network-unique = refl

authorize_constraint_parameters_exact_example :
    (authorize_constraint_parameters (network false) (network false) ≡ ok tt)
    ↔ ((flag : Bool) × (network false ≡ network flag) × (network false ≡ network flag))
authorize_constraint_parameters_exact_example =
    authorize_constraint_parameters_exact (network false) (network false) network-unique
      network-unique
