-- ===== src/Governance/Approvals/Exact.antt =====
-- When a human approval is authorized.
use digital_colleagues.Base.{
  ◌≤◌, ◌≡◌, sym, ap, ◌∙◌, ◌↔◌, true, false, [], String, arith, nat_eq, string_eq, option_eq,
  list_eq, ok,
}
use digital_colleagues.Base.Lists.{elem, any}
use digital_colleagues.Core.Common.{is_utc, is_stable_id, is_digest}
use digital_colleagues.Core.Principals.{Principal, human, role_eq}
use digital_colleagues.Core.Principals
use digital_colleagues.Core.Namespace.{colleague}
use digital_colleagues.Core.Common.Json.{Value}
use digital_colleagues.Core.Runtime.{validate_causal_record}
use digital_colleagues.Core.Effects.{EffectProposal, pending_approval}
use digital_colleagues.Core.Effects.Envelope
use digital_colleagues.Core.Effects.Approval
use digital_colleagues.Core.Effects.Approval.{HumanApprovalDecision, approve}
use digital_colleagues.Governance.Approvals.{
  Evaluation, ApprovalAuthorization, receipt, is_consumed, construct, authorize_human_approval,
}

-- A human with an accepted role approved this very revision of a proposal that awaits it, in
-- time, and nothing of the decision was used before.
pub record IsApproved (proposal : EffectProposal) (decision : HumanApprovalDecision)
    (e : Evaluation) : Type 0 where
  pub in_utc : is_utc e.evaluated_at.offset ≡ true
  pub one_namespace : proposal.namespace ≡ decision.namespace
  pub no_claimed_roles : e.caller_supplied_role_ids ≡ []
  pub by_human : decision.author.kind ≡ human
  pub accepted : any (λ role. elem role e.accepted_roles) decision.author.roles ≡ true
  pub awaited : proposal.state ≡ pending_approval
  pub approves : decision.choice ≡ approve
  pub same_id : decision.proposal_id ≡ proposal.proposal_id
  pub same_revision : decision.proposal_revision ≡ proposal.revision
  pub same_payload : decision.proposal_payload_digest ≡ proposal.payload_digest
  pub same_proposal : decision.proposal_digest ≡ proposal.proposal_digest
  pub same_correlation : decision.correlation_id ≡ proposal.correlation_id
  pub after_proposal : proposal.occurred_at.clock ≤ decision.occurred_at.clock
  pub not_future : decision.occurred_at.clock ≤ e.evaluated_at.clock
  pub not_expired : e.evaluated_at.clock ≤ decision.valid_until.clock
  pub within_proposal : decision.valid_until.clock ≤ proposal.constraints.valid_until.clock
  pub new_decision : elem decision.approval_decision_id e.consumed_decision_ids ≡ false
  pub new_key : elem decision.idempotency_key e.consumed_idempotency_keys ≡ false
  pub new_binding :
      is_consumed proposal.proposal_id proposal.revision e.consumed_proposal_revisions ≡ false

module _ (proposal : EffectProposal) (decision : HumanApprovalDecision) (e : Evaluation) where
  pub IsApproved-of_ok :
      {answer : ApprovalAuthorization}
      → authorize_human_approval proposal decision e ≡ ok answer
      → IsApproved proposal decision e
  unfolding authorize_human_approval
  IsApproved-of_ok h = record {
    in_utc = ground arith;
    one_namespace = ground arith;
    no_claimed_roles = ground arith;
    by_human = ground arith;
    accepted = ground arith;
    awaited = ground arith;
    approves = ground arith;
    same_id = ground arith;
    same_revision = ground arith;
    same_payload = ground arith;
    same_proposal = ground arith;
    same_correlation = ground arith;
    after_proposal = ground arith;
    not_future = ground arith;
    not_expired = ground arith;
    within_proposal = ground arith;
    new_decision = ground arith;
    new_key = ground arith;
    new_binding = ground arith;
  }

  pub receipt_of_ok :
      {answer : ApprovalAuthorization}
      → authorize_human_approval proposal decision e ≡ ok answer
      → answer ≡ receipt proposal decision
  unfolding authorize_human_approval construct
  receipt_of_ok h = ground arith

  constructed_of_IsApproved :
      IsApproved proposal decision e
      → authorize_human_approval proposal decision e ≡ construct (receipt proposal decision)
  unfolding authorize_human_approval
  constructed_of_IsApproved a = ground arith

-- What a constructed proposal and a constructed decision bring to the receipt.
checked_proposal :
    (canonical_digest : Value → String) (raw proposal : EffectProposal)
    → Envelope.construct canonical_digest raw ≡ ok proposal
    → (is_stable_id proposal.proposal_id ≡ true)
      × (proposal.namespace.scope ≡ colleague)
      × (1 ≤ proposal.revision)
unfolding Envelope.construct validate_causal_record
checked_proposal canonical_digest raw proposal h = (ground arith, ground arith, ground arith)

checked_decision :
    (raw decision : HumanApprovalDecision)
    → Approval.construct raw ≡ ok decision
    → (is_stable_id decision.approval_decision_id ≡ true)
      × (is_digest decision.proposal_payload_digest ≡ true)
      × (is_digest decision.proposal_digest ≡ true)
unfolding Approval.construct
checked_decision raw decision h = (ground arith, ground arith, ground arith)

checked_author :
    (raw author : Principal)
    → Principals.construct raw ≡ ok author
    → is_stable_id author.principal_id ≡ true
unfolding Principals.construct
checked_author raw author h = ground arith

constructed_receipt :
    (proposal : EffectProposal) (decision : HumanApprovalDecision)
    → is_stable_id proposal.proposal_id ≡ true
    → proposal.namespace.scope ≡ colleague
    → 1 ≤ proposal.revision
    → is_stable_id decision.approval_decision_id ≡ true
    → is_digest proposal.payload_digest ≡ true
    → is_digest proposal.proposal_digest ≡ true
    → is_stable_id decision.author.principal_id ≡ true
    → construct (receipt proposal decision) ≡ ok (receipt proposal decision)
unfolding construct
constructed_receipt proposal decision p n r d payload complete author = ground arith

-- For values that their constructors returned, `authorize_human_approval` answers with the
-- receipt of the proposal and the decision exactly when the approval is in order.
pub authorize_human_approval_exact :
    (canonical_digest : Value → String) (raw proposal : EffectProposal)
    (raw_decision decision : HumanApprovalDecision) (raw_author : Principal) (e : Evaluation)
    → Envelope.construct canonical_digest raw ≡ ok proposal
    → Approval.construct raw_decision ≡ ok decision
    → Principals.construct raw_author ≡ ok decision.author
    → (answer : ApprovalAuthorization)
    → (authorize_human_approval proposal decision e ≡ ok answer)
      ↔ (IsApproved proposal decision e × (answer ≡ receipt proposal decision))
authorize_human_approval_exact digest raw proposal raw_decision decision raw_author e p d a answer =
    (
      (λ h. (IsApproved-of_ok proposal decision e h, receipt_of_ok proposal decision e h)),
      (λ k.
          let (id, scope, revision) = checked_proposal digest raw proposal p in
          let (decision_id, payload, complete) = checked_decision raw_decision decision d in
          constructed_of_IsApproved proposal decision e k.0
          ∙ constructed_receipt proposal decision id scope revision decision_id
              (ap is_digest (sym k.0.same_payload) ∙ payload)
              (ap is_digest (sym k.0.same_proposal) ∙ complete)
              (checked_author raw_author decision.author a)
          ∙ ap ok (sym k.1)),
    )
