-- ===== src/Tests/Governance.antt =====
-- Changes of authority at concrete inputs.
use digital_colleagues.Base.{
  ◌≡◌, refl, none, some, [], ◌∷◌, nat_eq, string_eq, option_eq, list_eq, ok,
}
use digital_colleagues.Core.Principals.{colleague_user}
use digital_colleagues.Core.Governance.{active}
use digital_colleagues.Core.Governance.Changes.{
  Change, ChangeProposal, ChangeDecision, membership, pending, approve, governance_change_digest,
  construct_proposal, construct_decision,
}
use digital_colleagues.Core.Governance.Changes.Binding.{
  IsSameChange, governance_change_digest_binds,
}
use digital_colleagues.Core.Namespace.{tenant}
use digital_colleagues.Tests.Samples.{running, at}
use digital_colleagues.Tests.Effects.{zeros, same_digest}

abbrev change : Change
change = record {
  change_kind = membership;
  target_id = "user";
  target_revision = 1;
  proposed_role = some colleague_user;
  proposed_status = some active;
  proposed_colleague_ids = "ada" ∷ [];
}

change_digested : governance_change_digest same_digest change ≡ ok zeros
unfolding governance_change_digest running
change_digested = refl

governance_change_digest_binds_example : IsSameChange change change
governance_change_digest_binds_example =
    governance_change_digest_binds same_digest change change zeros change_digested change_digested
      (λ same. refl)

abbrev proposed : ChangeProposal
proposed = record {
  namespace = record { tenant_id = "acme"; scope = tenant; scope_id = none };
  proposal_id = "change";
  change_kind = membership;
  target_id = "user";
  target_revision = 1;
  canonical_digest = zeros;
  base_profile_revision = 0;
  base_mandate_revision = 0;
  base_policy_revision = 0;
  proposed_role = some colleague_user;
  proposed_status = some active;
  proposed_colleague_ids = "ada" ∷ [];
  proposer_principal_id = "boss";
  proposer_role_revision = 1;
  proposer_membership_revision = 1;
  issued_at = at 0;
  expires_at = at 10;
  state = pending;
  idempotency_key = "key";
  request_digest = zeros;
  correlation_id = "c-1";
  causation_id = "c-0";
  decision_id = none;
  consumed_at = none;
  revision = 1;
  schema_version = 1;
}

proposed_constructed : construct_proposal proposed ≡ ok proposed
unfolding construct_proposal running
proposed_constructed = refl

abbrev decided : ChangeDecision
decided = record {
  namespace = proposed.namespace;
  decision_id = "decision";
  proposal_id = "change";
  proposal_revision = 1;
  proposal_digest = zeros;
  choice = approve;
  approver_principal_id = "other";
  approver_role_revision = 1;
  approver_membership_revision = 1;
  occurred_at = at 5;
  valid_until = at 9;
  idempotency_key = "key-2";
  request_digest = zeros;
  correlation_id = "c-1";
  causation_id = "change";
  consumed_at = none;
  revision = 1;
  schema_version = 1;
}

decided_constructed : construct_decision decided ≡ ok decided
unfolding construct_decision running
decided_constructed = refl
