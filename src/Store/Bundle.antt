-- ===== src/Store/Bundle.antt =====
-- adapters/sqlite/store.py: what a dispatch reads before it acts, `load_dispatch_bundle`.
use digital_colleagues.Base.{
  Bool, ◌&&◌, none, some, [], ◌∷◌, String, ◌==◌, nat_eq, string_eq, option_eq, list_eq,
  if◌then◌else◌, Result, ◌>>=◌, ◌>>◌, require, permission_denied,
}
use digital_colleagues.Core.Common.{supported_schema}
use digital_colleagues.Core.Principals.{Principal, principal_eq, human, service, kind_eq}
use digital_colleagues.Core.Authority.{Mandate}
use digital_colleagues.Core.Effects.{EffectProposal}
use digital_colleagues.Core.Effects.Approval.{HumanApprovalDecision}
use digital_colleagues.Core.Effects.Attempt
use digital_colleagues.Core.Effects.Attempt.{EffectAttempt, EffectAttemptState}
use digital_colleagues.Store.Contracts.{OutboxClaim, DispatchBundle, construct_bundle}
use digital_colleagues.Store.Records.{fetch, get_record}
use digital_colleagues.Store.Database.{
  Database, OutboxRow, outbox_state_eq, claimed, ambiguous_claimed, principal_key, mandate_key,
  proposal_columns, approval_columns, attempt_columns,
}
use digital_colleagues.Store.Outbox.{require_outbox_claim}
use digital_colleagues.Store.Dispatch.{attempt_state_eq}
use digital_colleagues.Store.Approve.{principal_namespace}

-- `expected_attempt_state`
abbrev pub expected_attempt_state : OutboxRow → EffectAttemptState
expected_attempt_state row = if row.state == claimed then Attempt.planned else Attempt.ambiguous

-- `bindings_valid`
unfoldable pub bindings_valid :
    OutboxClaim
    → OutboxRow
    → EffectProposal
    → HumanApprovalDecision
    → EffectAttempt
    → Principal
    → Mandate
    → Bool
bindings_valid claim row proposal approval attempt approver mandate =
    row.proposal_id == proposal.proposal_id
    && proposal.proposal_id == attempt.proposal_id
    && row.approval_decision_id == approval.approval_decision_id
    && approval.approval_decision_id == attempt.approval_decision_id
    && row.effect_attempt_id == attempt.effect_attempt_id
    && row.attempt_number == attempt.attempt_number
    && row.maximum_attempts == proposal.constraints.maximum_attempts
    && row.effect_idempotency_key == proposal.constraints.idempotency_key
    && attempt.proposal_revision == proposal.revision
    && approval.proposal_id == proposal.proposal_id
    && approval.proposal_revision == proposal.revision
    && approval.proposal_payload_digest == proposal.payload_digest
    && approval.proposal_digest == proposal.proposal_digest
    && claim.proposal_id == row.proposal_id
    && claim.approval_decision_id == row.approval_decision_id
    && claim.effect_attempt_id == row.effect_attempt_id
    && claim.effect_idempotency_key == row.effect_idempotency_key
    && claim.attempt_number == row.attempt_number
    && proposal.mandate_id == some mandate.mandate_id
    && proposal.mandate_revision == some mandate.revision
    && approval.author == approver
    && approval.author.kind == human
    && attempt.actor.kind == service
    && attempt.state == expected_attempt_state row
    && proposal.correlation_id == approval.correlation_id
    && approval.correlation_id == attempt.correlation_id
    && attempt.correlation_id == row.correlation_id
    && approval.causation_id == proposal.proposal_id
    && attempt.causation_id == approval.approval_decision_id
    && row.causation_id == approval.approval_decision_id
    && row.actor_principal_id == attempt.actor.principal_id

-- `load_dispatch_bundle`
unfoldable pub load_dispatch_bundle : OutboxClaim → String → Database → Result DispatchBundle
load_dispatch_bundle claim mandate_id db = do
  row ← require_outbox_claim claim (claimed ∷ ambiguous_claimed ∷ []) none db
  proposal ← get_record proposal_columns claim.namespace claim.proposal_id db.proposals
  approval ← get_record approval_columns claim.namespace claim.approval_decision_id db.approvals
  attempt ← get_record attempt_columns claim.namespace claim.effect_attempt_id db.attempts
  approvers ← principal_namespace claim.namespace.tenant_id approval.author.principal_id
  approver ← fetch principal_key approvers approval.author.principal_id db.principals
  mandate ← fetch mandate_key claim.namespace mandate_id db.mandates
  require (bindings_valid claim row proposal approval attempt approver mandate) permission_denied
  construct_bundle (record {
    proposal = proposal;
    approval = approval;
    attempt = attempt;
    approver = approver;
    effect_idempotency_key = row.effect_idempotency_key;
    maximum_attempts = row.maximum_attempts;
    schema_version = supported_schema;
  })
