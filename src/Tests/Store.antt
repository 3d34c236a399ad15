-- ===== src/Tests/Store.antt =====
-- The outbox of the SQLite store on one effect: approved, claimed, dispatched and reconciled.
mod Runs
mod Laws
use digital_colleagues.Base.{
  ℕ, zero, suc, ◌+◌, ◌-◌, ◌*◌, ◌/◌, ◌%◌, ◌≤◌, ◌<◌, ◌≡◌, refl, sym, ap, ◌∙◌, ◌≢◌, ◌↔◌, ◌⊎◌, inl, inr,
  Bool, true, false, not, ◌&&◌, ◌||◌, Option, none, some, List, [], ◌∷◌, ◌++◌, map, String, arith,
  Eq, ◌==◌, nat_eq, string_eq, option_eq, list_eq, List-discrete, Option-discrete, String-discrete,
  ℕ_discrete, ltb, leb, if◌then◌else◌, Bool-cases, Error, Result, ok, err, ◌>>=◌, ◌>>◌, require,
  core_invariant, namespace_mismatch, revision_mismatch, authorization, replay, lifecycle,
  not_found, conflict, permission_denied, persistence, integrity, >>=-ok_parts, Returns, ok_same,
  Option-cases, or_raise, or_raise-some,
}
use digital_colleagues.Base.Sorting.{str_leb}
use digital_colleagues.Core.Common.{DateTime}
use digital_colleagues.Core.Common.Json.{FrozenJsonObject, Value, text, empty, entry}
use digital_colleagues.Core.Common.Calendar
use digital_colleagues.Core.Namespace
use digital_colleagues.Core.Principals.{Principal, service}
use digital_colleagues.Core.Authority.{Mandate, EffectKind-discrete}
use digital_colleagues.Core.Runtime.{validate_causal_record}
use digital_colleagues.Core.Effects.{EffectProposalState-discrete}
use digital_colleagues.Core.Effects.Approval
use digital_colleagues.Core.Effects.Approval.{ApprovalChoice-discrete}
use digital_colleagues.Core.Effects.Attempt
use digital_colleagues.Core.Effects.Attempt.{
  EffectAttempt, construct_attempt, ActionResult, construct_result,
}
use digital_colleagues.Governance.Approvals
use digital_colleagues.Governance.Approvals.{
  check_boundary, typed_constraint_values, typed_entries, authorize_constraint_parameters,
  authorize_effect_proposal, authorize_human_approval,
}
use digital_colleagues.Store.Contracts
use digital_colleagues.Store.Contracts.{
  OutboxClaim, construct_claim, ChannelOutcome, construct_outcome, ReconciliationOutcome,
  construct_bundle,
}
use digital_colleagues.Store.Tables.{Key, Key-discrete, find}
use digital_colleagues.Store.Records.{AuditRow, insert_audit, insert_record, update_record}
use digital_colleagues.Store.Database
use digital_colleagues.Store.Database.{
  Database, OutboxRow, outbox_key, OutboxState, OutboxState-discrete, insert_attempt,
  update_attempt, insert_result, insert_approval, insert_proposal,
}
use digital_colleagues.Store.Outbox.{
  ClaimRequest, claimable, due_before, lease_row, claim_outbox_state, claim_outbox, claim_ambiguous,
  is_held_by, require_outbox_claim,
}
use digital_colleagues.Store.Dispatch.{
  AttemptState-discrete, mark_dispatch_started, Report, create_retry_attempt, plan_retry,
  finalize_dispatch,
}
use digital_colleagues.Store.Dispatch.Recovery.{
  expired_dispatch, lease_before, recover_row, recover_expired_dispatches,
}
use digital_colleagues.Store.Reconcile.{
  base_delay, still_waiting, resolve, reconcile_row, reconcile_ambiguous,
}
use digital_colleagues.Store.Approve.Rows.{
  Approving, ledger_row, Decision-discrete, decimal, proposal_binding,
}
use digital_colleagues.Store.Approve.{
  Approved, authorize, keep_decision, plan_attempt, replay_decision, commit_choice, commit_decision,
  commit_approval_and_attempt,
}
use digital_colleagues.Store.Bundle.{bindings_valid, load_dispatch_bundle}
use digital_colleagues.Tests.Samples.{running, at, office, boss, user}
use digital_colleagues.Tests.Effects.{proposal, approval}
use digital_colleagues.Tests.Authority.{mandate, duty}

abbrev pub worker : Principal
worker = record {
  namespace = office;
  principal_id = "worker";
  kind = service;
  roles = [];
  revision = 1;
  schema_version = 1;
}

abbrev pub empty_store : Database
empty_store = record {
  principals = user ∷ [];
  mandates = mandate (duty "answers" ∷ []) ∷ [];
  proposals = proposal ∷ [];
  approvals = [];
  attempts = [];
  results = [];
  audit = [];
  approval_ledger = [];
  proposal_ledger = [];
  effect_ledger = [];
  outbox = [];
}

abbrev pub approving : Approving
approving = record {
  namespace = office;
  mandate_id = "mandate";
  expected_mandate_revision = 1;
  decision = approval;
  effect_attempt_id = "attempt-1";
  outbox_id = "outbox-1";
  service_actor = worker;
  occurred_at = at 30;
}

-- What a run of the store computes with.
unfoldable pub storing : Unit {0}
unfolding running validate_causal_record EffectKind-discrete EffectProposalState-discrete
    ApprovalChoice-discrete Approval.construct construct_attempt construct_result
    Approvals.construct Namespace.construct check_boundary typed_constraint_values typed_entries
    authorize_constraint_parameters authorize_effect_proposal authorize_human_approval
    construct_claim construct_outcome construct_bundle Key-discrete insert_audit insert_record
    update_record OutboxState-discrete insert_attempt update_attempt insert_result insert_approval
    claimable due_before str_leb lease_row claim_outbox_state is_held_by require_outbox_claim
    AttemptState-discrete mark_dispatch_started create_retry_attempt plan_retry finalize_dispatch
    expired_dispatch lease_before recover_row recover_expired_dispatches base_delay still_waiting
    resolve reconcile_row reconcile_ambiguous Decision-discrete Calendar.digit decimal
    proposal_binding authorize keep_decision plan_attempt replay_decision commit_choice
    commit_decision commit_approval_and_attempt bindings_valid load_dispatch_bundle
storing = tt

-- The databases of the run differ in the attempts, the results, the audit trail and one row.
abbrev pub stored : List EffectAttempt → List ActionResult → List AuditRow → OutboxRow → Database
stored attempts results audit row = record {
  principals = user ∷ [];
  mandates = mandate (duty "answers" ∷ []) ∷ [];
  proposals = proposal ∷ [];
  approvals = approval ∷ [];
  attempts = attempts;
  results = results;
  audit = audit;
  approval_ledger = ledger_row office "approval-key" "human_approval" "approval" 30 ∷ [];
  proposal_ledger = ledger_row office "proposal:1" "human_approval" "approval" 30 ∷ [];
  effect_ledger = ledger_row office "key" "effect_attempt" "attempt-1" 30 ∷ [];
  outbox = row ∷ [];
}

abbrev pub audited : String → String → ℕ → String → String → ℕ → AuditRow
audited record_type record_id record_revision actor causation_id time = record {
  namespace = office;
  record_type = record_type;
  record_id = record_id;
  record_revision = record_revision;
  actor_principal_id = actor;
  correlation_id = "c-1";
  causation_id = some causation_id;
  occurred_at = time;
}

abbrev pub first_trail : List AuditRow
first_trail =
    audited "effect_attempt" "attempt-1" 1 "worker" "approval" 30
    ∷ audited "human_approval" "approval" 1 "user" "proposal" 20
    ∷ []

abbrev pub first_attempt : EffectAttempt
first_attempt = record {
  namespace = office;
  effect_attempt_id = "attempt-1";
  proposal_id = "proposal";
  proposal_revision = 1;
  approval_decision_id = "approval";
  attempt_number = 1;
  state = Attempt.planned;
  actor = worker;
  correlation_id = "c-1";
  causation_id = "approval";
  occurred_at = at 30;
  revision = 1;
  schema_version = 1;
}

abbrev pub first_row : OutboxRow
first_row = record {
  namespace = office;
  outbox_id = "outbox-1";
  proposal_id = "proposal";
  approval_decision_id = "approval";
  effect_attempt_id = "attempt-1";
  effect_idempotency_key = "key";
  state = Database.pending;
  attempt_number = 1;
  maximum_attempts = 3;
  next_attempt_at = 30;
  lease_owner = none;
  lease_until = none;
  fencing_token = 0;
  last_outcome = none;
  actor_principal_id = "worker";
  correlation_id = "c-1";
  causation_id = "approval";
  created_at = 30;
  updated_at = 30;
  revision = 1;
}

abbrev pub leased : OutboxState → String → ℕ → ℕ → ℕ → OutboxRow → OutboxRow
leased state owner lease_until fencing time row = record row {
  state = state;
  lease_owner = some owner;
  lease_until = some lease_until;
  fencing_token = fencing;
  updated_at = time;
  revision = row.revision + 1;
}

abbrev pub committed : Database
committed = stored (first_attempt ∷ []) [] first_trail first_row

pub commits :
    commit_approval_and_attempt approving empty_store
    ≡ ok (committed, record { decision = approval; attempt = some first_attempt; created = true })
unfolding storing
commits = refl

-- The claims of the row, the second after the lease of the first has run out.
abbrev pub claim : String → ℕ → ℕ → OutboxClaim
claim owner lease_until fencing_token = record {
  namespace = office;
  outbox_id = "outbox-1";
  proposal_id = "proposal";
  approval_decision_id = "approval";
  effect_attempt_id = "attempt-1";
  effect_idempotency_key = "key";
  attempt_number = 1;
  lease_owner = owner;
  lease_until = at lease_until;
  fencing_token = fencing_token;
  schema_version = 1;
}

abbrev pub row_once : OutboxRow
row_once = leased Database.claimed "one" 45 1 40 first_row

abbrev pub claimed_once : Database
claimed_once = stored (first_attempt ∷ []) [] first_trail row_once

pub claims_once :
    claim_outbox office "one" (at 40) (at 45) committed ≡ ok (claimed_once, some (claim "one" 45 1))
unfolding storing
claims_once = refl

abbrev pub row_twice : OutboxRow
row_twice = leased Database.claimed "two" 80 2 50 row_once

abbrev pub claimed_twice : Database
claimed_twice = stored (first_attempt ∷ []) [] first_trail row_twice

pub claims_twice :
    claim_outbox office "two" (at 50) (at 80) claimed_once
    ≡ ok (claimed_twice, some (claim "two" 80 2))
unfolding storing
claims_twice = refl

abbrev pub started_attempt : EffectAttempt
started_attempt = record first_attempt {
  state = Attempt.started;
  occurred_at = at 55;
  revision = 2;
}

abbrev pub row_started : OutboxRow
row_started = record row_twice { state = Database.dispatching; updated_at = 55; revision = 4 }

abbrev pub dispatching : Database
dispatching =
    stored (started_attempt ∷ []) []
      (audited "effect_attempt" "attempt-1" 2 "worker" "approval" 55 ∷ first_trail) row_started

pub starts :
    mark_dispatch_started (claim "two" 80 2) (at 55) claimed_twice
    ≡ ok (dispatching, started_attempt)
unfolding storing
starts = refl
