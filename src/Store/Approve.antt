-- ===== src/Store/Approve.antt =====
-- adapters/sqlite/store.py: `commit_approval_and_attempt`. One transaction keeps the decision of a
-- human, its replay keys, the first attempt and the outbox row. `_bind_effect_approval_authority`
-- does nothing in this class.
pub mod Rows
use digital_colleagues.Base.{
  ℕ, zero, suc, ◌+◌, ◌-◌, ◌*◌, ◌/◌, ◌%◌, ◌≤◌, ◌<◌, ◌≡◌, refl, sym, ap, ◌∙◌, ◌≢◌, ◌↔◌, ◌⊎◌, inl, inr,
  Bool, true, false, not, ◌&&◌, ◌||◌, Option, none, some, List, [], ◌∷◌, ◌++◌, map, String, arith,
  Eq, ◌==◌, nat_eq, string_eq, option_eq, list_eq, List-discrete, Option-discrete, String-discrete,
  ℕ_discrete, ltb, leb, if◌then◌else◌, Bool-cases, Error, Result, ok, err, ◌>>=◌, ◌>>◌, require,
  core_invariant, namespace_mismatch, revision_mismatch, authorization, replay, lifecycle,
  not_found, conflict, permission_denied, persistence, integrity, >>=-ok_parts, Option-cases,
  or_raise,
}
use digital_colleagues.Base.Lists.{any}
use digital_colleagues.Core.Common.{DateTime, supported_schema, given}
use Prim.Native.String.{◌++◌ as join}
use digital_colleagues.Core.Common.Calendar
use digital_colleagues.Core.Namespace.{
  Namespace, NamespaceScope, Namespace-discrete, namespace_eq, require_exact,
}
use digital_colleagues.Core.Namespace
use digital_colleagues.Core.Principals.{
  Principal, Principal-discrete, principal_eq, tenant_admin, colleague_user,
}
use digital_colleagues.Core.Authority.{Mandate}
use digital_colleagues.Core.Effects.{EffectProposal}
use digital_colleagues.Core.Effects.Approval.{
  HumanApprovalDecision, ApprovalChoice, ApprovalChoice-discrete, choice_eq, approve, reject,
}
use digital_colleagues.Core.Effects.Approval
use digital_colleagues.Core.Effects.Attempt.{EffectAttempt, planned, construct_attempt}
use digital_colleagues.Governance.Approvals.{
  Evaluation, authorize_effect_proposal, authorize_human_approval,
}
use digital_colleagues.Store.Tables.{Key, key_eq, find, insert}
use digital_colleagues.Store.Records.{datetime_to_z, fetch, get_record}
use digital_colleagues.Store.Database.{
  Database, LedgerRow, ledger_key, OutboxRow, outbox_key, pending, principal_key, mandate_key,
  approval_columns, attempt_columns, proposal_columns, insert_approval, insert_attempt,
}
use digital_colleagues.Store.Approve.Rows.{
  Decision-discrete, decision_eq, decimal, Approving, proposal_binding, bound_key, ledger_row,
  decided, first_attempt, first_row, effect_row, same_effect, row_of_approval,
}

-- The arguments of `authorize_human_approval`, with its defaults.
abbrev pub evaluation_at : DateTime → Evaluation
evaluation_at occurred_at = record {
  evaluated_at = occurred_at;
  consumed_decision_ids = [];
  consumed_idempotency_keys = [];
  consumed_proposal_revisions = [];
  accepted_roles = tenant_admin ∷ colleague_user ∷ [];
  caller_supplied_role_ids = [];
}

-- `Namespace.principal`
abbrev pub principal_namespace : String → String → Result Namespace
principal_namespace tenant_id principal_id =
    Namespace.construct
      (record { tenant_id = tenant_id; scope = Namespace.principal; scope_id = some principal_id })

-- `authorization_decision`
abbrev pub authorization_decision : HumanApprovalDecision → Result HumanApprovalDecision
authorization_decision decision = elim decision.choice [
  | approve ↦ ok decision
  | reject ↦ Approval.construct (record decision { choice = approve })
]

-- What is read and checked before the decision is kept: the proposal that it binds.
unfoldable pub authorize : Approving → Database → Result EffectProposal
authorize self db = do
  proposal ← get_record proposal_columns self.namespace self.decision.proposal_id db.proposals
  mandate ← fetch mandate_key self.namespace self.mandate_id db.mandates
  approvers ← principal_namespace self.namespace.tenant_id self.decision.author.principal_id
  approver ← fetch principal_key approvers self.decision.author.principal_id db.principals
  require (approver == self.decision.author) permission_denied
  require (proposal.mandate_id == some mandate.mandate_id) permission_denied
  require (proposal.mandate_revision == some mandate.revision) permission_denied
  authorize_effect_proposal proposal mandate self.expected_mandate_revision
  decision ← authorization_decision self.decision
  receipt ← authorize_human_approval proposal decision (evaluation_at self.occurred_at)
  ok proposal

-- The decision and its two replay keys are inserted.
unfoldable pub keep_decision : Approving → EffectProposal → Database → Result Database
keep_decision self proposal db = do
  require (not (given (find ledger_key (bound_key self proposal) db.proposal_ledger))) conflict
  db ← insert_approval self.decision db
  at ← datetime_to_z self.occurred_at
  approvals ← insert ledger_key (decided self at self.decision.idempotency_key) db.approval_ledger
  proposals ← insert ledger_key (decided self at (proposal_binding proposal)) db.proposal_ledger
  ok (record db { approval_ledger = approvals; proposal_ledger = proposals })

-- The attempt and the outbox row of an approved effect. A constraint of the table that fails is a
-- conflict.
unfoldable pub plan_attempt :
    Approving → EffectProposal → Database → Result (Database × EffectAttempt)
plan_attempt self proposal db = do
  attempt ← construct_attempt (first_attempt self proposal)
  db ← insert_attempt attempt db
  at ← datetime_to_z self.occurred_at
  require (leb 1 proposal.constraints.maximum_attempts) conflict
  require (not (any (same_effect (first_row self proposal at)) db.outbox)) conflict
  outbox ← insert outbox_key (first_row self proposal at) db.outbox
  effects ← insert ledger_key (effect_row self proposal attempt at) db.effect_ledger
  ok (record db { outbox = outbox; effect_ledger = effects }, attempt)

-- What `commit_approval_and_attempt` returns.
pub record Approved : Type 0 where
  pub decision : HumanApprovalDecision
  pub attempt : Option EffectAttempt
  pub created : Bool

abbrev pub attempt_of_row : Namespace → Option OutboxRow → Database → Result (Option EffectAttempt)
attempt_of_row namespace none db = ok none
attempt_of_row namespace (some row) db =
    get_record attempt_columns namespace row.effect_attempt_id db.attempts >>= λ attempt.
    ok (some attempt)

-- The branch of a key that was used before: nothing changes.
unfoldable pub replay_decision : Approving → LedgerRow → Database → Result (Database × Approved)
replay_decision self used db = do
  existing ← get_record approval_columns self.namespace used.record_id db.approvals
  repeated ← Approval.construct (record self.decision {
    occurred_at = existing.occurred_at;
    valid_until = existing.valid_until;
  })
  require (repeated == existing) conflict
  attempt ←
      attempt_of_row self.namespace
        (row_of_approval self.namespace self.decision.approval_decision_id db.outbox) db
  ok (db, record { decision = existing; attempt = attempt; created = false })

-- What is returned with the first attempt.
abbrev pub with_attempt : Approving → Database × EffectAttempt → Result (Database × Approved)
with_attempt self made =
    ok (made.0, record { decision = self.decision; attempt = some made.1; created = true })

-- The branches of the choice, once the decision is kept.
unfoldable pub commit_choice : Approving → EffectProposal → Database → Result (Database × Approved)
commit_choice self proposal db = elim self.decision.choice [
  | reject ↦ ok (db, record { decision = self.decision; attempt = none; created = true })
  | approve ↦ plan_attempt self proposal db >>= with_attempt self
]

-- The branch of a new key.
unfoldable pub commit_decision : Approving → Database → Result (Database × Approved)
commit_decision self db = do
  proposal ← authorize self db
  db ← keep_decision self proposal db
  commit_choice self proposal db

-- The key of a replayed approval.
abbrev pub approval_ledger_key : Approving → Key
approval_ledger_key self = record { namespace = self.namespace; id = self.decision.idempotency_key }

-- `commit_approval_and_attempt`
unfoldable pub commit_approval_and_attempt : Approving → Database → Result (Database × Approved)
commit_approval_and_attempt self db = do
  require_exact self.namespace self.decision.namespace
  elim (find ledger_key (approval_ledger_key self) db.approval_ledger) [
    | none ↦ commit_decision self db
    | some used ↦ replay_decision self used db
  ]
