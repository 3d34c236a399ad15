-- ===== src/Store/Database.antt =====
-- The tables of the SQLite database that the outbox works on. A transaction is a function on the
-- database into `Result`: an exception rolls it back, and the caller keeps the database it had.
use digital_colleagues.Base.{
  ℕ, true, false, Option, some, List, String, Eq, nat_eq, string_eq, option_eq, list_eq, Result, ok,
  ◌>>=◌,
}
use digital_colleagues.Core.Namespace.{Namespace}
use digital_colleagues.Core.Principals.{Principal}
use digital_colleagues.Core.Authority.{Mandate}
use digital_colleagues.Core.Effects.{EffectProposal}
use digital_colleagues.Core.Effects.Approval.{HumanApprovalDecision}
use digital_colleagues.Core.Effects.Attempt.{EffectAttempt, ActionResult}
use digital_colleagues.Store.Contracts.{ChannelOutcomeKind, ReconciliationKind}
use digital_colleagues.Store.Tables.{Key}
use digital_colleagues.Store.Records.{Columns, AuditRow, insert_record, update_record}

-- A row of `replay_ledger`. The rows of one `ledger_kind` are a table of their own, since the kind
-- is a part of the primary key.
pub record LedgerRow : Type 0 where
  pub namespace : Namespace
  pub idempotency_key : String
  pub record_type : String
  pub record_id : String
  pub created_at : ℕ

abbrev pub ledger_key : LedgerRow → Key
ledger_key row = record { namespace = row.namespace; id = row.idempotency_key }

pub data OutboxState : Type 0 where
  pending retry claimed dispatching : OutboxState
  ambiguous ambiguous_claimed : OutboxState
  completed terminal_failed : OutboxState

unfoldable pub OutboxState-discrete : Discrete OutboxState
OutboxState-discrete = hlevel

instance abbrev pub outbox_state_eq : Eq OutboxState
outbox_state_eq = record { decide_eq = OutboxState-discrete }

-- The texts that the column `last_outcome` holds: the value of an outcome, or
-- `still_unknown_wait:` or `still_unknown_stopped:` and a number.
pub data LastOutcome : Type 0 where
  channel : ChannelOutcomeKind → LastOutcome
  reconciled : ReconciliationKind → LastOutcome
  still_unknown_wait still_unknown_stopped : ℕ → LastOutcome

-- A row of `outbox`. The points in time are texts of one length, which compare as the clocks do.
pub record OutboxRow : Type 0 where
  pub namespace : Namespace
  pub outbox_id : String
  pub proposal_id : String
  pub approval_decision_id : String
  pub effect_attempt_id : String
  pub effect_idempotency_key : String
  pub state : OutboxState
  pub attempt_number : ℕ
  pub maximum_attempts : ℕ
  pub next_attempt_at : ℕ
  pub lease_owner : Option String
  pub lease_until : Option ℕ
  pub fencing_token : ℕ
  pub last_outcome : Option LastOutcome
  pub actor_principal_id : String
  pub correlation_id : String
  pub causation_id : String
  pub created_at : ℕ
  pub updated_at : ℕ
  pub revision : ℕ

abbrev pub outbox_key : OutboxRow → Key
outbox_key row = record { namespace = row.namespace; id = row.outbox_id }

pub record Database : Type 0 where
  pub principals : List Principal
  pub mandates : List Mandate
  pub proposals : List EffectProposal
  pub approvals : List HumanApprovalDecision
  pub attempts : List EffectAttempt
  pub results : List ActionResult
  pub audit : List AuditRow
  pub approval_ledger : List LedgerRow
  pub proposal_ledger : List LedgerRow
  pub effect_ledger : List LedgerRow
  pub outbox : List OutboxRow

abbrev pub principal_key : Principal → Key
principal_key self = record { namespace = self.namespace; id = self.principal_id }

abbrev pub mandate_key : Mandate → Key
mandate_key self = record { namespace = self.namespace; id = self.mandate_id }

-- What `_RECORD_IDENTITIES` and the columns take from a record.
abbrev pub attempt_columns : EffectAttempt → Columns
attempt_columns self = record {
  namespace = self.namespace;
  record_type = "effect_attempt";
  record_id = self.effect_attempt_id;
  revision = self.revision;
  immutable = false;
  actor = self.actor;
  correlation_id = self.correlation_id;
  causation_id = some self.causation_id;
  occurred_at = self.occurred_at;
}

abbrev pub result_columns : ActionResult → Columns
result_columns self = record {
  namespace = self.namespace;
  record_type = "action_result";
  record_id = self.action_result_id;
  revision = self.revision;
  immutable = true;
  actor = self.actor;
  correlation_id = self.correlation_id;
  causation_id = some self.causation_id;
  occurred_at = self.occurred_at;
}

abbrev pub approval_columns : HumanApprovalDecision → Columns
approval_columns self = record {
  namespace = self.namespace;
  record_type = "human_approval";
  record_id = self.approval_decision_id;
  revision = self.revision;
  immutable = true;
  actor = self.author;
  correlation_id = self.correlation_id;
  causation_id = some self.causation_id;
  occurred_at = self.occurred_at;
}

abbrev pub proposal_columns : EffectProposal → Columns
proposal_columns self = record {
  namespace = self.namespace;
  record_type = "effect_proposal";
  record_id = self.proposal_id;
  revision = self.revision;
  immutable = true;
  actor = self.actor;
  correlation_id = self.correlation_id;
  causation_id = some self.causation_id;
  occurred_at = self.occurred_at;
}

unfoldable pub insert_attempt : EffectAttempt → Database → Result Database
insert_attempt self db = do
  after ← insert_record attempt_columns self db.attempts db.audit
  ok (record db { attempts = after.0; audit = after.1 })

unfoldable pub update_attempt : EffectAttempt → ℕ → Database → Result Database
update_attempt self expected_revision db = do
  after ← update_record attempt_columns self expected_revision db.attempts db.audit
  ok (record db { attempts = after.0; audit = after.1 })

unfoldable pub insert_result : ActionResult → Database → Result Database
insert_result self db = do
  after ← insert_record result_columns self db.results db.audit
  ok (record db { results = after.0; audit = after.1 })

unfoldable pub insert_approval : HumanApprovalDecision → Database → Result Database
insert_approval self db = do
  after ← insert_record approval_columns self db.approvals db.audit
  ok (record db { approvals = after.0; audit = after.1 })

unfoldable pub insert_proposal : EffectProposal → Database → Result Database
insert_proposal self db = do
  after ← insert_record proposal_columns self db.proposals db.audit
  ok (record db { proposals = after.0; audit = after.1 })
