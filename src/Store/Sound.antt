-- ===== src/Store/Sound.antt =====
-- What holds of every database that the transactions of the outbox leave.
pub mod Move
pub mod Claims
pub mod Writes
pub mod Held
pub mod Starts
pub mod Retries
pub mod Settles
pub mod Outcomes
pub mod Reconciles
pub mod Grow
pub mod Approvals
pub mod Approves
pub mod Order
pub mod Backoff
pub mod Replay
pub mod Again
use digital_colleagues.Base.{
  ℕ, zero, suc, ◌+◌, ◌-◌, ◌*◌, ◌/◌, ◌%◌, ◌≤◌, ◌<◌, ◌≡◌, refl, sym, ap, ◌∙◌, ◌≢◌, ◌↔◌, ◌⊎◌, inl, inr,
  Bool, true, false, not, ◌&&◌, ◌||◌, Option, none, some, List, [], ◌∷◌, ◌++◌, map, String, arith,
  Eq, ◌==◌, nat_eq, string_eq, option_eq, list_eq, List-discrete, Option-discrete, String-discrete,
  ℕ_discrete, ltb, leb, if◌then◌else◌, Bool-cases, Error, Result, ok, err, ◌>>=◌, ◌>>◌, require,
  core_invariant, namespace_mismatch, revision_mismatch, authorization, replay, lifecycle,
  not_found, conflict, permission_denied, persistence, integrity, >>=-ok_parts, Option-cases,
  or_raise,
}
use digital_colleagues.Core.Namespace.{Namespace, namespace_eq}
use digital_colleagues.Core.Principals.{human}
use digital_colleagues.Core.Effects.{EffectProposal}
use digital_colleagues.Core.Effects.Approval.{HumanApprovalDecision, approve}
use digital_colleagues.Core.Effects.Attempt
use digital_colleagues.Core.Effects.Attempt.{EffectAttempt, EffectAttemptState}
use digital_colleagues.Store.Tables.{Key, key_eq, find}
use digital_colleagues.Store.Tables.Keyed.{distinct_keys}
use digital_colleagues.Store.Records.{row_key}
use digital_colleagues.Store.Database
use digital_colleagues.Store.Database.{
  Database, OutboxRow, OutboxState, outbox_key, proposal_columns, approval_columns, attempt_columns,
}

abbrev pub attempt_key : EffectAttempt → Key
attempt_key = row_key attempt_columns

-- The attempt, the approval and the proposal that a row cites.
abbrev pub cited_attempt : OutboxRow → Key
cited_attempt row = record { namespace = row.namespace; id = row.effect_attempt_id }

abbrev pub cited_approval : OutboxRow → Key
cited_approval row = record { namespace = row.namespace; id = row.approval_decision_id }

abbrev pub cited_proposal : OutboxRow → Key
cited_proposal row = record { namespace = row.namespace; id = row.proposal_id }

-- The state of the attempt that a row cites, by the state of the row.
abbrev pub state_of_attempt : OutboxState → EffectAttemptState
state_of_attempt Database.pending = Attempt.planned
state_of_attempt Database.retry = Attempt.planned
state_of_attempt Database.claimed = Attempt.planned
state_of_attempt Database.dispatching = Attempt.started
state_of_attempt Database.ambiguous = Attempt.ambiguous
state_of_attempt Database.ambiguous_claimed = Attempt.ambiguous
state_of_attempt Database.completed = Attempt.succeeded
state_of_attempt Database.terminal_failed = Attempt.failed

-- A row and the attempt that it cites agree, and the attempt is within the limit.
pub record IsTracked (row : OutboxRow) (attempt : EffectAttempt) : Type 0 where
  pub same_number : row.attempt_number ≡ attempt.attempt_number
  pub same_proposal : row.proposal_id ≡ attempt.proposal_id
  pub same_approval : row.approval_decision_id ≡ attempt.approval_decision_id
  pub state_agrees : attempt.state ≡ state_of_attempt row.state
  pub counted : 1 ≤ row.attempt_number
  pub within_limit : row.attempt_number ≤ row.maximum_attempts

-- A human approved exactly the proposal that the row cites.
pub record IsBacked (row : OutboxRow) (approval : HumanApprovalDecision) (proposal : EffectProposal)
    : Type 0 where
  pub approves : approval.choice ≡ approve
  pub by_human : approval.author.kind ≡ human
  pub of_proposal : approval.proposal_id ≡ proposal.proposal_id
  pub of_revision : approval.proposal_revision ≡ proposal.revision
  pub of_digest : approval.proposal_digest ≡ proposal.proposal_digest
  pub same_key : row.effect_idempotency_key ≡ proposal.constraints.idempotency_key
  pub same_limit : row.maximum_attempts ≡ proposal.constraints.maximum_attempts

pub record IsSound (db : Database) : Type 0 where
  pub keyed : distinct_keys outbox_key db.outbox ≡ true
  pub tracked :
      (k : Key) (row : OutboxRow)
      → find outbox_key k db.outbox ≡ some row
      → (attempt : EffectAttempt) × (find attempt_key (cited_attempt row) db.attempts
          ≡ some attempt)
        × IsTracked row attempt
  pub apart :
      (k l : Key) (row other : OutboxRow)
      → find outbox_key k db.outbox ≡ some row
      → find outbox_key l db.outbox ≡ some other
      → cited_attempt row ≡ cited_attempt other
      → k ≡ l
  pub backed :
      (k : Key) (row : OutboxRow)
      → find outbox_key k db.outbox ≡ some row
      → (approval : HumanApprovalDecision) × (proposal : EffectProposal) × (find
            (row_key approval_columns)
            (cited_approval row)
            db.approvals
          ≡ some approval)
        × (find (row_key proposal_columns) (cited_proposal row) db.proposals ≡ some proposal)
        × IsBacked row approval proposal
