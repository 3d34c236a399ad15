-- ===== src/Store/Dispatch.antt =====
-- adapters/sqlite/store.py: the dispatch of an effect, its outcome, and the recovery of a dispatch
-- that never reported.
pub mod Recovery
use digital_colleagues.Base.{
  ℕ, zero, suc, ◌+◌, ◌-◌, ◌*◌, ◌/◌, ◌%◌, ◌≤◌, ◌<◌, ◌≡◌, refl, sym, ap, ◌∙◌, ◌≢◌, ◌↔◌, ◌⊎◌, inl, inr,
  Bool, true, false, not, ◌&&◌, ◌||◌, Option, none, some, List, [], ◌∷◌, ◌++◌, map, String, arith,
  Eq, ◌==◌, nat_eq, string_eq, option_eq, list_eq, List-discrete, Option-discrete, String-discrete,
  ℕ_discrete, ltb, leb, if◌then◌else◌, Bool-cases, Error, Result, ok, err, ◌>>=◌, ◌>>◌, require,
  core_invariant, namespace_mismatch, revision_mismatch, authorization, replay, lifecycle,
  not_found, conflict, permission_denied, persistence, integrity, >>=-ok_parts, Option-cases,
  or_raise,
}
use digital_colleagues.Core.Common.{DateTime, supported_schema}
use digital_colleagues.Core.Common.Json.{FrozenJsonObject, text, empty, entry}
use digital_colleagues.Core.Namespace.{Namespace, namespace_eq}
use digital_colleagues.Core.Principals.{Principal}
use digital_colleagues.Core.Effects.Attempt.{
  EffectAttempt, EffectAttemptState, planned, started, construct_attempt, ActionResult,
  ActionResultState, construct_result,
}
use digital_colleagues.Core.Effects.Attempt
use digital_colleagues.Store.Contracts.{
  OutboxClaim, construct_claim, ChannelOutcome, ChannelOutcomeKind, construct_outcome,
}
use digital_colleagues.Store.Contracts
use digital_colleagues.Store.Tables.{Key, key_eq, find, update}
use digital_colleagues.Store.Tables.Earliest.{earliest}
use digital_colleagues.Store.Records.{datetime_to_z, datetime_from_z, get_record}
use digital_colleagues.Store.Database
use digital_colleagues.Store.Database.{
  Database, OutboxRow, outbox_key, OutboxState, outbox_state_eq, claimed, dispatching, LastOutcome,
  attempt_columns, insert_attempt, update_attempt, insert_result,
}
use digital_colleagues.Store.Outbox.{claim_key, require_outbox_claim}

unfoldable pub AttemptState-discrete : Discrete EffectAttemptState
AttemptState-discrete = hlevel

instance abbrev pub attempt_state_eq : Eq EffectAttemptState
attempt_state_eq = record { decide_eq = AttemptState-discrete }

-- `UPDATE outbox ... WHERE` the row is the claim's and still has its owner and its token.
abbrev pub has_lease : OutboxClaim → OutboxRow → Bool
has_lease claim row =
    row.lease_owner == some claim.lease_owner && row.fencing_token == claim.fencing_token

abbrev pub update_claimed : OutboxClaim → (OutboxRow → OutboxRow) → Database → Database
update_claimed claim change db = record db {
  outbox = update outbox_key (claim_key claim) (has_lease claim) change db.outbox;
}

-- `mark_dispatch_started`
unfoldable pub mark_dispatch_started :
    OutboxClaim → DateTime → Database → Result (Database × EffectAttempt)
mark_dispatch_started claim occurred_at db = do
  row ← require_outbox_claim claim (claimed ∷ []) none db
  attempt ← get_record attempt_columns claim.namespace claim.effect_attempt_id db.attempts
  require (attempt.state == planned) conflict
  after ← construct_attempt (record attempt {
    state = started;
    occurred_at = occurred_at;
    revision = attempt.revision + 1;
  })
  db ← update_attempt after attempt.revision db
  updated_at ← datetime_to_z occurred_at
  let change : OutboxRow → OutboxRow = λ row. record row {
    state = dispatching;
    updated_at = updated_at;
    revision = row.revision + 1;
  }
  ok (update_claimed claim change db, after)

-- `_result_states`
abbrev pub result_state_of : ChannelOutcomeKind → ActionResultState
result_state_of Contracts.succeeded = Attempt.succeeded
result_state_of Contracts.known_not_executed = Attempt.not_executed
result_state_of Contracts.retryable_failure = Attempt.retryable_failure
result_state_of Contracts.permanent_failure = Attempt.permanent_failure
result_state_of Contracts.ambiguous = Attempt.ambiguous

abbrev pub attempt_state_of : ChannelOutcomeKind → EffectAttemptState
attempt_state_of Contracts.succeeded = Attempt.succeeded
attempt_state_of Contracts.ambiguous = Attempt.ambiguous
attempt_state_of _ = Attempt.failed

abbrev pub outbox_state_of : ChannelOutcomeKind → OutboxState
outbox_state_of Contracts.succeeded = Database.completed
outbox_state_of Contracts.ambiguous = Database.ambiguous
outbox_state_of _ = Database.terminal_failed

-- `outcome.kind in {KNOWN_NOT_EXECUTED, RETRYABLE_FAILURE}`
abbrev pub is_absent : ChannelOutcomeKind → Bool
is_absent Contracts.known_not_executed = true
is_absent Contracts.retryable_failure = true
is_absent _ = false

-- `_create_retry_attempt`
unfoldable pub create_retry_attempt :
    EffectAttempt → String → Principal → DateTime → Database → Result (Database × EffectAttempt)
create_retry_attempt previous next_attempt_id actor occurred_at db = do
  next ← construct_attempt (record {
    namespace = previous.namespace;
    effect_attempt_id = next_attempt_id;
    proposal_id = previous.proposal_id;
    proposal_revision = previous.proposal_revision;
    approval_decision_id = previous.approval_decision_id;
    attempt_number = previous.attempt_number + 1;
    state = planned;
    actor = actor;
    correlation_id = previous.correlation_id;
    causation_id = previous.approval_decision_id;
    occurred_at = occurred_at;
    revision = 1;
    schema_version = supported_schema;
  })
  db ← insert_attempt next db
  ok (db, next)

-- The arguments that `finalize_dispatch` and `reconcile_ambiguous` share.
pub record Report : Type 0 where
  pub action_result_id : String
  pub result_actor : Principal
  pub occurred_at : DateTime
  pub next_attempt_id : Option String

-- The attempt, and the result, that an outcome leaves.
abbrev pub reported : EffectAttemptState → Report → EffectAttempt → EffectAttempt
reported state report attempt = record attempt {
  state = state;
  actor = report.result_actor;
  occurred_at = report.occurred_at;
  revision = attempt.revision + 1;
}

abbrev pub result_of :
    ActionResultState
    → FrozenJsonObject
    → String
    → Report
    → Namespace
    → EffectAttempt
    → ActionResult
result_of state safe_projection result_digest report namespace attempt = record {
  namespace = namespace;
  action_result_id = report.action_result_id;
  effect_attempt_id = attempt.effect_attempt_id;
  state = state;
  safe_projection = safe_projection;
  result_digest = result_digest;
  actor = report.result_actor;
  correlation_id = attempt.correlation_id;
  causation_id = attempt.effect_attempt_id;
  occurred_at = report.occurred_at;
  revision = 1;
  schema_version = supported_schema;
}

-- A retry that is asked for.
unfoldable pub plan_retry :
    Bool
    → OutboxRow
    → EffectAttempt
    → Report
    → String
    → Database
    → Result (Database × EffectAttempt × OutboxState)
plan_retry confirmed_absent row attempt report next_attempt_id db = do
  require confirmed_absent conflict
  require (ltb attempt.attempt_number row.maximum_attempts) conflict
  next ← create_retry_attempt attempt next_attempt_id report.result_actor report.occurred_at db
  ok (next.0, next.1, Database.retry)

-- The attempt that the row cites afterwards, and the state of the row.
abbrev pub retry_of :
    Bool
    → OutboxRow
    → EffectAttempt
    → OutboxState
    → Report
    → Database
    → Result (Database × EffectAttempt × OutboxState)
retry_of confirmed_absent row attempt state report db = elim report.next_attempt_id [
  | none ↦ ok (db, attempt, state)
  | some next_attempt_id ↦ plan_retry confirmed_absent row attempt report next_attempt_id db
]

-- The row after the `UPDATE` that closes a claim.
abbrev pub settled : OutboxState → EffectAttempt → LastOutcome → String → ℕ → OutboxRow → OutboxRow
settled state attempt outcome actor_principal_id at row = record row {
  state = state;
  effect_attempt_id = attempt.effect_attempt_id;
  attempt_number = attempt.attempt_number;
  next_attempt_at = at;
  lease_owner = none;
  lease_until = none;
  last_outcome = some outcome;
  actor_principal_id = actor_principal_id;
  updated_at = at;
  revision = row.revision + 1;
}

-- `_finalize_dispatch_in_transaction`, where `required_state` is `dispatching`, as it is in both
-- calls.
unfoldable pub finalize_dispatch :
    OutboxClaim → ChannelOutcome → Report → Database → Result (Database × ActionResult)
finalize_dispatch claim outcome report db = do
  row ← require_outbox_claim claim (dispatching ∷ []) none db
  attempt ← get_record attempt_columns claim.namespace claim.effect_attempt_id db.attempts
  require (attempt.state == started) conflict
  after ← construct_attempt (reported (attempt_state_of outcome.kind) report attempt)
  db ← update_attempt after attempt.revision db
  result ← construct_result (
      result_of (result_state_of outcome.kind) outcome.safe_projection outcome.result_digest report
        claim.namespace attempt)
  db ← insert_result result db
  next ← retry_of (is_absent outcome.kind) row attempt (outbox_state_of outcome.kind) report db
  at ← datetime_to_z report.occurred_at
  let change : OutboxRow → OutboxRow =
      settled next.2 next.1 (Database.channel outcome.kind) report.result_actor.principal_id at
  ok (update_claimed claim change next.0, result)
