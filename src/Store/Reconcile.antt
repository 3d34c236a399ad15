-- ===== src/Store/Reconcile.antt =====
-- adapters/sqlite/store.py: the reconciliation of an ambiguous effect.
use digital_colleagues.Base.{
  false, ℕ, zero, suc, ◌+◌, ◌-◌, ◌*◌, Bool, true, ◌&&◌, Option, none, some, [], ◌∷◌, ◌==◌, nat_eq,
  string_eq, option_eq, list_eq, leb, if◌then◌else◌, Result, ok, ◌>>=◌, ◌>>◌, require, conflict,
  language_error,
}
use digital_colleagues.Core.Common.{DateTime, UtcOffset, naive, failing_offset, ahead, behind}
use digital_colleagues.Core.Namespace.{namespace_eq}
use digital_colleagues.Core.Effects.Attempt
use digital_colleagues.Core.Effects.Attempt.{
  EffectAttempt, EffectAttemptState, construct_attempt, ActionResult, ActionResultState,
  construct_result,
}
use digital_colleagues.Store.Contracts.{
  OutboxClaim, ReconciliationKind, ReconciliationOutcome, confirmed_applied, confirmed_absent,
  still_unknown,
}
use digital_colleagues.Store.Records.{datetime_to_z, get_record}
use digital_colleagues.Store.Database
use digital_colleagues.Store.Database.{
  Database, OutboxRow, OutboxState, outbox_state_eq, ambiguous_claimed, LastOutcome,
  still_unknown_wait, still_unknown_stopped, attempt_columns, update_attempt, insert_result,
}
use digital_colleagues.Store.Outbox.{require_outbox_claim}
use digital_colleagues.Store.Dispatch.{
  attempt_state_eq, update_claimed, Report, reported, result_of, retry_of, settled,
}

-- `_RECONCILIATION_MAX_BACKOFF`, in microseconds
abbrev pub reconciliation_max_backoff : ℕ
reconciliation_max_backoff = 30000000

-- `_RECONCILIATION_MAX_CALLS`
abbrev pub reconciliation_max_calls : ℕ
reconciliation_max_calls = 8

abbrev pub min : ℕ → ℕ → ℕ
min a b = if leb a b then a else b

abbrev pub two_to : ℕ → ℕ
two_to zero = 1
two_to (suc n) = 2 * two_to n

-- `_reconciliation_count`
abbrev pub reconciliation_count : Option LastOutcome → ℕ
reconciliation_count (some (still_unknown_wait count)) = count
reconciliation_count (some (still_unknown_stopped count)) = count
reconciliation_count _ = 0

-- Whether one `datetime` can be subtracted from another: both are naive, or both have an offset.
abbrev pub subtracts : UtcOffset → UtcOffset → Bool
subtracts naive naive = true
subtracts naive _ = false
subtracts _ naive = false
subtracts failing_offset _ = false
subtracts _ failing_offset = false
subtracts _ _ = true

-- `base_delay`, the difference of two points in time; it is refused where it is negative or too long.
unfoldable pub base_delay : DateTime → Option DateTime → Result ℕ
base_delay occurred_at none = ok 0
base_delay occurred_at (some next) = do
  require (subtracts next.offset occurred_at.offset) language_error
  let from : ℕ = occurred_at.clock + behind occurred_at.offset + ahead next.offset
  let to : ℕ = next.clock + behind next.offset + ahead occurred_at.offset
  require (leb from to && leb (to - from) reconciliation_max_backoff) conflict
  ok (to - from)

-- The row after an answer that leaves the effect unknown.
abbrev pub waiting : ℕ → Bool → ℕ → ℕ → OutboxRow → OutboxRow
waiting count stopped next_attempt_at updated_at row = record row {
  state = Database.ambiguous;
  lease_owner = none;
  lease_until = none;
  next_attempt_at = next_attempt_at;
  last_outcome = some (if stopped then still_unknown_stopped count else still_unknown_wait count);
  updated_at = updated_at;
  revision = row.revision + 1;
}

-- The branch of `STILL_UNKNOWN`.
unfoldable pub still_waiting :
    OutboxClaim → OutboxRow → DateTime → Option DateTime → Database → Result Database
still_waiting claim row occurred_at next_reconciliation_at db = do
  base ← base_delay occurred_at next_reconciliation_at
  let count : ℕ = reconciliation_count row.last_outcome + 1
  let stopped : Bool = leb (min row.maximum_attempts reconciliation_max_calls) count
  let delay : ℕ = min (base * two_to (count - 1)) reconciliation_max_backoff
  updated_at ← datetime_to_z occurred_at
  ok (update_claimed claim (waiting count stopped (updated_at + delay) updated_at) db)

abbrev pub resolved_result : ReconciliationKind → ActionResultState
resolved_result confirmed_applied = Attempt.succeeded
resolved_result _ = Attempt.not_executed

abbrev pub resolved_attempt : ReconciliationKind → EffectAttemptState
resolved_attempt confirmed_applied = Attempt.succeeded
resolved_attempt _ = Attempt.failed

abbrev pub resolved_state : ReconciliationKind → OutboxState
resolved_state confirmed_absent = Database.terminal_failed
resolved_state _ = Database.completed

-- A retry is made only of an effect that is confirmed absent.
abbrev pub retry_if_absent : ReconciliationKind → Report → Report
retry_if_absent confirmed_absent report = report
retry_if_absent _ report = record report { next_attempt_id = none }

-- The branches of a known outcome.
unfoldable pub resolve :
    OutboxClaim
    → OutboxRow
    → EffectAttempt
    → ReconciliationOutcome
    → Report
    → Database
    → Result (Database × ActionResult)
resolve claim row attempt outcome report db = do
  after ← construct_attempt (reported (resolved_attempt outcome.kind) report attempt)
  db ← update_attempt after attempt.revision db
  result ← construct_result (
      result_of (resolved_result outcome.kind) outcome.safe_projection outcome.result_digest report
        claim.namespace attempt)
  db ← insert_result result db
  next ←
      retry_of true row attempt (resolved_state outcome.kind) (retry_if_absent outcome.kind report)
        db
  at ← datetime_to_z report.occurred_at
  let change : OutboxRow → OutboxRow =
      λ row. settled next.2 next.1 (Database.reconciled outcome.kind) row.actor_principal_id at row
  ok (update_claimed claim change next.0, result)

-- What the branches return.
abbrev pub without_result : Database → Result (Database × Option ActionResult)
without_result db = ok (db, none)

abbrev pub with_result : Database × ActionResult → Result (Database × Option ActionResult)
with_result done = ok (done.0, some done.1)

-- The branches of `reconcile_ambiguous`.
unfoldable pub reconcile_row :
    OutboxClaim
    → OutboxRow
    → EffectAttempt
    → ReconciliationOutcome
    → Report
    → Option DateTime
    → Database
    → Result (Database × Option ActionResult)
reconcile_row claim row attempt outcome report next_reconciliation_at db = elim outcome.kind [
  | still_unknown ↦
      still_waiting claim row report.occurred_at next_reconciliation_at db >>= without_result
  | _ ↦ resolve claim row attempt outcome report db >>= with_result
]

-- `reconcile_ambiguous`
unfoldable pub reconcile_ambiguous :
    OutboxClaim
    → ReconciliationOutcome
    → Report
    → Option DateTime
    → Database
    → Result (Database × Option ActionResult)
reconcile_ambiguous claim outcome report next_reconciliation_at db = do
  row ← require_outbox_claim claim (ambiguous_claimed ∷ []) (some report.occurred_at) db
  attempt ← get_record attempt_columns claim.namespace claim.effect_attempt_id db.attempts
  require (attempt.state == Attempt.ambiguous) conflict
  reconcile_row claim row attempt outcome report next_reconciliation_at db
