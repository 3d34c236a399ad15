-- ===== src/Tests/Store/Runs.antt =====
-- The end of the run, and the properties of the store at its databases.
use digital_colleagues.Base.{
  ℕ, ◌≡◌, refl, none, some, List, [], ◌∷◌, String, nat_eq, string_eq, option_eq, list_eq, ok,
}
use digital_colleagues.Core.Common.Json.{FrozenJsonObject, text, empty, entry}
use digital_colleagues.Core.Effects.Attempt
use digital_colleagues.Core.Effects.Attempt.{
  EffectAttempt, EffectAttemptState, ActionResult, ActionResultState,
}
use digital_colleagues.Store.Contracts
use digital_colleagues.Store.Contracts.{
  OutboxClaim, ChannelOutcome, ReconciliationOutcome, ReconciliationKind,
}
use digital_colleagues.Store.Records.{AuditRow}
use digital_colleagues.Store.Database
use digital_colleagues.Store.Database.{Database, OutboxRow, outbox_key, LedgerRow, ledger_key}
use digital_colleagues.Store.Outbox.{claim_ambiguous}
use digital_colleagues.Store.Dispatch.{Report, finalize_dispatch}
use digital_colleagues.Store.Reconcile.{reconcile_ambiguous}
use digital_colleagues.Tests.Samples.{at, office}
use digital_colleagues.Tests.Effects.{zeros}
use digital_colleagues.Tests.Store.{
  worker, storing, stored, audited, first_trail, leased, row_started, first_attempt, claim,
  dispatching,
}

abbrev pub sent : FrozenJsonObject
sent = record { as_entries = entry "sent" (text "maybe") empty }

abbrev pub report : String → ℕ → Report
report id time = record {
  action_result_id = id;
  result_actor = worker;
  occurred_at = at time;
  next_attempt_id = none;
}

abbrev pub unclear : ChannelOutcome
unclear = record {
  kind = Contracts.ambiguous;
  safe_projection = sent;
  result_digest = zeros;
  schema_version = 1;
}

abbrev pub result_of_attempt : String → ActionResultState → ℕ → ActionResult
result_of_attempt id state time = record {
  namespace = office;
  action_result_id = id;
  effect_attempt_id = "attempt-1";
  state = state;
  safe_projection = sent;
  result_digest = zeros;
  actor = worker;
  correlation_id = "c-1";
  causation_id = "attempt-1";
  occurred_at = at time;
  revision = 1;
  schema_version = 1;
}

abbrev pub over : EffectAttemptState → ℕ → ℕ → EffectAttempt
over state time revision = record first_attempt {
  state = state;
  occurred_at = at time;
  revision = revision;
}

-- The outcome is ambiguous.
abbrev pub row_reported : OutboxRow
row_reported = record row_started {
  state = Database.ambiguous;
  next_attempt_at = 60;
  lease_owner = none;
  lease_until = none;
  last_outcome = some (Database.channel Contracts.ambiguous);
  updated_at = 60;
  revision = 5;
}

abbrev pub trail_reported : List AuditRow
trail_reported =
    audited "action_result" "r-1" 1 "worker" "attempt-1" 60
    ∷ audited "effect_attempt" "attempt-1" 3 "worker" "approval" 60
    ∷ audited "effect_attempt" "attempt-1" 2 "worker" "approval" 55
    ∷ first_trail

abbrev pub reported : Database
reported =
    stored (over Attempt.ambiguous 60 3 ∷ []) (result_of_attempt "r-1" Attempt.ambiguous 60 ∷ [])
      trail_reported row_reported

pub reports :
    finalize_dispatch (claim "two" 80 2) unclear (report "r-1" 60) dispatching
    ≡ ok (reported, result_of_attempt "r-1" Attempt.ambiguous 60)
unfolding storing
reports = refl

-- It is claimed for reconciliation.
abbrev pub row_checking : OutboxRow
row_checking = leased Database.ambiguous_claimed "three" 99 3 70 row_reported

abbrev pub checking : Database
checking = record reported { outbox = row_checking ∷ [] }

pub checks :
    claim_ambiguous office "three" (at 70) (at 99) reported
    ≡ ok (checking, some (claim "three" 99 3))
unfolding storing
checks = refl

abbrev pub answer : ReconciliationKind → ReconciliationOutcome
answer kind = record {
  kind = kind;
  safe_projection = sent;
  result_digest = zeros;
  schema_version = 1;
}

-- It stays unknown, or turns out to be applied.
abbrev pub waiting : Database
waiting = record checking {
  outbox =
      record row_checking {
        state = Database.ambiguous;
        next_attempt_at = 76;
        lease_owner = none;
        lease_until = none;
        last_outcome = some (Database.still_unknown_wait 1);
        updated_at = 75;
        revision = 7;
      }
      ∷ [];
}

pub waits :
    reconcile_ambiguous
      (claim "three" 99 3)
      (answer Contracts.still_unknown)
      (report "r-2" 75)
      (some (at 76))
      checking
    ≡ ok (waiting, none)
unfolding storing
waits = refl

abbrev pub row_finished : OutboxRow
row_finished = record row_checking {
  state = Database.completed;
  next_attempt_at = 75;
  lease_owner = none;
  lease_until = none;
  last_outcome = some (Database.reconciled Contracts.confirmed_applied);
  updated_at = 75;
  revision = 7;
}

abbrev pub finished : Database
finished =
    stored (over Attempt.succeeded 75 4 ∷ [])
      (result_of_attempt "r-2" Attempt.succeeded 75
        ∷ result_of_attempt "r-1" Attempt.ambiguous 60
        ∷ [])
      (audited "action_result" "r-2" 1 "worker" "attempt-1" 75
        ∷ audited "effect_attempt" "attempt-1" 4 "worker" "approval" 75
        ∷ trail_reported)
      row_finished

pub finishes :
    reconcile_ambiguous
      (claim "three" 99 3)
      (answer Contracts.confirmed_applied)
      (report "r-2" 75)
      none
      checking
    ≡ ok (finished, some (result_of_attempt "r-2" Attempt.succeeded 75))
unfolding storing
finishes = refl
