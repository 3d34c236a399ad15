-- ===== src/Store/Dispatch/Recovery.antt =====
-- adapters/sqlite/store.py: a dispatch whose lease ran out is recorded as ambiguous.
use digital_colleagues.Base.{
  ℕ, Bool, false, ◌&&◌, ◌||◌, Option, none, some, String, ◌==◌, nat_eq, string_eq, option_eq,
  list_eq, ltb, Result, ok, ◌>>=◌, core_invariant, or_raise,
}
use digital_colleagues.Base.Sorting.{str_leb}
use digital_colleagues.Core.Common.{DateTime, supported_schema}
use digital_colleagues.Core.Common.Json.{text, empty, entry}
use digital_colleagues.Core.Namespace.{Namespace, namespace_eq}
use digital_colleagues.Core.Principals.{Principal}
use digital_colleagues.Store.Contracts
use digital_colleagues.Store.Contracts.{
  OutboxClaim, construct_claim, ChannelOutcome, ChannelOutcomeKind, construct_outcome,
}
use digital_colleagues.Store.Tables.Earliest.{earliest}
use digital_colleagues.Store.Records.{datetime_to_z, datetime_from_z}
use digital_colleagues.Store.Database.{Database, OutboxRow, outbox_state_eq, dispatching}
use digital_colleagues.Store.Dispatch.{Report, finalize_dispatch}

-- The condition of the `SELECT`: a lease that is null is over at no time.
abbrev pub lease_passed : Option ℕ → ℕ → Bool
lease_passed none now = false
lease_passed (some lease_until) now = ltb lease_until now

unfoldable pub expired_dispatch : Namespace → ℕ → OutboxRow → Bool
expired_dispatch namespace now row =
    row.namespace == namespace && row.state == dispatching && lease_passed row.lease_until now

-- `ORDER BY lease_until, outbox_id`, on rows with a lease
abbrev pub lease_time : Option ℕ → ℕ
lease_time none = 0
lease_time (some lease_until) = lease_until

unfoldable pub lease_before : OutboxRow → OutboxRow → Bool
lease_before row other =
    ltb (lease_time row.lease_until) (lease_time other.lease_until)
    || lease_time row.lease_until == lease_time other.lease_until
      && str_leb row.outbox_id other.outbox_id

-- The claim that the row records. `OutboxClaim` refuses an owner that is null.
abbrev pub recorded_claim : Namespace → OutboxRow → Result OutboxClaim
recorded_claim namespace row = do
  lease_owner ← or_raise core_invariant row.lease_owner
  lease_until ← or_raise core_invariant row.lease_until
  construct_claim (record {
    namespace = namespace;
    outbox_id = row.outbox_id;
    proposal_id = row.proposal_id;
    approval_decision_id = row.approval_decision_id;
    effect_attempt_id = row.effect_attempt_id;
    effect_idempotency_key = row.effect_idempotency_key;
    attempt_number = row.attempt_number;
    lease_owner = lease_owner;
    lease_until = datetime_from_z lease_until;
    fencing_token = row.fencing_token;
    schema_version = supported_schema;
  })

-- `_digest_text`, the SHA-256 of a text, here of `restart-recovery`, a zero byte and the key.
module _ (recovery_digest : String → String) where
  abbrev pub synthetic : OutboxClaim → ChannelOutcome
  synthetic claim = record {
    kind = Contracts.ambiguous;
    safe_projection = record {
      as_entries = entry "outcome" (text "restart_recovery_ambiguous") empty;
    };
    result_digest = recovery_digest claim.effect_idempotency_key;
    schema_version = supported_schema;
  }

  -- What `recover_expired_dispatches` does with the row that it selected.
  unfoldable pub recover_row :
      Namespace → DateTime → Principal → String → OutboxRow → Database → Result (Database × ℕ)
  recover_row namespace now result_actor result_id row db = do
    claim ← recorded_claim namespace row
    outcome ← construct_outcome (synthetic claim)
    let report : Report = record {
      action_result_id = result_id;
      result_actor = result_actor;
      occurred_at = now;
      next_attempt_id = none;
    }
    done ← finalize_dispatch claim outcome report db
    ok (done.0, 1)

  -- `recover_expired_dispatches`
  unfoldable pub recover_expired_dispatches :
      Namespace → DateTime → Principal → String → Database → Result (Database × ℕ)
  recover_expired_dispatches namespace now result_actor result_id db = do
    at ← datetime_to_z now
    elim (earliest (expired_dispatch namespace at) lease_before db.outbox) [
      | none ↦ ok (db, 0)
      | some row ↦ recover_row namespace now result_actor result_id row db
    ]
