-- ===== src/Store/Outbox.antt =====
-- adapters/sqlite/store.py: claims of outbox rows.
use digital_colleagues.Base.{
  ℕ, ◌+◌, Bool, true, false, not, ◌&&◌, ◌||◌, Option, none, some, List, [], ◌∷◌, String, ◌==◌,
  nat_eq, string_eq, option_eq, list_eq, ltb, leb, Result, ok, ◌>>=◌, ◌>>◌, require, conflict,
  or_raise,
}
use digital_colleagues.Base.Lists.{elem}
use digital_colleagues.Base.Sorting.{str_leb}
use digital_colleagues.Core.Common.{DateTime, supported_schema}
use digital_colleagues.Core.Namespace.{Namespace, namespace_eq}
use digital_colleagues.Store.Contracts.{OutboxClaim, construct_claim}
use digital_colleagues.Store.Tables.{Key, key_eq, find, update, touched}
use digital_colleagues.Store.Tables.Earliest.{earliest}
use digital_colleagues.Store.Records.{datetime_to_z}
use digital_colleagues.Store.Database.{
  Database, OutboxRow, outbox_key, outbox_state_eq, OutboxState, pending, retry, claimed, ambiguous,
  ambiguous_claimed, LastOutcome, still_unknown_stopped,
}

-- The arguments of `_claim_outbox_state`.
pub record ClaimRequest : Type 0 where
  pub namespace : Namespace
  pub owner : String
  pub now : DateTime
  pub lease_until : DateTime
  pub source_states : List OutboxState
  pub target_state : OutboxState
  pub exclude_stopped_reconciliation : Bool

-- `last_outcome LIKE 'still_unknown_stopped:%'`
abbrev pub is_stopped : Option LastOutcome → Bool
is_stopped (some (still_unknown_stopped count)) = true
is_stopped _ = false

-- `lease_until IS NULL OR lease_until < now`
abbrev pub lease_over : Option ℕ → ℕ → Bool
lease_over none now = true
lease_over (some lease_until) now = ltb lease_until now

-- The condition of the `SELECT`.
unfoldable pub claimable : ClaimRequest → ℕ → OutboxRow → Bool
claimable request now row =
    row.namespace == request.namespace
    && elem row.state request.source_states
    && leb row.next_attempt_at now
    && lease_over row.lease_until now
    && leb row.attempt_number row.maximum_attempts
    && not (request.exclude_stopped_reconciliation && is_stopped row.last_outcome)

-- `ORDER BY next_attempt_at, outbox_id`
unfoldable pub due_before : OutboxRow → OutboxRow → Bool
due_before row other =
    ltb row.next_attempt_at other.next_attempt_at
    || row.next_attempt_at == other.next_attempt_at && str_leb row.outbox_id other.outbox_id

-- The row after the `UPDATE`.
abbrev pub leased : ClaimRequest → ℕ → ℕ → ℕ → OutboxRow → OutboxRow
leased request now lease_until fencing row = record row {
  state = request.target_state;
  lease_owner = some request.owner;
  lease_until = some lease_until;
  fencing_token = fencing;
  updated_at = now;
  revision = row.revision + 1;
}

abbrev pub claim_of : ClaimRequest → ℕ → OutboxRow → OutboxClaim
claim_of request fencing row = record {
  namespace = request.namespace;
  outbox_id = row.outbox_id;
  proposal_id = row.proposal_id;
  approval_decision_id = row.approval_decision_id;
  effect_attempt_id = row.effect_attempt_id;
  effect_idempotency_key = row.effect_idempotency_key;
  attempt_number = row.attempt_number;
  lease_owner = request.owner;
  lease_until = request.lease_until;
  fencing_token = fencing;
  schema_version = supported_schema;
}

-- What `_claim_outbox_state` does with the row that it selected.
unfoldable pub lease_row :
    ClaimRequest → ℕ → OutboxRow → Database → Result (Database × Option OutboxClaim)
lease_row request now row db = do
  lease_until ← datetime_to_z request.lease_until
  let same_revision : OutboxRow → Bool = λ other. other.revision == row.revision
  require (touched outbox_key (outbox_key row) same_revision db.outbox) conflict
  claim ← construct_claim (claim_of request (row.fencing_token + 1) row)
  let change : OutboxRow → OutboxRow = leased request now lease_until (row.fencing_token + 1)
  ok (
    record db { outbox = update outbox_key (outbox_key row) same_revision change db.outbox },
    some claim,
  )

-- `_claim_outbox_state`
unfoldable pub claim_outbox_state : ClaimRequest → Database → Result (Database × Option OutboxClaim)
claim_outbox_state request db = do
  now ← datetime_to_z request.now
  elim (earliest (claimable request now) due_before db.outbox) [
    | none ↦ ok (db, none)
    | some row ↦ lease_row request now row db
  ]

-- `claim_outbox`
abbrev pub claim_outbox :
    Namespace → String → DateTime → DateTime → Database → Result (Database × Option OutboxClaim)
claim_outbox namespace owner now lease_until = claim_outbox_state (record {
  namespace = namespace;
  owner = owner;
  now = now;
  lease_until = lease_until;
  source_states = pending ∷ retry ∷ claimed ∷ [];
  target_state = claimed;
  exclude_stopped_reconciliation = false;
})

-- `claim_ambiguous`
abbrev pub claim_ambiguous :
    Namespace → String → DateTime → DateTime → Database → Result (Database × Option OutboxClaim)
claim_ambiguous namespace owner now lease_until = claim_outbox_state (record {
  namespace = namespace;
  owner = owner;
  now = now;
  lease_until = lease_until;
  source_states = ambiguous ∷ ambiguous_claimed ∷ [];
  target_state = ambiguous_claimed;
  exclude_stopped_reconciliation = true;
})

abbrev pub claim_key : OutboxClaim → Key
claim_key claim = record { namespace = claim.namespace; id = claim.outbox_id }

-- The row is held by the claim, in one of the states.
unfoldable pub is_held_by : OutboxClaim → List OutboxState → ℕ → OutboxRow → Bool
is_held_by claim states lease_until row =
    elem row.state states
    && row.lease_owner == some claim.lease_owner
    && row.lease_until == some lease_until
    && row.fencing_token == claim.fencing_token
    && row.proposal_id == claim.proposal_id
    && row.approval_decision_id == claim.approval_decision_id
    && row.effect_attempt_id == claim.effect_attempt_id
    && row.effect_idempotency_key == claim.effect_idempotency_key
    && row.attempt_number == claim.attempt_number

-- `evaluated_at is not None and claim.lease_until < evaluated_at`
abbrev pub lease_expired : OutboxClaim → Option DateTime → Bool
lease_expired claim none = false
lease_expired claim (some evaluated_at) = ltb claim.lease_until.clock evaluated_at.clock

-- `_require_outbox_claim`. A claim's `lease_until` is in UTC, so its text is that of its clock.
unfoldable pub require_outbox_claim :
    OutboxClaim → List OutboxState → Option DateTime → Database → Result OutboxRow
require_outbox_claim claim states evaluated_at db = do
  row ← or_raise conflict (find outbox_key (claim_key claim) db.outbox)
  require (is_held_by claim states claim.lease_until.clock row) conflict
  require (not (lease_expired claim evaluated_at)) conflict
  ok row
