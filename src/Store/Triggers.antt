-- ===== src/Store/Triggers.antt =====
-- adapters/sqlite/store.py: the triggers and their claims. application/contracts.py: the claim of a
-- trigger.
pub mod Sources
pub mod Materialize
pub mod Grows
use digital_colleagues.Base.{
  ℕ, zero, suc, ◌+◌, ◌-◌, ◌*◌, ◌/◌, ◌%◌, ◌≤◌, ◌<◌, ◌≡◌, refl, sym, ap, ◌∙◌, ◌≢◌, ◌↔◌, ◌⊎◌, inl, inr,
  Bool, true, false, not, ◌&&◌, ◌||◌, Option, none, some, List, [], ◌∷◌, ◌++◌, map, String, arith,
  Eq, ◌==◌, nat_eq, string_eq, option_eq, list_eq, List-discrete, Option-discrete, String-discrete,
  ℕ_discrete, ltb, leb, if◌then◌else◌, Bool-cases, Error, Result, ok, err, ◌>>=◌, ◌>>◌, require,
  core_invariant, namespace_mismatch, revision_mismatch, authorization, replay, lifecycle,
  not_found, conflict, permission_denied, persistence, integrity, >>=-ok_parts, Returns, ok_same,
  Option-cases, or_raise, or_raise-some,
}
use digital_colleagues.Base.Sorting.{str_leb}
use digital_colleagues.Core.Common.{
  DateTime, supported_schema, require_stable_id, require_schema_version, require_revision,
  require_utc,
}
use digital_colleagues.Core.Namespace.{Namespace, require_colleague, namespace_eq}
use digital_colleagues.Core.Runtime.{InputEvent, TimerOccurrence}
use digital_colleagues.Store.Tables.{Key, key_eq, find, update, touched}
use digital_colleagues.Store.Tables.Earliest.{earliest}
use digital_colleagues.Store.Records.{datetime_to_z}
use digital_colleagues.Store.Agenda.{AgendaTables}

-- The states of a trigger.
pub data TriggerState : Type 0 where
  pending claimed completed : TriggerState

-- A row of `triggers`, with its `event_id`, or of `timer_triggers`, with its `occurrence_id`.
pub record TriggerRow : Type 0 where
  pub namespace : Namespace
  pub trigger_id : String
  pub trigger_kind : String
  pub source_id : String
  pub due_at : ℕ
  pub state : TriggerState
  pub lease_owner : Option String
  pub lease_until : Option ℕ
  pub fencing_token : ℕ
  pub attempt_count : ℕ
  pub correlation_id : String
  pub causation_id : String
  pub revision : ℕ

abbrev pub trigger_key : TriggerRow → Key
trigger_key row = record { namespace = row.namespace; id = row.trigger_id }

-- The tables that the triggers work on, beside those of the agenda.
pub record TriggerTables : Type 0 where
  pub agenda : AgendaTables
  pub events : List InputEvent
  pub timers : List TimerOccurrence
  pub triggers : List TriggerRow
  pub timer_triggers : List TriggerRow

-- `source_record_type`
abbrev pub input_event : String
input_event = "input_event"

abbrev pub timer_occurrence : String
timer_occurrence = "timer_occurrence"

pub record TriggerClaim : Type 0 where
  pub namespace : Namespace
  pub trigger_id : String
  pub source_record_type : String
  pub source_id : String
  pub trigger_kind : String
  pub lease_owner : String
  pub lease_until : DateTime
  pub fencing_token : ℕ
  pub correlation_id : String
  pub causation_id : String
  pub schema_version : ℕ

-- `TriggerClaim.__post_init__`
unfoldable pub construct_trigger_claim : TriggerClaim → Result TriggerClaim
construct_trigger_claim self = do
  require_schema_version self.schema_version
  require_colleague self.namespace
  require_stable_id self.trigger_id
  require_stable_id self.source_record_type
  require_stable_id self.source_id
  require_stable_id self.trigger_kind
  require_stable_id self.lease_owner
  require_stable_id self.correlation_id
  require_stable_id self.causation_id
  require_utc self.lease_until
  require_revision self.fencing_token
  ok self

-- `state = 'pending' OR (state = 'claimed' AND lease_until < now)`
abbrev pub is_free : TriggerState → Option ℕ → ℕ → Bool
is_free pending lease_until now = true
is_free claimed none now = false
is_free claimed (some lease_until) now = ltb lease_until now
is_free completed lease_until now = false

-- The condition of the `SELECT` of either table.
unfoldable pub is_due : Namespace → ℕ → TriggerRow → Bool
is_due namespace now row =
    row.namespace == namespace && leb row.due_at now && is_free row.state row.lease_until now

-- `ORDER BY due_at, trigger_id`
unfoldable pub trigger_before : TriggerRow → TriggerRow → Bool
trigger_before row other =
    ltb row.due_at other.due_at
    || row.due_at == other.due_at && str_leb row.trigger_id other.trigger_id

-- The `min` of the candidates: of two with one due time and identifier, the event.
abbrev pub choose : Option TriggerRow → Option TriggerRow → Option (String × TriggerRow)
choose none none = none
choose (some event) none = some (input_event, event)
choose none (some timer) = some (timer_occurrence, timer)
choose (some event) (some timer) =
    if trigger_before event timer then some (input_event, event) else some (timer_occurrence, timer)

-- `trigger_table`, of the two that there are.
abbrev pub trigger_table : String → TriggerTables → List TriggerRow
trigger_table source db = if source == input_event then db.triggers else db.timer_triggers

abbrev pub with_table : String → List TriggerRow → TriggerTables → TriggerTables
with_table source rows db =
    if source == input_event
    then record db { triggers = rows }
    else record db { timer_triggers = rows }

-- The row after the `UPDATE`.
abbrev pub lease_trigger : String → ℕ → ℕ → TriggerRow → TriggerRow
lease_trigger owner lease_until fencing row = record row {
  state = claimed;
  lease_owner = some owner;
  lease_until = some lease_until;
  fencing_token = fencing;
  attempt_count = row.attempt_count + 1;
  revision = row.revision + 1;
}

-- What `claim_trigger` does with the row that it chose.
unfoldable pub claim_trigger_row :
    Namespace
    → String
    → DateTime
    → String
    → TriggerRow
    → TriggerTables
    → Result (TriggerTables × Option TriggerClaim)
claim_trigger_row namespace owner lease_until source row db = do
  let rows : List TriggerRow = trigger_table source db
  let same_revision : TriggerRow → Bool = λ other. other.revision == row.revision
  until ← datetime_to_z lease_until
  require (touched trigger_key (trigger_key row) same_revision rows) conflict
  claim ← construct_trigger_claim (record {
    namespace = namespace;
    trigger_id = row.trigger_id;
    source_record_type = source;
    source_id = row.source_id;
    trigger_kind = row.trigger_kind;
    lease_owner = owner;
    lease_until = lease_until;
    fencing_token = row.fencing_token + 1;
    correlation_id = row.correlation_id;
    causation_id = row.causation_id;
    schema_version = supported_schema;
  })
  let change : TriggerRow → TriggerRow = lease_trigger owner until (row.fencing_token + 1)
  ok (
    with_table source (update trigger_key (trigger_key row) same_revision change rows) db,
    some claim,
  )

-- `claim_trigger`
unfoldable pub claim_trigger :
    Namespace
    → String
    → DateTime
    → DateTime
    → TriggerTables
    → Result (TriggerTables × Option TriggerClaim)
claim_trigger namespace owner now lease_until db = do
  clock ← datetime_to_z now
  let event : Option TriggerRow = earliest (is_due namespace clock) trigger_before db.triggers
  let timer : Option TriggerRow = earliest (is_due namespace clock) trigger_before db.timer_triggers
  elim (choose event timer) [
    | none ↦ ok (db, none)
    | some (source, row) ↦ claim_trigger_row namespace owner lease_until source row db
  ]
