-- ===== src/Store/Triggers/Materialize.antt =====
-- adapters/sqlite/store.py: a claimed trigger becomes a wake cycle, and an item of the agenda or a
-- new generation of one.
use digital_colleagues.Base.{
  ℕ, ◌+◌, Bool, true, false, not, ◌&&◌, ◌||◌, Option, none, some, List, [], ◌∷◌, ◌++◌, String, ◌==◌,
  nat_eq, string_eq, option_eq, list_eq, if◌then◌else◌, Result, ok, err, ◌>>=◌, ◌>>◌, require,
  core_invariant, conflict, integrity, or_raise,
}
use digital_colleagues.Base.Lists.{unique}
use digital_colleagues.Core.Common.{DateTime, supported_schema}
use digital_colleagues.Core.Common.Json.{ℤ, pos, negsuc}
use digital_colleagues.Core.Namespace.{Namespace, namespace_eq}
use digital_colleagues.Core.Principals.{Principal}
use digital_colleagues.Core.Runtime.{WakeCycle, running, construct_wake}
use digital_colleagues.Core.Runtime.Agenda.{
  AgendaItem, AgendaItemState, pending, selected, construct_agenda,
}
use digital_colleagues.Store.Tables.{Key, key_eq, find, holds, update, touched}
use digital_colleagues.Store.Records.{get_record, insert_record}
use digital_colleagues.Store.Agenda.{
  AgendaRow, agenda_key, AgendaTables, item_columns, update_item, is_selected,
}
use digital_colleagues.Store.Agenda.Commit.{wake_columns}
use digital_colleagues.Store.Triggers
use digital_colleagues.Store.Triggers.Sources.{Source, read_source}
use digital_colleagues.Store.Triggers.{
  TriggerState, TriggerRow, trigger_key, TriggerTables, TriggerClaim, input_event, timer_occurrence,
  trigger_table, with_table,
}

-- `SELECT * FROM agenda_runtime WHERE` the namespace and the source key are these
abbrev pub find_source : Namespace → String → List AgendaRow → Option AgendaRow
find_source namespace source_key [] = none
find_source namespace source_key (row ∷ rows) =
    if row.namespace == namespace && row.source_key == source_key
    then some row
    else find_source namespace source_key rows

-- A priority below 0 is refused by `AgendaItem.__post_init__`.
abbrev pub natural : ℤ → Result ℕ
natural (pos value) = ok value
natural (negsuc value) = err core_invariant

-- The arguments of `materialize_agenda` beside the claim.
pub record Materializing : Type 0 where
  pub wake_cycle_id : String
  pub agenda_item_id : String
  pub actor : Principal
  pub occurred_at : DateTime

unfoldable pub insert_wake : WakeCycle → AgendaTables → Result AgendaTables
insert_wake self db = do
  after ← insert_record wake_columns self db.wakes db.database.audit
  ok (record db { wakes = after.0; database = record db.database { audit = after.1 } })

-- The item that a source is given.
abbrev pub first_item : Materializing → TriggerClaim → Source → ℕ → AgendaItem
first_item given claim source priority = record {
  namespace = claim.namespace;
  agenda_item_id = given.agenda_item_id;
  wake_cycle_id = given.wake_cycle_id;
  source_event_id = source.source_event_id;
  work_id = source.work_id;
  title = source.title;
  state = pending;
  priority = priority;
  due_at = none;
  actor = given.actor;
  correlation_id = source.correlation_id;
  causation_id = given.wake_cycle_id;
  occurred_at = given.occurred_at;
  revision = 1;
  schema_version = supported_schema;
  generation = 1;
  handled_generation = 0;
  cause_ids = claim.source_id ∷ [];
  source_timer_occurrence_id = source.source_timer_id;
  policy_id = source.policy_id;
  policy_revision = source.policy_revision;
}

abbrev pub agenda_row : Materializing → TriggerClaim → Source → ℕ → AgendaRow
agenda_row given claim source priority = record {
  namespace = claim.namespace;
  agenda_item_id = given.agenda_item_id;
  source_key = source.source_key;
  generation = 1;
  handled_generation = 0;
  cause_ids = claim.source_id ∷ [];
  state = pending;
  priority = priority;
  due_at = none;
  starvation_count = 0;
  lease_owner = none;
  lease_until = none;
  fencing_token = 0;
  current_wake_cycle_id = given.wake_cycle_id;
  revision = 1;
}

-- The item and its row, when the source has none.
unfoldable pub create_item :
    Materializing → TriggerClaim → Source → AgendaTables → Result (AgendaTables × AgendaItem)
create_item given claim source db = do
  priority ← natural source.priority
  item ← construct_agenda (first_item given claim source priority)
  kept ← insert_record item_columns item db.items db.database.audit
  let row : AgendaRow = agenda_row given claim source priority
  require (not (holds agenda_key (agenda_key row) db.rows)) integrity
  ok (
    record db {
      items = kept.0;
      database = record db.database { audit = kept.1 };
      rows = row ∷ db.rows;
    },
    item,
  )

-- `AgendaItemState.SELECTED if existing["state"] == "selected" else AgendaItemState.PENDING`
abbrev pub renewed_state : AgendaItemState → AgendaItemState
renewed_state state = if is_selected state then selected else pending

-- The row after the `UPDATE`.
abbrev pub renew : Materializing → TriggerClaim → AgendaRow → AgendaRow → AgendaRow
renew given claim existing row = record row {
  generation = existing.generation + 1;
  cause_ids = existing.cause_ids ++ claim.source_id ∷ [];
  state = renewed_state existing.state;
  current_wake_cycle_id = given.wake_cycle_id;
  revision = row.revision + 1;
}

abbrev pub renewed_item :
    Materializing → TriggerClaim → Source → AgendaRow → AgendaItem → AgendaItem
renewed_item given claim source existing old = record old {
  wake_cycle_id = given.wake_cycle_id;
  source_event_id = source.source_event_id;
  source_timer_occurrence_id = source.source_timer_id;
  state = renewed_state existing.state;
  actor = given.actor;
  correlation_id = source.correlation_id;
  causation_id = given.wake_cycle_id;
  occurred_at = given.occurred_at;
  revision = old.revision + 1;
  generation = existing.generation + 1;
  cause_ids = existing.cause_ids ++ claim.source_id ∷ [];
  policy_id = source.policy_id;
  policy_revision = source.policy_revision;
}

-- A new generation of the item that the source has.
unfoldable pub renew_item :
    Materializing
    → TriggerClaim
    → Source
    → AgendaRow
    → AgendaTables
    → Result (AgendaTables × AgendaItem)
renew_item given claim source existing db = do
  old ← get_record item_columns claim.namespace existing.agenda_item_id db.items
  item ← construct_agenda (renewed_item given claim source existing old)
  kept ← update_item item old.revision db
  let k : Key = record { namespace = claim.namespace; id = existing.agenda_item_id }
  let rows : List AgendaRow =
      update agenda_key k (λ row. true) (renew given claim existing) kept.rows
  ok (record kept { rows = rows }, item)

abbrev pub make_item :
    Materializing
    → TriggerClaim
    → Source
    → Option AgendaRow
    → AgendaTables
    → Result (AgendaTables × AgendaItem)
make_item given claim source none db = create_item given claim source db
make_item given claim source (some existing) db = renew_item given claim source existing db

-- The wake cycle of the item.
abbrev pub woken_cycle : Materializing → TriggerClaim → Source → Option AgendaRow → WakeCycle
woken_cycle given claim source existing = record {
  namespace = claim.namespace;
  wake_cycle_id = given.wake_cycle_id;
  state = running;
  trigger_event_ids = source.trigger_event_ids;
  agenda_item_ids = elim existing [
    | none ↦ given.agenda_item_id ∷ []
    | some row ↦ row.agenda_item_id ∷ []
  ];
  actor = given.actor;
  correlation_id = source.correlation_id;
  causation_id = some claim.source_id;
  occurred_at = given.occurred_at;
  revision = 1;
  schema_version = supported_schema;
  fencing_token = claim.fencing_token;
  checkpoint_generation = elim existing [ none ↦ 1 | some row ↦ row.generation + 1 ];
  trigger_timer_occurrence_ids = source.trigger_timer_ids;
  policy_id = source.policy_id;
  policy_revision = source.policy_revision;
}

-- The causes of the generation.
abbrev pub causes_of : TriggerClaim → Option AgendaRow → List String
causes_of claim none = claim.source_id ∷ []
causes_of claim (some row) = row.cause_ids ++ claim.source_id ∷ []

-- The wake cycle of the item, and the item.
unfoldable pub wake_item :
    Materializing
    → TriggerClaim
    → Source
    → AgendaTables
    → Result (AgendaTables × WakeCycle × AgendaItem)
wake_item given claim source db = do
  let existing : Option AgendaRow = find_source claim.namespace source.source_key db.rows
  require (unique (causes_of claim existing)) conflict
  wake ← construct_wake (woken_cycle given claim source existing)
  woken ← insert_wake wake db
  made ← make_item given claim source existing woken
  ok (made.0, wake, made.1)

abbrev pub claimed_trigger : TriggerClaim → Key
claimed_trigger claim = record { namespace = claim.namespace; id = claim.trigger_id }

abbrev pub is_claimed : TriggerState → Bool
is_claimed Triggers.claimed = true
is_claimed _ = false

abbrev pub holds_trigger : TriggerClaim → TriggerRow → Bool
holds_trigger claim row =
    row.lease_owner == some claim.lease_owner && row.fencing_token == claim.fencing_token

-- `materialize_agenda`
unfoldable pub materialize_agenda :
    Materializing → TriggerClaim → TriggerTables → Result (TriggerTables × WakeCycle × AgendaItem)
materialize_agenda given claim db = do
  require (claim.source_record_type == input_event || claim.source_record_type == timer_occurrence)
      conflict
  let rows : List TriggerRow = trigger_table claim.source_record_type db
  let held : TriggerRow → Bool = holds_trigger claim
  trigger ← or_raise conflict (find trigger_key (claimed_trigger claim) rows)
  require (is_claimed trigger.state && held trigger) conflict
  source ← read_source claim db
  made ← wake_item given claim source db.agenda
  require (touched trigger_key (claimed_trigger claim) held rows) conflict
  let change : TriggerRow → TriggerRow = λ row. record row {
    state = Triggers.completed;
    lease_owner = none;
    lease_until = none;
    revision = row.revision + 1;
  }
  let after : List TriggerRow = update trigger_key (claimed_trigger claim) held change rows
  ok (with_table claim.source_record_type after (record db { agenda = made.0 }), made.1, made.2)
