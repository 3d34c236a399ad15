-- ===== src/Tests/Triggers.antt =====
-- The triggers of the SQLite store: an event becomes a new generation of an item that is selected.
use digital_colleagues.Base.{
  ◌≡◌, refl, none, some, [], ◌∷◌, nat_eq, string_eq, option_eq, list_eq, ok,
}
use digital_colleagues.Base.Sorting.{str_leb}
use digital_colleagues.Core.Common.Strip.{strip}
use digital_colleagues.Core.Namespace
use digital_colleagues.Core.Runtime
use digital_colleagues.Core.Runtime.{
  InputEvent, WakeCycle, validate_causal_record, validate_policy_binding, construct_wake,
}
use digital_colleagues.Core.Runtime.Agenda.{AgendaItem, construct_agenda}
use digital_colleagues.Store.Tables.{Key-discrete}
use digital_colleagues.Store.Records.{insert_audit, insert_record, update_record}
use digital_colleagues.Store.Agenda.{AgendaRow, AgendaTables, update_item}
use digital_colleagues.Store.Triggers
use digital_colleagues.Store.Triggers.{
  TriggerRow, TriggerTables, TriggerClaim, construct_trigger_claim, is_due, trigger_before,
  claim_trigger_row, claim_trigger,
}
use digital_colleagues.Store.Triggers.Sources.{event_source, timer_source, read_source}
use digital_colleagues.Store.Triggers.Materialize.{
  Materializing, insert_wake, create_item, renew_item, wake_item, materialize_agenda,
}
use digital_colleagues.Tests.Samples.{running, at, office, boss}
use digital_colleagues.Tests.Audit.{event, wake}
use digital_colleagues.Tests.Agenda.{item_busy, row_busy, busy, tables, trail_row}

abbrev second : InputEvent
second = record event { event_id = "event-2" }

abbrev waiting : TriggerRow
waiting = record {
  namespace = office;
  trigger_id = "trigger";
  trigger_kind = "event";
  source_id = "event-2";
  due_at = 10;
  state = Triggers.pending;
  lease_owner = none;
  lease_until = none;
  fencing_token = 0;
  attempt_count = 0;
  correlation_id = "c-1";
  causation_id = "event-2";
  revision = 1;
}

abbrev held : TriggerRow
held = record waiting {
  state = Triggers.claimed;
  lease_owner = some "one";
  lease_until = some 45;
  fencing_token = 1;
  attempt_count = 1;
  revision = 2;
}

abbrev started : AgendaTables → TriggerRow → TriggerTables
started agenda row = record {
  agenda = agenda;
  events = second ∷ [];
  timers = [];
  triggers = row ∷ [];
  timer_triggers = [];
}

abbrev claim : TriggerClaim
claim = record {
  namespace = office;
  trigger_id = "trigger";
  source_record_type = "input_event";
  source_id = "event-2";
  trigger_kind = "event";
  lease_owner = "one";
  lease_until = at 45;
  fencing_token = 1;
  correlation_id = "c-1";
  causation_id = "event-2";
  schema_version = 1;
}

-- What a run of the triggers computes with.
unfoldable triggering : Unit {0}
unfolding running validate_causal_record validate_policy_binding construct_wake construct_agenda
    Namespace.construct Key-discrete insert_audit insert_record update_record str_leb strip
    update_item construct_trigger_claim is_due trigger_before claim_trigger_row claim_trigger
    event_source timer_source read_source insert_wake create_item renew_item wake_item
    materialize_agenda
triggering = tt

claims :
    claim_trigger office "one" (at 40) (at 45) (started busy waiting)
    ≡ ok (started busy held, some claim)
unfolding triggering
claims = refl

abbrev given : Materializing
given = record {
  wake_cycle_id = "wake-2";
  agenda_item_id = "item-2";
  actor = boss;
  occurred_at = at 41;
}

abbrev second_wake : WakeCycle
second_wake = record wake {
  wake_cycle_id = "wake-2";
  state = Runtime.running;
  trigger_event_ids = "event-2" ∷ [];
  causation_id = some "event-2";
  occurred_at = at 41;
  checkpoint_generation = 3;
}

abbrev renewed : AgendaItem
renewed = record item_busy {
  wake_cycle_id = "wake-2";
  source_event_id = some "event-2";
  causation_id = "wake-2";
  occurred_at = at 41;
  revision = 4;
  generation = 3;
  cause_ids = "event" ∷ "event-2" ∷ [];
}

-- The item stays with its claim, and has a generation more.
abbrev row_renewed : AgendaRow
row_renewed = record row_busy {
  generation = 3;
  cause_ids = "event" ∷ "event-2" ∷ [];
  current_wake_cycle_id = "wake-2";
  revision = 4;
}

abbrev woken : AgendaTables
woken =
    record (tables renewed [] wake row_renewed 0 (
      trail_row "agenda_item" "item" 4 "wake-2" 41
      ∷ trail_row "wake_cycle" "wake-2" 1 "event-2" 41
      ∷ [])) { wakes = second_wake ∷ wake ∷ [] }

materializes :
    materialize_agenda given claim (started busy held)
    ≡ ok (
      started woken (record held {
        state = Triggers.completed;
        lease_owner = none;
        lease_until = none;
        revision = 3;
      }),
      second_wake,
      renewed,
    )
unfolding triggering
materializes = refl
