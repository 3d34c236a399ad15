-- ===== src/Store/Triggers/Sources.antt =====
-- adapters/sqlite/store.py: what a wake cycle and an agenda item take from the event or the timer
-- occurrence that caused them.
use digital_colleagues.Base.{
  ℕ, Option, none, some, List, [], ◌∷◌, String, ◌==◌, nat_eq, string_eq, option_eq, list_eq,
  if◌then◌else◌, Result, ok, ◌>>=◌,
}
use Prim.Native.String.{◌++◌ as join}
use digital_colleagues.Core.Common.Strip.{strip}
use digital_colleagues.Core.Common.Json.{Value, text, integer, lookup, ℤ, pos}
use digital_colleagues.Core.Namespace.{namespace_eq}
use digital_colleagues.Core.Runtime.{InputEvent, TimerOccurrence}
use digital_colleagues.Store.Tables.{Key, key_eq}
use digital_colleagues.Store.Records.{fetch}
use digital_colleagues.Store.Triggers.{TriggerTables, TriggerClaim, input_event}

-- `work_id if isinstance(work_id, str) and work_id else None`
abbrev pub work_of : Option Value → Option String
work_of (some (text id)) = if id == "" then none else some id
work_of _ = none

-- `raw_priority if type(raw_priority) is int else 100`
abbrev pub priority_of : Option Value → ℤ
priority_of (some (integer priority)) = priority
priority_of _ = pos 100

-- `raw_title if isinstance(raw_title, str) and raw_title.strip() else` the text
abbrev pub title_of : String → Option Value → String
title_of other (some (text title)) = if strip title == "" then other else title
title_of other _ = other

-- What `materialize_agenda` takes from the event or the occurrence.
pub record Source : Type 0 where
  pub source_key : String
  pub work_id : Option String
  pub priority : ℤ
  pub title : String
  pub source_event_id : Option String
  pub source_timer_id : Option String
  pub trigger_event_ids : List String
  pub trigger_timer_ids : List String
  pub correlation_id : String
  pub policy_id : Option String
  pub policy_revision : Option ℕ

-- `work:` and the work, or `event:` and the type of the event.
abbrev pub event_key : Option String → String → String
event_key none event_type = join "event:" event_type
event_key (some work) event_type = join "work:" work

-- `_event_source_key`, and what is said of an event.
unfoldable pub event_source : InputEvent → Source
event_source event =
    let given : String → Option Value = lookup event.safe_projection.as_entries in
    record {
      source_key = event_key (work_of (given "work_id")) event.event_type;
      work_id = work_of (given "work_id");
      priority = priority_of (given "priority");
      title = title_of "finite work update" (given "title");
      source_event_id = some event.event_id;
      source_timer_id = none;
      trigger_event_ids = event.event_id ∷ [];
      trigger_timer_ids = [];
      correlation_id = event.correlation_id;
      policy_id = event.policy_id;
      policy_revision = event.policy_revision;
    }

-- `_timer_source_key`, and what is said of an occurrence.
unfoldable pub timer_source : TimerOccurrence → Source
timer_source occurrence =
    let given : String → Option Value = lookup occurrence.safe_projection.as_entries in
    record {
      source_key = join "timer:" occurrence.timer_id;
      work_id = work_of (given "work_id");
      priority = priority_of (given "priority");
      title = title_of "scheduled timer work" (given "title");
      source_event_id = none;
      source_timer_id = some occurrence.occurrence_id;
      trigger_event_ids = [];
      trigger_timer_ids = occurrence.occurrence_id ∷ [];
      correlation_id = occurrence.correlation_id;
      policy_id = occurrence.policy_id;
      policy_revision = occurrence.policy_revision;
    }

abbrev event_row_key : InputEvent → Key
event_row_key self = record { namespace = self.namespace; id = self.event_id }

abbrev timer_row_key : TimerOccurrence → Key
timer_row_key self = record { namespace = self.namespace; id = self.occurrence_id }

-- The source that the claim cites.
unfoldable pub read_source : TriggerClaim → TriggerTables → Result Source
read_source claim db =
    if claim.source_record_type == input_event
    then (fetch event_row_key claim.namespace claim.source_id db.events >>= λ event.
        ok (event_source event))
    else (fetch timer_row_key claim.namespace claim.source_id db.timers >>= λ occurrence.
        ok (timer_source occurrence))
