-- ===== src/Core/Runtime/Chain.antt =====
-- core/runtime.py: the causal chain from an event through a wake cycle to an agenda item.
use digital_colleagues.Base.{
  ◌&&◌, some, ◌==◌, nat_eq, string_eq, option_eq, list_eq, Result, ◌>>◌, require, core_invariant,
  namespace_mismatch,
}
use digital_colleagues.Core.Namespace.{require_exact, namespace_eq}
use digital_colleagues.Core.Runtime.{InputEvent, WakeCycle}
use digital_colleagues.Core.Runtime.Agenda.{AgendaItem}

-- `validate_event_wake_agenda_chain`
unfoldable pub validate_event_wake_agenda_chain :
    InputEvent → WakeCycle → AgendaItem → Result (Unit {0})
validate_event_wake_agenda_chain event wake_cycle agenda_item = do
  require_exact event.namespace wake_cycle.namespace
  require_exact event.namespace agenda_item.namespace
  require
      (event.correlation_id == wake_cycle.correlation_id
        && event.correlation_id == agenda_item.correlation_id)
      namespace_mismatch
  require (wake_cycle.causation_id == some event.event_id) core_invariant
  require (agenda_item.wake_cycle_id == wake_cycle.wake_cycle_id) core_invariant
  require (agenda_item.source_event_id == some event.event_id) core_invariant
