-- ===== src/Core/Runtime/Agenda.antt =====
-- core/runtime.py: agenda items, their order, and decisions.
use digital_colleagues.Base.{
  ℕ, Bool, true, false, not, ◌&&◌, ◌||◌, Option, none, some, List, [], ◌∷◌, String, ◌==◌, nat_eq,
  string_eq, option_eq, list_eq, leb, if◌then◌else◌, Result, ok, err, ◌>>=◌, ◌>>◌, require,
  core_invariant,
}
use digital_colleagues.Base.Lists.{elem, each}
use digital_colleagues.Core.Common.{
  DateTime, require_text, text_maximum, require_stable_id, require_revision, require_utc,
  freeze_strings, require_optional_id, require_optional, given,
}
use digital_colleagues.Core.Namespace.{Namespace}
use digital_colleagues.Core.Principals.{Principal}
use digital_colleagues.Core.Runtime.{validate_causal_record, validate_policy_binding}

pub data AgendaItemState : Type 0 where
  pending selected completed deferred cancelled : AgendaItemState

pub record AgendaItem : Type 0 where
  pub namespace : Namespace
  pub agenda_item_id : String
  pub wake_cycle_id : String
  pub source_event_id : Option String
  pub work_id : Option String
  pub title : String
  pub state : AgendaItemState
  pub priority : ℕ
  pub due_at : Option DateTime
  pub actor : Principal
  pub correlation_id : String
  pub causation_id : String
  pub occurred_at : DateTime
  pub revision : ℕ
  pub schema_version : ℕ
  pub generation : ℕ
  pub handled_generation : ℕ
  pub cause_ids : List String
  pub source_timer_occurrence_id : Option String
  pub policy_id : Option String
  pub policy_revision : Option ℕ

-- `self.source_event_id or self.source_timer_occurrence_id`; an event ID that is given is not empty.
abbrev pub source_of : AgendaItem → Option String
source_of self = elim self.source_event_id [
  | some id ↦ some id
  | none ↦ self.source_timer_occurrence_id
]

-- `self.cause_ids or (source_id,)`
abbrev pub default_causes : List String → String → List String
default_causes [] source = source ∷ []
default_causes (id ∷ ids) source = id ∷ ids

-- The part of `AgendaItem.__post_init__` on the causes; the assertion on the source holds.
abbrev pub freeze_causes : AgendaItem → Result (List String)
freeze_causes self = elim (source_of self) [
  | none ↦ err core_invariant
  | some source ↦ do
    causes ← freeze_strings false (default_causes self.cause_ids source)
    each require_stable_id causes
    require (elem source causes) core_invariant
    ok causes
]

-- `AgendaItem.__post_init__`
unfoldable pub construct_agenda : AgendaItem → Result AgendaItem
construct_agenda self = do
  require_stable_id self.agenda_item_id
  require_stable_id self.wake_cycle_id
  require
      (not (given self.source_event_id) && given self.source_timer_occurrence_id
        || given self.source_event_id && not (given self.source_timer_occurrence_id))
      core_invariant
  require_optional_id self.source_event_id
  require_optional_id self.source_timer_occurrence_id
  require_optional_id self.work_id
  title ← require_text text_maximum self.title
  require (leb self.priority 1000) core_invariant
  require_optional require_utc self.due_at
  validate_causal_record (record {
    namespace = self.namespace;
    actor = self.actor;
    correlation_id = self.correlation_id;
    causation_id = some self.causation_id;
    occurred_at = self.occurred_at;
    revision = self.revision;
    schema_version = self.schema_version;
  })
  require (self.causation_id == self.wake_cycle_id) core_invariant
  require_revision self.generation
  require (leb self.handled_generation self.generation) core_invariant
  causes ← freeze_causes self
  validate_policy_binding self.policy_id self.policy_revision
  ok (record self { title = title; cause_ids = causes })

pub data DecisionKind : Type 0 where
  propose_effect complete_item defer_item no_action : DecisionKind

abbrev pub proposes : DecisionKind → Bool
proposes propose_effect = true
proposes _ = false

pub record Decision : Type 0 where
  pub namespace : Namespace
  pub decision_id : String
  pub wake_cycle_id : String
  pub agenda_item_id : String
  pub kind : DecisionKind
  pub rationale : String
  pub proposed_effect_id : Option String
  pub actor : Principal
  pub correlation_id : String
  pub causation_id : String
  pub occurred_at : DateTime
  pub revision : ℕ
  pub schema_version : ℕ
  pub policy_id : Option String
  pub policy_revision : Option ℕ

-- `Decision.__post_init__`
unfoldable pub construct_decision : Decision → Result Decision
construct_decision self = do
  require_stable_id self.decision_id
  require_stable_id self.wake_cycle_id
  require_stable_id self.agenda_item_id
  rationale ← require_text 2048 self.rationale
  require_optional_id self.proposed_effect_id
  require
      (if proposes self.kind
        then given self.proposed_effect_id
        else not (given self.proposed_effect_id))
      core_invariant
  validate_causal_record (record {
    namespace = self.namespace;
    actor = self.actor;
    correlation_id = self.correlation_id;
    causation_id = some self.causation_id;
    occurred_at = self.occurred_at;
    revision = self.revision;
    schema_version = self.schema_version;
  })
  require (self.causation_id == self.agenda_item_id) core_invariant
  validate_policy_binding self.policy_id self.policy_revision
  ok (record self { rationale = rationale })
