-- ===== src/Core/Runtime.antt =====
-- core/runtime.py: events, timers, wake cycles, agenda items and decisions.
pub mod Agenda
pub mod Chain
use digital_colleagues.Base.{
  ℕ, zero, suc, ◌+◌, ◌-◌, ◌*◌, ◌/◌, ◌%◌, ◌≤◌, ◌<◌, ◌≡◌, refl, sym, ap, ◌∙◌, ◌≢◌, ◌↔◌, ◌⊎◌, inl, inr,
  Bool, true, false, not, ◌&&◌, ◌||◌, Option, none, some, List, [], ◌∷◌, ◌++◌, map, String, arith,
  Eq, ◌==◌, nat_eq, string_eq, option_eq, list_eq, List-discrete, Option-discrete, String-discrete,
  ℕ_discrete, ltb, leb, if◌then◌else◌, Bool-cases, Error, Result, ok, err, ◌>>=◌, ◌>>◌, require,
  core_invariant, namespace_mismatch, revision_mismatch, authorization, replay, lifecycle,
  >>=-ok_parts,
}
use digital_colleagues.Base.Lists.{elem, each}
use digital_colleagues.Core.Common.{
  DateTime, require_text, text_maximum, require_stable_id, require_schema_version, require_revision,
  require_utc, require_digest, freeze_strings, require_optional_id, require_optional, given, filled,
}
use digital_colleagues.Core.Common.Json.{FrozenJsonObject}
use digital_colleagues.Core.Namespace.{
  Namespace, require_colleague, require_same_tenant, require_exact, namespace_eq,
}
use digital_colleagues.Core.Principals.{Principal}

-- The keyword arguments of `_validate_causal_record`.
pub record CausalRecord : Type 0 where
  pub namespace : Namespace
  pub actor : Principal
  pub correlation_id : String
  pub causation_id : Option String
  pub occurred_at : DateTime
  pub revision : ℕ
  pub schema_version : ℕ

-- `_validate_causal_record`
unfoldable pub validate_causal_record : CausalRecord → Result (Unit {0})
validate_causal_record self = do
  require_schema_version self.schema_version
  require_colleague self.namespace
  require_same_tenant self.namespace self.actor.namespace
  require_stable_id self.correlation_id
  require_optional_id self.causation_id
  require_utc self.occurred_at
  require_revision self.revision

-- `_validate_policy_binding`
unfoldable pub validate_policy_binding : Option String → Option ℕ → Result (Unit {0})
validate_policy_binding none none = ok tt
validate_policy_binding (some policy_id) (some policy_revision) =
    require_stable_id policy_id >> require_revision policy_revision
validate_policy_binding none (some _) = err core_invariant
validate_policy_binding (some _) none = err core_invariant

pub data InputEventState : Type 0 where
  received accepted rejected : InputEventState

pub record InputEvent : Type 0 where
  pub namespace : Namespace
  pub event_id : String
  pub event_type : String
  pub state : InputEventState
  pub safe_projection : FrozenJsonObject
  pub payload_digest : String
  pub actor : Principal
  pub correlation_id : String
  pub causation_id : Option String
  pub occurred_at : DateTime
  pub revision : ℕ
  pub schema_version : ℕ
  pub policy_id : Option String
  pub policy_revision : Option ℕ

-- `InputEvent.__post_init__`
unfoldable pub construct_event : InputEvent → Result InputEvent
construct_event self = do
  require_stable_id self.event_id
  require_stable_id self.event_type
  require_digest self.payload_digest
  validate_causal_record (record {
    namespace = self.namespace;
    actor = self.actor;
    correlation_id = self.correlation_id;
    causation_id = self.causation_id;
    occurred_at = self.occurred_at;
    revision = self.revision;
    schema_version = self.schema_version;
  })
  validate_policy_binding self.policy_id self.policy_revision
  ok self

pub data TimerOccurrenceState : Type 0 where
  scheduled due : TimerOccurrenceState

pub record TimerOccurrence : Type 0 where
  pub namespace : Namespace
  pub timer_id : String
  pub occurrence_id : String
  pub state : TimerOccurrenceState
  pub due_at : DateTime
  pub safe_projection : FrozenJsonObject
  pub actor : Principal
  pub correlation_id : String
  pub causation_id : Option String
  pub occurred_at : DateTime
  pub revision : ℕ
  pub schema_version : ℕ
  pub policy_id : Option String
  pub policy_revision : Option ℕ

-- `TimerOccurrence.__post_init__`
unfoldable pub construct_timer : TimerOccurrence → Result TimerOccurrence
construct_timer self = do
  require_stable_id self.timer_id
  require_stable_id self.occurrence_id
  require_utc self.due_at
  validate_causal_record (record {
    namespace = self.namespace;
    actor = self.actor;
    correlation_id = self.correlation_id;
    causation_id = self.causation_id;
    occurred_at = self.occurred_at;
    revision = self.revision;
    schema_version = self.schema_version;
  })
  validate_policy_binding self.policy_id self.policy_revision
  ok self

pub data WakeCycleState : Type 0 where
  planned running completed failed cancelled : WakeCycleState

pub record WakeCycle : Type 0 where
  pub namespace : Namespace
  pub wake_cycle_id : String
  pub state : WakeCycleState
  pub trigger_event_ids : List String
  pub agenda_item_ids : List String
  pub actor : Principal
  pub correlation_id : String
  pub causation_id : Option String
  pub occurred_at : DateTime
  pub revision : ℕ
  pub schema_version : ℕ
  pub fencing_token : ℕ
  pub checkpoint_generation : ℕ
  pub trigger_timer_occurrence_ids : List String
  pub policy_id : Option String
  pub policy_revision : Option ℕ

-- `value in ids` for a value that may be `None`
abbrev pub names_one : Option String → List String → Bool
names_one none ids = false
names_one (some id) ids = elem id ids

-- `WakeCycle.__post_init__`
unfoldable pub construct_wake : WakeCycle → Result WakeCycle
construct_wake self = do
  require_stable_id self.wake_cycle_id
  trigger_ids ← freeze_strings true self.trigger_event_ids
  timer_ids ← freeze_strings true self.trigger_timer_occurrence_ids
  require (filled trigger_ids || filled timer_ids) core_invariant
  agenda_ids ← freeze_strings true self.agenda_item_ids
  each require_stable_id (trigger_ids ++ timer_ids ++ agenda_ids)
  validate_causal_record (record {
    namespace = self.namespace;
    actor = self.actor;
    correlation_id = self.correlation_id;
    causation_id = self.causation_id;
    occurred_at = self.occurred_at;
    revision = self.revision;
    schema_version = self.schema_version;
  })
  require (names_one self.causation_id (trigger_ids ++ timer_ids)) core_invariant
  require_revision self.fencing_token
  require_revision self.checkpoint_generation
  validate_policy_binding self.policy_id self.policy_revision
  ok (record self {
    trigger_event_ids = trigger_ids;
    trigger_timer_occurrence_ids = timer_ids;
    agenda_item_ids = agenda_ids;
  })
