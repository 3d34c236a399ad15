-- ===== src/Core/Work.antt =====
-- core/work.py: finite work and its state machine.
pub mod Transitions
pub mod Graph
pub mod Duties
pub mod History
use digital_colleagues.Base.{
  ℕ, zero, suc, ◌+◌, ◌-◌, ◌*◌, ◌/◌, ◌%◌, ◌≤◌, ◌<◌, ◌≡◌, refl, sym, ap, ◌∙◌, ◌≢◌, ◌↔◌, ◌⊎◌, inl, inr,
  Bool, true, false, not, ◌&&◌, ◌||◌, Option, none, some, List, [], ◌∷◌, ◌++◌, map, String, arith,
  Eq, ◌==◌, nat_eq, string_eq, option_eq, list_eq, String-discrete, ℕ_discrete, ltb, leb,
  if◌then◌else◌, Bool-cases, Error, Result, ok, err, ◌>>=◌, ◌>>◌, require, core_invariant,
  namespace_mismatch, revision_mismatch, authorization, replay, lifecycle, >>=-ok_parts,
}
use digital_colleagues.Base.Lists.{elem, all, each}
use digital_colleagues.Core.Common.{
  DateTime, require_text, text_maximum, require_stable_id, require_schema_version, require_revision,
  require_utc, freeze_strings, require_optional_id,
}
use digital_colleagues.Core.Namespace.{Namespace, require_colleague, require_same_tenant}
use digital_colleagues.Core.Principals.{Principal}

pub record CompletionEvidence : Type 0 where
  pub evidence_id : String
  pub kind : String
  pub safe_summary : String
  pub observed_at : DateTime
  pub actor : Principal
  pub schema_version : ℕ

-- `CompletionEvidence.__post_init__`
unfoldable pub construct_evidence : CompletionEvidence → Result CompletionEvidence
construct_evidence self = do
  require_schema_version self.schema_version
  require_stable_id self.evidence_id
  require_stable_id self.kind
  safe_summary ← require_text 1024 self.safe_summary
  require_utc self.observed_at
  ok (record self { safe_summary = safe_summary })

pub data WorkState : Type 0 where
  planned ready in_progress blocked completed cancelled : WorkState

unfoldable pub WorkState-discrete : Discrete WorkState
WorkState-discrete = hlevel

instance abbrev pub work_state_eq : Eq WorkState
work_state_eq = record { decide_eq = WorkState-discrete }

-- `_WORK_TRANSITIONS`
abbrev pub work_transitions : WorkState → List WorkState
work_transitions planned = ready ∷ cancelled ∷ []
work_transitions ready = in_progress ∷ blocked ∷ cancelled ∷ []
work_transitions in_progress = blocked ∷ completed ∷ cancelled ∷ []
work_transitions blocked = ready ∷ in_progress ∷ cancelled ∷ []
work_transitions completed = []
work_transitions cancelled = []

pub record FiniteWork : Type 0 where
  pub namespace : Namespace
  pub work_id : String
  pub title : String
  pub description : String
  pub state : WorkState
  pub dependency_ids : List String
  pub responsibility_ids : List String
  pub assignee_principal_id : String
  pub actor : Principal
  pub mandate_id : String
  pub mandate_revision : ℕ
  pub completion_evidence : List CompletionEvidence
  pub correlation_id : String
  pub causation_id : Option String
  pub created_at : DateTime
  pub updated_at : DateTime
  pub revision : ℕ
  pub schema_version : ℕ

-- `bool(evidence)`
abbrev pub present : List CompletionEvidence → Bool
present [] = false
present (_ ∷ _) = true

-- `FiniteWork.__post_init__`
unfoldable pub construct : FiniteWork → Result FiniteWork
construct self = do
  require_schema_version self.schema_version
  require_colleague self.namespace
  require_stable_id self.work_id
  title ← require_text text_maximum self.title
  description ← require_text text_maximum self.description
  dependencies ← freeze_strings true self.dependency_ids
  each require_stable_id dependencies
  require (not (elem self.work_id dependencies)) core_invariant
  responsibilities ← freeze_strings false self.responsibility_ids
  each require_stable_id responsibilities
  require_stable_id self.assignee_principal_id
  require_same_tenant self.namespace self.actor.namespace
  require_stable_id self.mandate_id
  require_revision self.mandate_revision
  require (not (self.state == completed && not (present self.completion_evidence))) core_invariant
  require (not (not (self.state == completed) && present self.completion_evidence)) core_invariant
  each (λ item. require_same_tenant self.namespace item.actor.namespace) self.completion_evidence
  require_stable_id self.correlation_id
  require_optional_id self.causation_id
  require_utc self.created_at
  require_utc self.updated_at
  require (leb self.created_at.clock self.updated_at.clock) core_invariant
  require_revision self.revision
  ok (record self {
    title = title;
    description = description;
    dependency_ids = dependencies;
    responsibility_ids = responsibilities;
  })

-- The keyword arguments of `transition_work`.
pub record Transition : Type 0 where
  pub expected_revision : ℕ
  pub next_state : WorkState
  pub occurred_at : DateTime
  pub satisfied_dependency_ids : List String
  pub completion_evidence : List CompletionEvidence

-- `transition_work`; `replace` runs the constructor again.
unfoldable pub transition_work : FiniteWork → Transition → Result FiniteWork
transition_work work t = do
  require_utc t.occurred_at
  require (t.expected_revision == work.revision) revision_mismatch
  require (elem t.next_state (work_transitions work.state)) lifecycle
  require
      (not (elem t.next_state (ready ∷ in_progress ∷ []))
        || all (λ id. elem id t.satisfied_dependency_ids) work.dependency_ids)
      lifecycle
  require (not (t.next_state == completed && not (present t.completion_evidence))) lifecycle
  require (not (not (t.next_state == completed) && present t.completion_evidence)) lifecycle
  construct (record work {
    state = t.next_state;
    completion_evidence = t.completion_evidence;
    updated_at = t.occurred_at;
    revision = work.revision + 1;
  })
