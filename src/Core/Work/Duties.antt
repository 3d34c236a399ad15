-- ===== src/Core/Work/Duties.antt =====
-- core/work.py: responsibilities and obligations.
use digital_colleagues.Base.{
  ℕ, Bool, true, false, not, Option, List, String, nat_eq, string_eq, option_eq, list_eq, leb,
  if◌then◌else◌, Result, ok, ◌>>=◌, ◌>>◌, require, core_invariant,
}
use digital_colleagues.Base.Lists.{each}
use digital_colleagues.Core.Common.{
  DateTime, require_text, text_maximum, require_stable_id, require_schema_version, require_revision,
  require_utc, require_optional_id, require_optional,
}
use digital_colleagues.Core.Namespace.{Namespace, require_colleague, require_same_tenant}
use digital_colleagues.Core.Principals.{Principal}
use digital_colleagues.Core.Work.{CompletionEvidence, present}

pub data ResponsibilityState : Type 0 where
  active suspended fulfilled retired : ResponsibilityState

pub record Responsibility : Type 0 where
  pub namespace : Namespace
  pub responsibility_id : String
  pub mandate_id : String
  pub mandate_revision : ℕ
  pub description : String
  pub owner_principal_id : String
  pub state : ResponsibilityState
  pub actor : Principal
  pub correlation_id : String
  pub causation_id : Option String
  pub created_at : DateTime
  pub updated_at : DateTime
  pub revision : ℕ
  pub schema_version : ℕ

-- `Responsibility.__post_init__`
unfoldable pub construct_responsibility_record : Responsibility → Result Responsibility
construct_responsibility_record self = do
  require_schema_version self.schema_version
  require_colleague self.namespace
  require_stable_id self.responsibility_id
  require_stable_id self.mandate_id
  require_revision self.mandate_revision
  description ← require_text text_maximum self.description
  require_stable_id self.owner_principal_id
  require_same_tenant self.namespace self.actor.namespace
  require_stable_id self.correlation_id
  require_optional_id self.causation_id
  require_utc self.created_at
  require_utc self.updated_at
  require (leb self.created_at.clock self.updated_at.clock) core_invariant
  require_revision self.revision
  ok (record self { description = description })

pub data ObligationState : Type 0 where
  pending in_progress satisfied waived overdue : ObligationState

-- `self.state in {ObligationState.SATISFIED, ObligationState.WAIVED}`
abbrev pub resolved : ObligationState → Bool
resolved satisfied = true
resolved waived = true
resolved _ = false

pub record Obligation : Type 0 where
  pub namespace : Namespace
  pub obligation_id : String
  pub responsibility_id : String
  pub description : String
  pub state : ObligationState
  pub due_at : Option DateTime
  pub work_id : Option String
  pub resolution_evidence : List CompletionEvidence
  pub actor : Principal
  pub correlation_id : String
  pub causation_id : Option String
  pub created_at : DateTime
  pub updated_at : DateTime
  pub revision : ℕ
  pub schema_version : ℕ

-- `Obligation.__post_init__`
unfoldable pub construct_obligation : Obligation → Result Obligation
construct_obligation self = do
  require_schema_version self.schema_version
  require_colleague self.namespace
  require_stable_id self.obligation_id
  require_stable_id self.responsibility_id
  description ← require_text text_maximum self.description
  require_optional require_utc self.due_at
  require_optional_id self.work_id
  require
      (if resolved self.state
        then present self.resolution_evidence
        else not (present self.resolution_evidence))
      core_invariant
  each (λ item. require_same_tenant self.namespace item.actor.namespace) self.resolution_evidence
  require_same_tenant self.namespace self.actor.namespace
  require_stable_id self.correlation_id
  require_optional_id self.causation_id
  require_utc self.created_at
  require_utc self.updated_at
  require (leb self.created_at.clock self.updated_at.clock) core_invariant
  require_revision self.revision
  ok (record self { description = description })
