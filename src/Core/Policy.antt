-- ===== src/Core/Policy.antt =====
-- core/policy.py: the weekly windows, the wake budget and the policy of a colleague.
pub mod Windows
pub mod Records
use digital_colleagues.Base.{
  ℕ, zero, suc, ◌+◌, ◌-◌, ◌*◌, ◌/◌, ◌%◌, ◌≤◌, ◌<◌, ◌≡◌, refl, sym, ap, ◌∙◌, ◌≢◌, ◌↔◌, ◌⊎◌, inl, inr,
  Bool, true, false, not, ◌&&◌, ◌||◌, Option, none, some, List, [], ◌∷◌, ◌++◌, map, String, arith,
  Eq, ◌==◌, nat_eq, string_eq, option_eq, list_eq, String-discrete, ℕ_discrete, ltb, leb,
  if◌then◌else◌, Bool-cases, Error, Result, ok, err, ◌>>=◌, ◌>>◌, require, core_invariant,
  namespace_mismatch, revision_mismatch, authorization, replay, lifecycle, >>=-ok_parts,
}
use digital_colleagues.Base.Lists.{unique, any}
use digital_colleagues.Core.Common.{
  DateTime, require_stable_id, require_schema_version, require_revision, require_utc,
}
use digital_colleagues.Core.Common.Strip.{strip}
use digital_colleagues.Core.Namespace.{Namespace, require_colleague, require_same_tenant}
use digital_colleagues.Core.Principals.{Principal, human, kind_eq}
use Windows.{WeeklyWindow, validate_windows}

pub data DurableTriggerKind : Type 0 where
  event timer : DurableTriggerKind

pub data ProactivityMode : Type 0 where
  disabled bounded : ProactivityMode

pub data NotificationMode : Type 0 where
  enabled suppressed : NotificationMode

pub data InterruptionMode : Type 0 where
  never working_hours_only allowed : InterruptionMode

pub data WakeBudgetPeriod : Type 0 where
  hour day week : WakeBudgetPeriod

pub data OutsideHoursOutcome : Type 0 where
  defer no_op stop escalate : OutsideHoursOutcome

pub data StopCondition : Type 0 where
  admin_stop budget_exhausted repeated_failure finite_work_terminal : StopCondition

pub data EscalationCondition : Type 0 where
  outside_hours budget_exhausted repeated_failure blocked_work : EscalationCondition

pub data PolicyRunState : Type 0 where
  active stopped : PolicyRunState

unfoldable pub DurableTriggerKind-discrete : Discrete DurableTriggerKind
DurableTriggerKind-discrete = hlevel

unfoldable pub StopCondition-discrete : Discrete StopCondition
StopCondition-discrete = hlevel

unfoldable pub EscalationCondition-discrete : Discrete EscalationCondition
EscalationCondition-discrete = hlevel

instance abbrev pub trigger_eq : Eq DurableTriggerKind
trigger_eq = record { decide_eq = DurableTriggerKind-discrete }

instance abbrev pub stop_eq : Eq StopCondition
stop_eq = record { decide_eq = StopCondition-discrete }

instance abbrev pub escalation_eq : Eq EscalationCondition
escalation_eq = record { decide_eq = EscalationCondition-discrete }

pub record WakeBudget : Type 0 where
  pub limit : ℕ
  pub period : WakeBudgetPeriod

-- `WakeBudget.__post_init__`
unfoldable pub construct_budget : WakeBudget → Result WakeBudget
construct_budget self = do
  require (leb 1 self.limit && leb self.limit 10000) core_invariant
  ok self

-- `_freeze_unique_enums`
unfoldable pub freeze_unique_enums : {A : Type 0} ⦃e : Eq A⦄ → Bool → List A → Result (List A)
freeze_unique_enums allow_empty [] = do require allow_empty core_invariant; ok []
freeze_unique_enums allow_empty (item ∷ items) = do
  require (unique (item ∷ items)) core_invariant
  ok (item ∷ items)

pub record ColleaguePolicy : Type 0 where
  pub namespace : Namespace
  pub policy_id : String
  pub mandate_id : String
  pub mandate_revision : ℕ
  pub timezone : String
  pub weekly_windows : List WeeklyWindow
  pub allowed_triggers : List DurableTriggerKind
  pub proactivity : ProactivityMode
  pub notification : NotificationMode
  pub interruption : InterruptionMode
  pub wake_budget : WakeBudget
  pub outside_hours : OutsideHoursOutcome
  pub stop_conditions : List StopCondition
  pub escalation_conditions : List EscalationCondition
  pub failure_limit : ℕ
  pub run_state : PolicyRunState
  pub revision : ℕ
  pub issued_by : Principal
  pub effective_at : DateTime
  pub schema_version : ℕ

-- `ColleaguePolicy.__post_init__`. `is_zone` tells the names that `ZoneInfo` knows.
unfoldable pub construct : (String → Bool) → ColleaguePolicy → Result ColleaguePolicy
construct is_zone self = do
  require_schema_version self.schema_version
  require_colleague self.namespace
  require_stable_id self.policy_id
  require_stable_id self.mandate_id
  require_revision self.mandate_revision
  require (not (self.timezone == "") && strip self.timezone == self.timezone) core_invariant
  require (is_zone self.timezone) core_invariant
  validate_windows self.weekly_windows
  allowed_triggers ← freeze_unique_enums false self.allowed_triggers
  stop_conditions ← freeze_unique_enums true self.stop_conditions
  escalation_conditions ← freeze_unique_enums true self.escalation_conditions
  require (leb 1 self.failure_limit && leb self.failure_limit 100) core_invariant
  require_revision self.revision
  require (self.issued_by.kind == human) authorization
  require_same_tenant self.namespace self.issued_by.namespace
  require_utc self.effective_at
  ok (record self {
    allowed_triggers = allowed_triggers;
    stop_conditions = stop_conditions;
    escalation_conditions = escalation_conditions;
  })
