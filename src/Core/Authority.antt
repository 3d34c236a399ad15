-- ===== src/Core/Authority.antt =====
-- core/authority.py: profiles, mandates and the boundaries of effects.
pub mod Card
pub mod Diff
use digital_colleagues.Base.{
  ℕ, zero, suc, ◌+◌, ◌-◌, ◌*◌, ◌/◌, ◌%◌, ◌≤◌, ◌<◌, ◌≡◌, refl, sym, ap, ◌∙◌, ◌≢◌, ◌↔◌, ◌⊎◌, inl, inr,
  Bool, true, false, not, ◌&&◌, ◌||◌, Option, none, some, List, [], ◌∷◌, ◌++◌, map, String, arith,
  Eq, ◌==◌, nat_eq, string_eq, option_eq, list_eq, List-discrete, Option-discrete, String-discrete,
  ℕ_discrete, ltb, leb, if◌then◌else◌, Bool-cases, Error, Result, ok, err, ◌>>=◌, ◌>>◌, require,
  core_invariant, namespace_mismatch, revision_mismatch, authorization, replay, lifecycle,
  >>=-ok_parts,
}
use digital_colleagues.Base.Lists.{unique}
use digital_colleagues.Core.Common.{
  DateTime, require_text, text_maximum, require_stable_id, require_schema_version, require_revision,
  require_utc, freeze_strings, filled,
}
use digital_colleagues.Core.Common.Json.{FrozenJsonObject}
use digital_colleagues.Core.Namespace.{Namespace, require_colleague, require_same_tenant}
use digital_colleagues.Core.Principals.{Principal, human, kind_eq}

pub record Profile : Type 0 where
  pub namespace : Namespace
  pub profile_id : String
  pub display_name : String
  pub description : String
  pub presentation : FrozenJsonObject
  pub revision : ℕ
  pub updated_by : Principal
  pub updated_at : DateTime
  pub schema_version : ℕ

-- `Profile.__post_init__`
unfoldable pub construct_profile : Profile → Result Profile
construct_profile self = do
  require_schema_version self.schema_version
  require_colleague self.namespace
  require_stable_id self.profile_id
  display_name ← require_text text_maximum self.display_name
  description ← require_text text_maximum self.description
  require_revision self.revision
  require_same_tenant self.namespace self.updated_by.namespace
  require_utc self.updated_at
  ok (record self { display_name = display_name; description = description })

pub record ResponsibilityDefinition : Type 0 where
  pub responsibility_id : String
  pub description : String
  pub obligations : List String
  pub completion_conditions : List String

-- `ResponsibilityDefinition.__post_init__`
unfoldable pub construct_responsibility : ResponsibilityDefinition → Result ResponsibilityDefinition
construct_responsibility self = do
  require_stable_id self.responsibility_id
  description ← require_text text_maximum self.description
  obligations ← freeze_strings false self.obligations
  conditions ← freeze_strings false self.completion_conditions
  ok (record self {
    description = description;
    obligations = obligations;
    completion_conditions = conditions;
  })

pub record CapabilityGrant : Type 0 where
  pub capability_id : String
  pub description : String

-- `CapabilityGrant.__post_init__`
unfoldable pub construct_capability : CapabilityGrant → Result CapabilityGrant
construct_capability self = do
  require_stable_id self.capability_id
  description ← require_text text_maximum self.description
  ok (record self { description = description })

pub record Constraint : Type 0 where
  pub constraint_id : String
  pub description : String

-- `Constraint.__post_init__`
unfoldable pub construct_constraint : Constraint → Result Constraint
construct_constraint self = do
  require_stable_id self.constraint_id
  description ← require_text text_maximum self.description
  ok (record self { description = description })

pub data EffectKind : Type 0 where
  reference_message internal_record notification : EffectKind

unfoldable pub EffectKind-discrete : Discrete EffectKind
EffectKind-discrete = hlevel

instance abbrev pub effect_kind_eq : Eq EffectKind
effect_kind_eq = record { decide_eq = EffectKind-discrete }

pub record EffectBoundary : Type 0 where
  pub boundary_id : String
  pub effect_kind : EffectKind
  pub allowed_destination_kinds : List String
  pub allowed_actions : List String
  pub constraints : FrozenJsonObject
  pub human_approval_required : Bool

-- `EffectBoundary.__post_init__`
unfoldable pub construct_boundary : EffectBoundary → Result EffectBoundary
construct_boundary self = do
  require_stable_id self.boundary_id
  kinds ← freeze_strings false self.allowed_destination_kinds
  actions ← freeze_strings false self.allowed_actions
  ok (record self { allowed_destination_kinds = kinds; allowed_actions = actions })

-- `_freeze_unique_records`, for records of one class with `_record_identifier` as `identifier`.
unfoldable pub freeze_unique_records : {A : Type 0} → (A → String) → List A → Result (List A)
freeze_unique_records identifier records = do
  require (filled records) core_invariant
  require (unique (map identifier records)) core_invariant
  ok records

pub record Mandate : Type 0 where
  pub namespace : Namespace
  pub mandate_id : String
  pub mission : String
  pub service_relationship : String
  pub responsibilities : List ResponsibilityDefinition
  pub capabilities : List CapabilityGrant
  pub constraints : List Constraint
  pub working_context : FrozenJsonObject
  pub effect_boundaries : List EffectBoundary
  pub revision : ℕ
  pub issued_by : Principal
  pub effective_at : DateTime
  pub schema_version : ℕ

-- `Mandate.__post_init__`
unfoldable pub construct : Mandate → Result Mandate
unfolding freeze_unique_records
construct self = do
  require_schema_version self.schema_version
  require_colleague self.namespace
  require_stable_id self.mandate_id
  mission ← require_text text_maximum self.mission
  relationship ← require_text text_maximum self.service_relationship
  responsibilities ← freeze_unique_records (λ item. item.responsibility_id) self.responsibilities
  capabilities ← freeze_unique_records (λ item. item.capability_id) self.capabilities
  constraints ← freeze_unique_records (λ item. item.constraint_id) self.constraints
  boundaries ← freeze_unique_records (λ item. item.boundary_id) self.effect_boundaries
  require_revision self.revision
  require (self.issued_by.kind == human) authorization
  require_same_tenant self.namespace self.issued_by.namespace
  require_utc self.effective_at
  ok (record self {
    mission = mission;
    service_relationship = relationship;
    responsibilities = responsibilities;
    capabilities = capabilities;
    constraints = constraints;
    effect_boundaries = boundaries;
  })
