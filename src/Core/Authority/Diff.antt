-- ===== src/Core/Authority/Diff.antt =====
-- core/authority.py: what changes between two revisions of a mandate.
pub mod Exact
pub mod Total
use digital_colleagues.Base.{
  ℕ, zero, suc, ◌+◌, ◌-◌, ◌*◌, ◌/◌, ◌%◌, ◌≤◌, ◌<◌, ◌≡◌, refl, sym, ap, ◌∙◌, ◌≢◌, ◌↔◌, ◌⊎◌, inl, inr,
  Bool, true, false, not, ◌&&◌, ◌||◌, Option, none, some, List, [], ◌∷◌, ◌++◌, map, String, arith,
  Eq, ◌==◌, nat_eq, string_eq, option_eq, list_eq, List-discrete, Option-discrete, String-discrete,
  ℕ_discrete, ltb, leb, if◌then◌else◌, Bool-cases, Error, Result, ok, err, ◌>>=◌, ◌>>◌, require,
  core_invariant, namespace_mismatch, revision_mismatch, authorization, replay, lifecycle,
  >>=-ok_parts,
}
use digital_colleagues.Base.Lists.{elem, any, unique, each}
use digital_colleagues.Base.Sorting.{sort, str_leb}
use digital_colleagues.Core.Common.{
  require_stable_id, require_schema_version, require_revision, freeze_strings, supported_schema,
}
use digital_colleagues.Core.Common.Json.Equal.{same_object}
use digital_colleagues.Core.Namespace.{Namespace, require_colleague, require_exact, namespace_eq}
use digital_colleagues.Core.Authority.{
  ResponsibilityDefinition, CapabilityGrant, Constraint, EffectBoundary, effect_kind_eq, Mandate,
}

-- The three categories of one kind of record.
pub record Categories : Type 0 where
  pub added : List String
  pub removed : List String
  pub changed : List String

abbrev pub keep : (String → Bool) → List String → List String
keep p [] = []
keep p (x ∷ xs) = if p x then x ∷ keep p xs else keep p xs

-- The keys of a dict, each once.
abbrev pub distinct : List String → List String
distinct [] = []
distinct (x ∷ xs) = if elem x xs then distinct xs else x ∷ distinct xs

module _ {A : Type 0} (identifier : A → String) (same : A → A → Bool) where
  -- `_records_by_id(records)[wanted]`: a later record replaces an earlier one.
  abbrev pub record_at : String → List A → Option A
  record_at wanted [] = none
  record_at wanted (item ∷ items) = elim (record_at wanted items) [
    | some later ↦ some later
    | none ↦ if identifier item == wanted then some item else none
  ]

  abbrev pub differ : Option A → Option A → Bool
  differ (some one) (some two) = not (same one two)
  differ _ _ = false

  -- `_record_diff`
  unfoldable pub record_diff : List A → List A → Categories
  record_diff before after =
      let old = distinct (map identifier before) in
      let new = distinct (map identifier after) in
      record {
        added = sort str_leb (keep (λ id. not (elem id old)) new);
        removed = sort str_leb (keep (λ id. not (elem id new)) old);
        changed =
            sort str_leb
              (keep (λ id. elem id new && differ (record_at id before) (record_at id after)) old);
      }

-- The equality of the records, field by field.
abbrev pub same_responsibility : ResponsibilityDefinition → ResponsibilityDefinition → Bool
same_responsibility one two =
    one.responsibility_id == two.responsibility_id
    && one.description == two.description
    && one.obligations == two.obligations
    && one.completion_conditions == two.completion_conditions

abbrev pub same_capability : CapabilityGrant → CapabilityGrant → Bool
same_capability one two =
    one.capability_id == two.capability_id && one.description == two.description

abbrev pub same_constraint : Constraint → Constraint → Bool
same_constraint one two =
    one.constraint_id == two.constraint_id && one.description == two.description

abbrev pub same_flag : Bool → Bool → Bool
same_flag true other = other
same_flag false other = not other

abbrev pub same_boundary : EffectBoundary → EffectBoundary → Bool
same_boundary one two =
    one.boundary_id == two.boundary_id
    && one.effect_kind == two.effect_kind
    && one.allowed_destination_kinds == two.allowed_destination_kinds
    && one.allowed_actions == two.allowed_actions
    && same_object one.constraints two.constraints
    && same_flag one.human_approval_required two.human_approval_required

pub record MandateAuthorityDiff : Type 0 where
  pub namespace : Namespace
  pub mandate_id : String
  pub from_revision : ℕ
  pub to_revision : ℕ
  pub mission_changed : Bool
  pub service_relationship_changed : Bool
  pub working_context_changed : Bool
  pub responsibility : Categories
  pub capability : Categories
  pub constraint : Categories
  pub effect_boundary : Categories
  pub schema_version : ℕ

-- `set(left) & set(right)`
abbrev pub meet : List String → List String → Bool
meet left right = any (λ id. elem id right) left

abbrev pub freeze_ids : List String → Result (List String)
freeze_ids raw_identifiers = do
  identifiers ← freeze_strings true raw_identifiers
  each require_stable_id identifiers
  ok identifiers

-- One round of the last loop of `MandateAuthorityDiff.__post_init__`.
unfoldable pub freeze_categories : Categories → Result Categories
freeze_categories c = do
  added ← freeze_ids c.added
  removed ← freeze_ids c.removed
  changed ← freeze_ids c.changed
  require (not (meet added removed || meet added changed || meet removed changed)) core_invariant
  ok (record { added = added; removed = removed; changed = changed })

-- `MandateAuthorityDiff.__post_init__`
unfoldable pub construct : MandateAuthorityDiff → Result MandateAuthorityDiff
construct self = do
  require_schema_version self.schema_version
  require_colleague self.namespace
  require_stable_id self.mandate_id
  require_revision self.from_revision
  require_revision self.to_revision
  require (ltb self.from_revision self.to_revision) core_invariant
  responsibility ← freeze_categories self.responsibility
  capability ← freeze_categories self.capability
  constraint ← freeze_categories self.constraint
  effect_boundary ← freeze_categories self.effect_boundary
  ok (record self {
    responsibility = responsibility;
    capability = capability;
    constraint = constraint;
    effect_boundary = effect_boundary;
  })

-- What `diff_mandate_authority` passes to the constructor.
abbrev pub changes : Mandate → Mandate → MandateAuthorityDiff
changes before after = record {
  namespace = before.namespace;
  mandate_id = before.mandate_id;
  from_revision = before.revision;
  to_revision = after.revision;
  mission_changed = not (before.mission == after.mission);
  service_relationship_changed = not (before.service_relationship == after.service_relationship);
  working_context_changed = not (same_object before.working_context after.working_context);
  responsibility =
      record_diff (λ item. item.responsibility_id) same_responsibility before.responsibilities
        after.responsibilities;
  capability =
      record_diff (λ item. item.capability_id) same_capability before.capabilities
        after.capabilities;
  constraint =
      record_diff (λ item. item.constraint_id) same_constraint before.constraints after.constraints;
  effect_boundary =
      record_diff (λ item. item.boundary_id) same_boundary before.effect_boundaries
        after.effect_boundaries;
  schema_version = supported_schema;
}

-- `diff_mandate_authority`
unfoldable pub diff_mandate_authority : Mandate → Mandate → Result MandateAuthorityDiff
diff_mandate_authority before after = do
  require_exact before.namespace after.namespace
  require (before.mandate_id == after.mandate_id) core_invariant
  require (ltb before.revision after.revision) core_invariant
  construct (changes before after)
