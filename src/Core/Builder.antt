-- ===== src/Core/Builder.antt =====
-- core/builder.py: revisioned drafts of a colleague.
pub mod Successor
use digital_colleagues.Base.{
  ℕ, zero, suc, ◌+◌, ◌-◌, ◌*◌, ◌/◌, ◌%◌, ◌≤◌, ◌<◌, ◌≡◌, refl, sym, ap, ◌∙◌, ◌≢◌, ◌↔◌, ◌⊎◌, inl, inr,
  Bool, true, false, not, ◌&&◌, ◌||◌, Option, none, some, List, [], ◌∷◌, ◌++◌, map, String, arith,
  Eq, ◌==◌, nat_eq, string_eq, option_eq, list_eq, List-discrete, Option-discrete, String-discrete,
  ℕ_discrete, ltb, leb, if◌then◌else◌, Bool-cases, Error, Result, ok, err, ◌>>=◌, ◌>>◌, require,
  core_invariant, namespace_mismatch, revision_mismatch, authorization, replay, lifecycle,
  >>=-ok_parts,
}
use digital_colleagues.Base.Lists.{unique, any}
use digital_colleagues.Core.Common.{
  DateTime, require_text, require_stable_id, require_schema_version, require_revision, require_utc,
  require_digest, filled,
}
use digital_colleagues.Core.Common.Json.{FrozenJsonObject}
use digital_colleagues.Core.Namespace.{
  Namespace, require_colleague, require_same_tenant, require_exact, namespace_eq,
}
use digital_colleagues.Core.Principals.{Principal, human, kind_eq}
use digital_colleagues.Core.Authority.{Profile, Mandate}
use digital_colleagues.Core.Policy.{ColleaguePolicy}

pub data DraftLifecycle : Type 0 where
  draft reviewable confirmed cancelled stale : DraftLifecycle

pub data DiffSection : Type 0 where
  profile mandate policy : DiffSection

unfoldable pub DiffSection-discrete : Discrete DiffSection
DiffSection-discrete = hlevel

instance abbrev pub section_eq : Eq DiffSection
section_eq = record { decide_eq = DiffSection-discrete }

pub data DiffClassification : Type 0 where
  added removed changed narrowed expanded unchanged : DiffClassification

pub data DefaultSource : Type 0 where
  p5_system_default : DefaultSource

pub record ExplicitDefault : Type 0 where
  pub path : String
  pub value : FrozenJsonObject
  pub source : DefaultSource

-- `ExplicitDefault.__post_init__`
unfoldable pub construct_default : ExplicitDefault → Result ExplicitDefault
construct_default self = do path ← require_text 256 self.path; ok (record self { path = path })

pub record DraftDiffItem : Type 0 where
  pub section : DiffSection
  pub path : String
  pub classification : DiffClassification
  pub before : FrozenJsonObject
  pub after : FrozenJsonObject
  pub authoritative : Bool

-- `DraftDiffItem.__post_init__`
unfoldable pub construct_diff_item : DraftDiffItem → Result DraftDiffItem
construct_diff_item self = do
  path ← require_text 256 self.path
  require (not (self.section == profile && self.authoritative)) authorization
  ok (record self { path = path })

pub record ColleagueDraft : Type 0 where
  pub namespace : Namespace
  pub draft_id : String
  pub revision : ℕ
  pub base_profile_id : String
  pub base_profile_revision : ℕ
  pub base_mandate_id : String
  pub base_mandate_revision : ℕ
  pub base_policy_id : Option String
  pub base_policy_revision : ℕ
  pub proposed_profile : Profile
  pub proposed_mandate : Mandate
  pub proposed_policy : ColleaguePolicy
  pub explicit_defaults : List ExplicitDefault
  pub diff : List DraftDiffItem
  pub canonical_digest : String
  pub state : DraftLifecycle
  pub author : Principal
  pub created_at : DateTime
  pub updated_at : DateTime
  pub correlation_id : String
  pub causation_id : String
  pub schema_version : ℕ

-- The test of the identity of the base policy.
abbrev pub check_base_policy : Option String → ℕ → Result (Unit {0})
check_base_policy none revision = require (revision == 0) core_invariant
check_base_policy (some id) revision =
    require_stable_id id >> require (not (revision == 0)) core_invariant

-- `base is not None and policy_id != base`, negated
abbrev pub retains : Option String → String → Bool
retains none policy_id = true
retains (some id) policy_id = policy_id == id

-- `len({(item.section, item.path) for item in diffs}) == len(diffs)`
abbrev pub unique_places : List DraftDiffItem → Bool
unique_places [] = true
unique_places (item ∷ items) =
    not (any (λ other. item.section == other.section && item.path == other.path) items)
    && unique_places items

-- `ColleagueDraft.__post_init__`
unfoldable pub construct : ColleagueDraft → Result ColleagueDraft
construct self = do
  require_schema_version self.schema_version
  require_colleague self.namespace
  require_stable_id self.draft_id
  require_revision self.revision
  require_stable_id self.base_profile_id
  require_revision self.base_profile_revision
  require_stable_id self.base_mandate_id
  require_revision self.base_mandate_revision
  check_base_policy self.base_policy_id self.base_policy_revision
  require_exact self.namespace self.proposed_profile.namespace
  require_exact self.namespace self.proposed_mandate.namespace
  require_exact self.namespace self.proposed_policy.namespace
  require (self.proposed_profile.profile_id == self.base_profile_id) core_invariant
  require (self.proposed_mandate.mandate_id == self.base_mandate_id) core_invariant
  require (retains self.base_policy_id self.proposed_policy.policy_id) core_invariant
  require (self.proposed_profile.revision == self.base_profile_revision + 1) core_invariant
  require (self.proposed_mandate.revision == self.base_mandate_revision + 1) core_invariant
  require (self.proposed_policy.revision == self.base_policy_revision + 1) core_invariant
  require (filled self.diff) core_invariant
  require (unique (map (λ item. item.path) self.explicit_defaults)) core_invariant
  require (unique_places self.diff) core_invariant
  require_digest self.canonical_digest
  require (self.author.kind == human) authorization
  require_same_tenant self.namespace self.author.namespace
  require_utc self.created_at
  require_utc self.updated_at
  require (leb self.created_at.clock self.updated_at.clock) core_invariant
  require_stable_id self.correlation_id
  require_stable_id self.causation_id
  ok self
