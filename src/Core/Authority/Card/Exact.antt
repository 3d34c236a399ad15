-- ===== src/Core/Authority/Card/Exact.antt =====
-- Which profiles and mandates have an identity card.
use digital_colleagues.Base.{
  ◌≤◌, ◌≡◌, refl, ◌∙◌, ◌↔◌, Bool, true, false, List, [], ◌∷◌, map, String, arith, nat_eq, string_eq,
  option_eq, list_eq, ok, ◌>>◌, require, core_invariant,
}
use mathlib.Core.List.{Memᴰ}
use digital_colleagues.Base.Lists.{unique}
use digital_colleagues.Core.Common.{
  require_text, text_maximum, normalize_items, freeze_strings, filled, is_stable_id,
  supported_schema,
}
use digital_colleagues.Core.Common.Normal.{require_text_again}
use digital_colleagues.Core.Namespace.{colleague}
use digital_colleagues.Core.Authority
use digital_colleagues.Core.Authority.{
  Profile, Mandate, ResponsibilityDefinition, CapabilityGrant, construct_profile,
  construct_responsibility, construct_capability, freeze_unique_records,
}
use digital_colleagues.Core.Authority.Card.{IdentityCard, construct_card, project_identity_card}

-- The texts of a card.
abbrev pub summaries : List ResponsibilityDefinition → List String
summaries items = map (λ item. item.description) items

abbrev pub grants : List CapabilityGrant → List String
grants items = map (λ item. item.description) items

abbrev pub card : Profile → Mandate → IdentityCard
card profile mandate = record {
  namespace = mandate.namespace;
  profile_id = profile.profile_id;
  profile_revision = profile.revision;
  display_name = profile.display_name;
  description = profile.description;
  mandate_id = mandate.mandate_id;
  mandate_revision = mandate.revision;
  mission = mandate.mission;
  responsibility_summaries = summaries mandate.responsibilities;
  capability_summaries = grants mandate.capabilities;
  schema_version = supported_schema;
}

-- Constructors returned the profile, the mandate, and each of the records that the card shows.
pub record AreConstructed (profile : Profile) (mandate : Mandate) : Type 0 where
  pub raw_profile : Profile
  pub built_profile : construct_profile raw_profile ≡ ok profile
  pub raw_mandate : Mandate
  pub built_mandate : Authority.construct raw_mandate ≡ ok mandate
  pub responsibilities :
      (item : ResponsibilityDefinition)
      → Memᴰ item mandate.responsibilities
      → (raw : ResponsibilityDefinition) × (construct_responsibility raw ≡ ok item)
  pub capabilities :
      (item : CapabilityGrant)
      → Memᴰ item mandate.capabilities
      → (raw : CapabilityGrant) × (construct_capability raw ≡ ok item)

Settled : String → Type 0
Settled text = require_text text_maximum text ≡ ok text

Settled-responsibility :
    (raw item : ResponsibilityDefinition)
    → construct_responsibility raw ≡ ok item
    → Settled item.description
unfolding construct_responsibility Settled
Settled-responsibility raw item h = require_text_again text_maximum raw.description (ground arith)

Settled-capability :
    (raw item : CapabilityGrant) → construct_capability raw ≡ ok item → Settled item.description
unfolding construct_capability Settled
Settled-capability raw item h = require_text_again text_maximum raw.description (ground arith)

Settled-items :
    {A : Type 0} (description : A → String) (items : List A)
    → ((item : A) → Memᴰ item items → Settled (description item))
    → normalize_items (map description items) ≡ ok (map description items)
unfolding normalize_items Settled
Settled-items description [] settled = refl
Settled-items description (item ∷ items) settled =
    let first : require_text text_maximum (description item) ≡ ok (description item) =
      settled item (Memᴰ.head refl) in
    let rest = Settled-items description items (λ other listed. settled other (Memᴰ.tail listed)) in
    ground (arith, first, rest)

frozen_if_unique :
    (texts : List String)
    → normalize_items texts ≡ ok texts
    → filled texts ≡ true
    → freeze_strings false texts ≡ (require (unique texts) core_invariant >> ok texts)
unfolding freeze_strings
frozen_if_unique texts settled some_text = ground (arith, settled, some_text)

profile_facts :
    (raw self : Profile)
    → construct_profile raw ≡ ok self
    → (is_stable_id self.profile_id ≡ true)
      × (1 ≤ self.revision)
      × Settled self.display_name
      × Settled self.description
unfolding construct_profile Settled
profile_facts raw self h = (
  ground arith,
  ground arith,
  require_text_again text_maximum raw.display_name (ground arith),
  require_text_again text_maximum raw.description (ground arith),
)

mandate_facts :
    (raw self : Mandate)
    → Authority.construct raw ≡ ok self
    → (self.namespace.scope ≡ colleague)
      × (is_stable_id self.mandate_id ≡ true)
      × (1 ≤ self.revision)
      × Settled self.mission
      × (filled self.responsibilities ≡ true)
      × (filled self.capabilities ≡ true)
unfolding Authority.construct Settled freeze_unique_records
mandate_facts raw self h = (
  ground arith,
  ground arith,
  ground arith,
  require_text_again text_maximum raw.mission (ground arith),
  ground arith,
  ground arith,
)

filled-map : {A B : Type 0} (f : A → B) (items : List A) → filled (map f items) ≡ filled items
filled-map f [] = refl
filled-map f (item ∷ items) = refl

-- A card of settled texts is constructed as it is, if its summaries are distinct.
construct-Settled :
    (c answer : IdentityCard) (items grants : Bool)
    → c.schema_version ≡ supported_schema
    → c.namespace.scope ≡ colleague
    → is_stable_id c.profile_id ≡ true
    → 1 ≤ c.profile_revision
    → Settled c.display_name
    → Settled c.description
    → is_stable_id c.mandate_id ≡ true
    → 1 ≤ c.mandate_revision
    → Settled c.mission
    → freeze_strings false c.responsibility_summaries
      ≡ (require items core_invariant >> ok c.responsibility_summaries)
    → freeze_strings false c.capability_summaries
      ≡ (require grants core_invariant >> ok c.capability_summaries)
    → (construct_card c ≡ ok answer) ↔ ((items ≡ true) × (grants ≡ true) × (answer ≡ c))
unfolding construct_card Settled
construct-Settled c answer items grants v s p r d e m n o one two =
    ((λ h. (ground arith, ground arith, ground arith)), (λ fit. ground arith))

-- The constructor of the card only depends on the two lists of summaries.
construct_card_reduced :
    (profile : Profile) (mandate : Mandate) (answer : IdentityCard)
    → AreConstructed profile mandate
    → (construct_card (card profile mandate) ≡ ok answer) ↔ (
        (unique (summaries mandate.responsibilities) ≡ true)
        × (unique (grants mandate.capabilities) ≡ true)
        × (answer ≡ card profile mandate))
construct_card_reduced profile mandate answer made =
    let (profile_id, profile_revision, display_name, description) =
      profile_facts made.raw_profile profile made.built_profile in
    let (scope, mandate_id, mandate_revision, mission, some_items, some_grants) =
      mandate_facts made.raw_mandate mandate made.built_mandate in
    let one =
      frozen_if_unique (summaries mandate.responsibilities)
        (Settled-items (λ item. item.description) mandate.responsibilities
          (λ item listed.
            let (raw, built) = made.responsibilities item listed in
            Settled-responsibility raw item built))
        (filled-map (λ item. item.description) mandate.responsibilities ∙ some_items) in
    let two =
      frozen_if_unique (grants mandate.capabilities)
        (Settled-items (λ item. item.description) mandate.capabilities
          (λ item listed.
            let (raw, built) = made.capabilities item listed in Settled-capability raw item built))
        (filled-map (λ item. item.description) mandate.capabilities ∙ some_grants) in
    construct-Settled (card profile mandate) answer _ _ refl scope profile_id profile_revision
      display_name description mandate_id mandate_revision mission one two

-- For values that their constructors returned, `project_identity_card` answers exactly when the
-- profile and the mandate have one namespace, no two responsibilities have one description, and
-- no two capabilities have one description. The answer shows their texts unchanged.
pub project_identity_card_exact :
    (profile : Profile) (mandate : Mandate) (answer : IdentityCard)
    → AreConstructed profile mandate
    → (project_identity_card profile mandate ≡ ok answer) ↔ (
        (profile.namespace ≡ mandate.namespace)
        × (unique (summaries mandate.responsibilities) ≡ true)
        × (unique (grants mandate.capabilities) ≡ true)
        × (answer ≡ card profile mandate))
unfolding project_identity_card
project_identity_card_exact profile mandate answer made =
    let exact = construct_card_reduced profile mandate answer made in
    (
      (λ h.
          let rest : construct_card (card profile mandate) ≡ ok answer = ground arith in
          let (items, grants, same) = exact.0 rest in (ground arith, items, grants, same)),
      (λ fit. ground (arith, fit.0, exact.1 (fit.1, fit.2, fit.3))),
    )
