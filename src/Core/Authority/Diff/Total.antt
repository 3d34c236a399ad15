-- ===== src/Core/Authority/Diff/Total.antt =====
-- The diff of two revisions of a mandate is always found.
use digital_colleagues.Base.{
  ◌≤◌, ◌<◌, ◌≡◌, refl, ◌∙◌, ◌↔◌, Bool, true, false, List, [], ◌∷◌, map, String, arith, nat_eq,
  string_eq, option_eq, list_eq, ok, core_invariant,
}
use digital_colleagues.Base.Lists.{
  elem, all, unique, all_of_elem, all-elem, each-require, elem-cons_self, elem-cons_of_elem,
}
use digital_colleagues.Base.Sorting.{unique-sort}
use digital_colleagues.Core.Common.{is_stable_id, supported_schema}
use digital_colleagues.Core.Common.Ids.{freeze_strings_lem}
use digital_colleagues.Core.Namespace.{colleague}
use digital_colleagues.Core.Authority
use digital_colleagues.Core.Authority.{Mandate}
use digital_colleagues.Core.Authority.Diff.{
  Categories, MandateAuthorityDiff, keep, distinct, record_diff, meet, freeze_ids,
  freeze_categories, construct, changes, diff_mandate_authority,
}
use digital_colleagues.Core.Authority.Diff.Exact.{elem-keep, elem-distinct, record_diff-IsDiff}

unique-keep : (p : String → Bool) (xs : List String) → unique xs ≡ true → unique (keep p xs) ≡ true
unique-keep p [] u = refl
unique-keep p (x ∷ xs) u = ground (arith, unique-keep p xs, elem-keep p x xs)

unique-distinct : (xs : List String) → unique (distinct xs) ≡ true
unique-distinct [] = refl
unique-distinct (x ∷ xs) = ground (arith, unique-distinct xs, elem-distinct x xs)

-- Lists without a common member do not meet.
apart :
    (left right : List String)
    → ((id : String) → elem id left ≡ true → elem id right ≡ false)
    → meet left right ≡ false
apart [] right h = refl
apart (id ∷ left) right h =
    let first = h id (elem-cons_self id left) in
    let rest = apart left right (λ other m. h other (elem-cons_of_elem other id left m)) in
    ground (arith, first, rest)

freeze_ids_lem :
    (ids : List String) → all is_stable_id ids ≡ true → unique ids ≡ true → freeze_ids ids ≡ ok ids
freeze_ids_lem ids stable u =
    ground (arith, freeze_strings_lem ids stable u, each-require is_stable_id core_invariant ids)

freeze_categories_lem :
    (c : Categories)
    → freeze_ids c.added ≡ ok c.added
    → freeze_ids c.removed ≡ ok c.removed
    → freeze_ids c.changed ≡ ok c.changed
    → meet c.added c.removed ≡ false
    → meet c.added c.changed ≡ false
    → meet c.removed c.changed ≡ false
    → freeze_categories c ≡ ok c
unfolding freeze_categories
freeze_categories_lem c a r d one two three = ground arith

module _ {A : Type 0} (identifier : A → String) (same : A → A → Bool) (before after : List A)
    (old : all is_stable_id (map identifier before) ≡ true)
    (new : all is_stable_id (map identifier after) ≡ true) where
  -- The diff of records with stable identifiers passes the checks of the constructor.
  record_diff_passes :
      freeze_categories (record_diff identifier same before after)
      ≡ ok (record_diff identifier same before after)
  unfolding record_diff
  record_diff_passes =
      let d = record_diff identifier same before after in
      let exact = record_diff-IsDiff identifier same before after in
      freeze_categories_lem d
        (freeze_ids_lem d.added
          (all_of_elem is_stable_id d.added (λ id m.
            all-elem is_stable_id (map identifier after) new id
              (ground (arith, exact.added id, m))))
          (unique-sort _ ∙ unique-keep _ _ (unique-distinct (map identifier after))))
        (freeze_ids_lem d.removed
          (all_of_elem is_stable_id d.removed (λ id m.
            all-elem is_stable_id (map identifier before) old id
              (ground (arith, exact.removed id, m))))
          (unique-sort _ ∙ unique-keep _ _ (unique-distinct (map identifier before))))
        (freeze_ids_lem d.changed
          (all_of_elem is_stable_id d.changed (λ id m.
            all-elem is_stable_id (map identifier before) old id
              (ground (arith, exact.changed id, m))))
          (unique-sort _ ∙ unique-keep _ _ (unique-distinct (map identifier before))))
        (apart d.added d.removed (λ id m. ground (arith, exact.added id, exact.removed id, m)))
        (apart d.added d.changed (λ id m. ground (arith, exact.added id, exact.changed id, m)))
        (apart d.removed d.changed (λ id m. ground (arith, exact.removed id, exact.changed id, m)))

-- The records of a mandate have stable identifiers, as their constructors see to.
pub record IsIdentified (m : Mandate) : Type 0 where
  pub responsibilities :
      all is_stable_id (map (λ item. item.responsibility_id) m.responsibilities) ≡ true
  pub capabilities : all is_stable_id (map (λ item. item.capability_id) m.capabilities) ≡ true
  pub constraints : all is_stable_id (map (λ item. item.constraint_id) m.constraints) ≡ true
  pub boundaries : all is_stable_id (map (λ item. item.boundary_id) m.effect_boundaries) ≡ true

mandate_facts :
    (raw self : Mandate)
    → Authority.construct raw ≡ ok self
    → (self.namespace.scope ≡ colleague)
      × (is_stable_id self.mandate_id ≡ true)
      × (1 ≤ self.revision)
unfolding Authority.construct
mandate_facts raw self h = (ground arith, ground arith, ground arith)

-- A diff of colleagues between increasing revisions is constructed if its categories are.
construct_lem :
    (d : MandateAuthorityDiff)
    → d.schema_version ≡ supported_schema
    → d.namespace.scope ≡ colleague
    → is_stable_id d.mandate_id ≡ true
    → 1 ≤ d.from_revision
    → d.from_revision < d.to_revision
    → freeze_categories d.responsibility ≡ ok d.responsibility
    → freeze_categories d.capability ≡ ok d.capability
    → freeze_categories d.constraint ≡ ok d.constraint
    → freeze_categories d.effect_boundary ≡ ok d.effect_boundary
    → construct d ≡ ok d
unfolding construct
construct_lem d v s i f less r c k b = ground arith

module _ (raw before after : Mandate) (built : Authority.construct raw ≡ ok before)
    (old : IsIdentified before) (new : IsIdentified after) where
  changes_constructed :
      before.revision < after.revision
      → construct (changes before after) ≡ ok (changes before after)
  changes_constructed less =
      let (scope, id, first) = mandate_facts raw before built in
      construct_lem (changes before after) refl scope id first less
        (record_diff_passes _ _ before.responsibilities after.responsibilities old.responsibilities
          new.responsibilities)
        (record_diff_passes _ _ before.capabilities after.capabilities old.capabilities
          new.capabilities)
        (record_diff_passes _ _ before.constraints after.constraints old.constraints
          new.constraints)
        (record_diff_passes _ _ before.effect_boundaries after.effect_boundaries old.boundaries
          new.boundaries)

pub diff_mandate_authority_exact :
    (raw before after : Mandate) (answer : MandateAuthorityDiff)
    → Authority.construct raw ≡ ok before
    → IsIdentified before
    → IsIdentified after
    → (diff_mandate_authority before after ≡ ok answer) ↔ (
        (before.namespace ≡ after.namespace)
        × (before.mandate_id ≡ after.mandate_id)
        × (before.revision < after.revision)
        × (answer ≡ changes before after))
unfolding diff_mandate_authority
diff_mandate_authority_exact raw before after answer built old new = (
  (λ h.
      let less : before.revision < after.revision = ground arith in
      let made : construct (changes before after) ≡ ok answer = ground arith in
      let kept = changes_constructed raw before after built old new less in
      (ground arith, ground arith, less, ground (arith, made, kept))),
  (λ fit.
      let kept = changes_constructed raw before after built old new fit.2 in
      ground (arith, fit.0, fit.1, fit.2, fit.3, kept)),
)
