-- ===== src/Governance/Approvals/Boundary.antt =====
-- Which effects are within the boundaries of a mandate.
use digital_colleagues.Base.{
  ℕ, ◌≡◌, refl, ap, ◌∙◌, ◌↔◌, true, false, List, [], ◌∷◌, map, String, arith, nat_eq, string_eq,
  option_eq, list_eq, String-discrete, ok, ◌>>=◌, >>=-ok_parts,
}
use mathlib.Core.List.{Memᴰ}
use digital_colleagues.Base.Lists.{elem, unique, elem_self_of_eq, elem-cons_of_elem}
use digital_colleagues.Core.Authority
use digital_colleagues.Core.Authority.{EffectBoundary, Mandate, freeze_unique_records}
use digital_colleagues.Core.Effects.{EffectProposal, pending_approval, approved}
use digital_colleagues.Governance.Approvals.{
  matching, only_one, check_boundary, authorize_constraint_parameters, authorize_effect_proposal,
}

-- The effect is one of those that the boundary allows, and in the state that it asks for.
pub record IsAllowed (proposal : EffectProposal) (boundary : EffectBoundary) : Type 0 where
  pub kind : proposal.effect_kind ≡ boundary.effect_kind
  pub destination : elem proposal.destination.kind boundary.allowed_destination_kinds ≡ true
  pub action : elem proposal.action boundary.allowed_actions ≡ true
  pub parameters :
      authorize_constraint_parameters proposal.constraints.parameters boundary.constraints ≡ ok tt
  pub awaits : boundary.human_approval_required ≡ true → proposal.state ≡ pending_approval
  pub cleared : boundary.human_approval_required ≡ false → proposal.state ≡ approved

check_boundary_exact :
    (proposal : EffectProposal) (boundary : EffectBoundary)
    → (check_boundary proposal boundary ≡ ok tt) ↔ IsAllowed proposal boundary
unfolding check_boundary
check_boundary_exact proposal boundary = (
  (λ h. record {
    kind = ground arith;
    destination = ground arith;
    action = ground arith;
    parameters = ground arith;
    awaits = λ e. ground arith;
    cleared = λ e. ground arith;
  }),
  (λ a. ground arith),
)

ids : List EffectBoundary → List String
ids boundaries = map (λ boundary. boundary.boundary_id) boundaries

none_matching :
    (id : String) (boundaries : List EffectBoundary)
    → elem id (ids boundaries) ≡ false
    → matching id boundaries ≡ []
unfolding ids
none_matching id [] h = refl
none_matching id (boundary ∷ boundaries) h = ground (arith, none_matching id boundaries)

elem_of_listed :
    (boundary : EffectBoundary) (boundaries : List EffectBoundary)
    → Memᴰ boundary boundaries
    → elem boundary.boundary_id (ids boundaries) ≡ true
unfolding ids
elem_of_listed boundary [] listed = elim listed [ ]
elem_of_listed boundary (first ∷ rest) (Memᴰ.head same) =
    elem_self_of_eq _ _ (ids rest) (ap (λ b. b.boundary_id) same)
elem_of_listed boundary (first ∷ rest) (Memᴰ.tail later) =
    elem-cons_of_elem _ _ (ids rest) (elem_of_listed boundary rest later)

matching_of_listed :
    (id : String) (boundary : EffectBoundary) (boundaries : List EffectBoundary)
    → unique (ids boundaries) ≡ true
    → Memᴰ boundary boundaries
    → boundary.boundary_id ≡ id
    → matching id boundaries ≡ boundary ∷ []
unfolding ids
matching_of_listed id boundary [] u listed named = elim listed [ ]
matching_of_listed id boundary (first ∷ rest) u (Memᴰ.head same) named =
    ground (arith, same, none_matching id rest)
matching_of_listed id boundary (first ∷ rest) u (Memᴰ.tail later) named =
    ground (arith, matching_of_listed id boundary rest, elem_of_listed boundary rest later)

listed_of_matching :
    (id : String) (boundary : EffectBoundary) (boundaries others : List EffectBoundary)
    → matching id boundaries ≡ boundary ∷ others
    → Memᴰ boundary boundaries × (boundary.boundary_id ≡ id)
listed_of_matching id boundary [] others h = cc
listed_of_matching id boundary (first ∷ rest) others h =
    elim (String-discrete first.boundary_id id) [
      | yes named ↦
          let same : boundary ≡ first = ground arith in
          (Memᴰ.head same, ap (λ b. b.boundary_id) same ∙ named)
      | no other ↦
          let (later, named) = listed_of_matching id boundary rest others (ground arith) in
          (Memᴰ.tail later, named)
    ]

only :
    (boundaries : List EffectBoundary) (boundary : EffectBoundary)
    → only_one boundaries ≡ ok boundary
    → boundaries ≡ boundary ∷ []
only [] boundary h = cc
only (first ∷ []) boundary h = cc
only (first ∷ second ∷ rest) boundary h = cc

distinct_ids :
    (raw mandate : Mandate)
    → Authority.construct raw ≡ ok mandate
    → unique (ids mandate.effect_boundaries) ≡ true
unfolding ids Authority.construct freeze_unique_records
distinct_ids raw mandate h = ground arith

-- An effect is within a mandate that its constructor returned exactly when the mandate is of the
-- same namespace, has the expected revision, and lists a boundary that the effect names and that
-- allows it.
pub authorize_effect_proposal_exact :
    (proposal : EffectProposal) (raw mandate : Mandate) (expected : ℕ)
    → Authority.construct raw ≡ ok mandate
    → (authorize_effect_proposal proposal mandate expected ≡ ok tt) ↔ (
        (proposal.namespace ≡ mandate.namespace)
        × (mandate.revision ≡ expected)
        × ((boundary : EffectBoundary) × Memᴰ boundary mandate.effect_boundaries
            × (boundary.boundary_id ≡ proposal.constraints.boundary_id)
            × IsAllowed proposal boundary))
unfolding authorize_effect_proposal
authorize_effect_proposal_exact proposal raw mandate expected m = (
  (λ h.
      let found : (only_one (matching proposal.constraints.boundary_id mandate.effect_boundaries)
            >>= check_boundary proposal)
          ≡ ok tt =
        ground arith in
      let (boundary, one, allowed) =
        >>=-ok_parts
          (only_one (matching proposal.constraints.boundary_id mandate.effect_boundaries)) _
          found in
      let (listed, named) =
        listed_of_matching proposal.constraints.boundary_id boundary mandate.effect_boundaries []
          (only _ boundary one) in
      (
        ground arith,
        ground arith,
        (boundary, listed, named, (check_boundary_exact proposal boundary).0 allowed),
      )),
  (λ within.
      let (boundary, listed, named, allowed) = within.2 in
      let one =
        matching_of_listed proposal.constraints.boundary_id boundary mandate.effect_boundaries
          (distinct_ids raw mandate m) listed named in
      let passed = (check_boundary_exact proposal boundary).1 allowed in
      ground (arith, within.0, within.1, one, passed)),
)
