-- ===== src/Tests/Authority.antt =====
-- Mandates, the effects within them, and identity cards at concrete inputs.
use digital_colleagues.Base.{
  ℕ, ◌≡◌, refl, sym, ap, ◌∙◌, ◌↔◌, true, false, List, [], ◌∷◌, String, nat_eq, string_eq, option_eq,
  list_eq, ok, err, core_invariant,
}
use mathlib.Core.List.{Memᴰ}
use digital_colleagues.Base.Lists.{unique}
use digital_colleagues.Core.Common.Json.{FrozenJsonObject, empty}
use digital_colleagues.Core.Authority
use digital_colleagues.Core.Authority.{
  Mandate, EffectBoundary, Profile, ResponsibilityDefinition, CapabilityGrant, construct_profile,
  construct_responsibility, construct_capability, reference_message, freeze_unique_records,
}
use digital_colleagues.Core.Authority.Card.{project_identity_card, construct_card}
use digital_colleagues.Core.Authority.Card.Exact.{
  summaries, grants, card, AreConstructed, project_identity_card_exact,
}
use digital_colleagues.Governance.Approvals.{authorize_effect_proposal}
use digital_colleagues.Governance.Approvals.Boundary.{IsAllowed, authorize_effect_proposal_exact}
use digital_colleagues.Governance.Approvals.Parameters.{network}
use digital_colleagues.Tests.Samples.{running, at, office, boss}
use digital_colleagues.Tests.Effects.{proposal}

abbrev pub nothing : FrozenJsonObject
nothing = record { as_entries = empty }

abbrev pub boundary : EffectBoundary
boundary = record {
  boundary_id = "messages";
  effect_kind = reference_message;
  allowed_destination_kinds = "channel" ∷ [];
  allowed_actions = "send" ∷ [];
  constraints = network false;
  human_approval_required = true;
}

abbrev pub duty : String → ResponsibilityDefinition
duty id = record {
  responsibility_id = id;
  description = "Answer questions";
  obligations = "answer" ∷ [];
  completion_conditions = "answered" ∷ [];
}

duty_constructed : construct_responsibility (duty "answers") ≡ ok (duty "answers")
unfolding construct_responsibility running
duty_constructed = refl

abbrev pub grant : CapabilityGrant
grant = record { capability_id = "messages"; description = "Send messages" }

grant_constructed : construct_capability grant ≡ ok grant
unfolding construct_capability running
grant_constructed = refl

abbrev pub mandate : List ResponsibilityDefinition → Mandate
mandate duties = record {
  namespace = office;
  mandate_id = "mandate";
  mission = "Help";
  service_relationship = "Support";
  responsibilities = duties;
  capabilities = grant ∷ [];
  constraints = record { constraint_id = "polite"; description = "Be polite" } ∷ [];
  working_context = nothing;
  effect_boundaries = boundary ∷ [];
  revision = 1;
  issued_by = boss;
  effective_at = at 0;
  schema_version = 1;
}

pub mandate_constructed :
    Authority.construct (mandate (duty "answers" ∷ [])) ≡ ok (mandate (duty "answers" ∷ []))
unfolding Authority.construct freeze_unique_records running
mandate_constructed = refl

authorize_effect_proposal_exact_example :
    (authorize_effect_proposal proposal (mandate (duty "answers" ∷ [])) 1 ≡ ok tt) ↔ (
      (proposal.namespace ≡ office)
      × (◌≡◌ {A = ℕ} 1 1)
      × ((boundary : EffectBoundary) × Memᴰ boundary
            (mandate (duty "answers" ∷ [])).effect_boundaries
          × (boundary.boundary_id ≡ proposal.constraints.boundary_id)
          × IsAllowed proposal boundary))
authorize_effect_proposal_exact_example =
    authorize_effect_proposal_exact proposal (mandate (duty "answers" ∷ []))
      (mandate (duty "answers" ∷ [])) 1 mandate_constructed

abbrev pub profile : Profile
profile = record {
  namespace = office;
  profile_id = "profile";
  display_name = "Ada";
  description = "A colleague";
  presentation = nothing;
  revision = 1;
  updated_by = boss;
  updated_at = at 0;
  schema_version = 1;
}

profile_constructed : construct_profile profile ≡ ok profile
unfolding construct_profile running
profile_constructed = refl

duties_constructed :
    (item : ResponsibilityDefinition)
    → Memᴰ item (duty "answers" ∷ [])
    → (raw : ResponsibilityDefinition) × (construct_responsibility raw ≡ ok item)
duties_constructed item (Memᴰ.head same) = (duty "answers", duty_constructed ∙ ap ok (sym same))
duties_constructed item (Memᴰ.tail later) = elim later [ ]

grants_constructed :
    (item : CapabilityGrant)
    → Memᴰ item (grant ∷ [])
    → (raw : CapabilityGrant) × (construct_capability raw ≡ ok item)
grants_constructed item (Memᴰ.head same) = (grant, grant_constructed ∙ ap ok (sym same))
grants_constructed item (Memᴰ.tail later) = elim later [ ]

all_constructed : AreConstructed profile (mandate (duty "answers" ∷ []))
all_constructed = record {
  raw_profile = profile;
  built_profile = profile_constructed;
  raw_mandate = mandate (duty "answers" ∷ []);
  built_mandate = mandate_constructed;
  responsibilities = duties_constructed;
  capabilities = grants_constructed;
}

project_identity_card_exact_example :
    (project_identity_card profile (mandate (duty "answers" ∷ []))
      ≡ ok (card profile (mandate (duty "answers" ∷ []))))
    ↔ ((office ≡ office)
        × (unique (summaries (duty "answers" ∷ [])) ≡ true)
        × (unique (grants (grant ∷ [])) ≡ true)
        × (card profile (mandate (duty "answers" ∷ []))
            ≡ card profile (mandate (duty "answers" ∷ []))))
project_identity_card_exact_example =
    project_identity_card_exact profile (mandate (duty "answers" ∷ []))
      (card profile (mandate (duty "answers" ∷ []))) all_constructed

-- A mandate whose constructor returns it has no card when two of its responsibilities, of
-- different identifiers, have one description.
twice :
    Authority.construct (mandate (duty "answers" ∷ duty "replies" ∷ []))
    ≡ ok (mandate (duty "answers" ∷ duty "replies" ∷ []))
unfolding Authority.construct freeze_unique_records running
twice = refl

no_card :
    project_identity_card profile (mandate (duty "answers" ∷ duty "replies" ∷ []))
    ≡ err core_invariant
unfolding project_identity_card construct_card running
no_card = refl
