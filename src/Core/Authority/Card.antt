-- ===== src/Core/Authority/Card.antt =====
-- core/authority.py: the identity card, which only displays.
pub mod Exact
use digital_colleagues.Base.{
  ℕ, zero, suc, ◌+◌, ◌-◌, ◌*◌, ◌/◌, ◌%◌, ◌≤◌, ◌<◌, ◌≡◌, refl, sym, ap, ◌∙◌, ◌≢◌, ◌↔◌, ◌⊎◌, inl, inr,
  Bool, true, false, not, ◌&&◌, ◌||◌, Option, none, some, List, [], ◌∷◌, ◌++◌, map, String, arith,
  Eq, ◌==◌, nat_eq, string_eq, option_eq, list_eq, List-discrete, Option-discrete, String-discrete,
  ℕ_discrete, ltb, leb, if◌then◌else◌, Bool-cases, Error, Result, ok, err, ◌>>=◌, ◌>>◌, require,
  core_invariant, namespace_mismatch, revision_mismatch, authorization, replay, lifecycle,
  >>=-ok_parts,
}
use digital_colleagues.Core.Common.{
  require_text, text_maximum, require_stable_id, require_schema_version, require_revision,
  freeze_strings, supported_schema,
}
use digital_colleagues.Core.Namespace.{Namespace, require_colleague, require_exact, namespace_eq}
use digital_colleagues.Core.Authority.{Profile, Mandate}

pub record IdentityCard : Type 0 where
  pub namespace : Namespace
  pub profile_id : String
  pub profile_revision : ℕ
  pub display_name : String
  pub description : String
  pub mandate_id : String
  pub mandate_revision : ℕ
  pub mission : String
  pub responsibility_summaries : List String
  pub capability_summaries : List String
  pub schema_version : ℕ

-- `IdentityCard.__post_init__`
unfoldable pub construct_card : IdentityCard → Result IdentityCard
construct_card self = do
  require_schema_version self.schema_version
  require_colleague self.namespace
  require_stable_id self.profile_id
  require_revision self.profile_revision
  display_name ← require_text text_maximum self.display_name
  description ← require_text text_maximum self.description
  require_stable_id self.mandate_id
  require_revision self.mandate_revision
  mission ← require_text text_maximum self.mission
  responsibilities ← freeze_strings false self.responsibility_summaries
  capabilities ← freeze_strings false self.capability_summaries
  ok (record self {
    display_name = display_name;
    description = description;
    mission = mission;
    responsibility_summaries = responsibilities;
    capability_summaries = capabilities;
  })

-- `project_identity_card`
unfoldable pub project_identity_card : Profile → Mandate → Result IdentityCard
project_identity_card profile mandate = do
  require_exact profile.namespace mandate.namespace
  construct_card (record {
    namespace = mandate.namespace;
    profile_id = profile.profile_id;
    profile_revision = profile.revision;
    display_name = profile.display_name;
    description = profile.description;
    mandate_id = mandate.mandate_id;
    mandate_revision = mandate.revision;
    mission = mandate.mission;
    responsibility_summaries = map (λ item. item.description) mandate.responsibilities;
    capability_summaries = map (λ item. item.description) mandate.capabilities;
    schema_version = supported_schema;
  })
