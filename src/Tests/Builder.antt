-- ===== src/Tests/Builder.antt =====
-- Drafts at concrete inputs.
use digital_colleagues.Base.{
  ◌≡◌, refl, true, none, [], ◌∷◌, nat_eq, string_eq, option_eq, list_eq, ok,
}
use digital_colleagues.Core.Common.Json.{empty}
use digital_colleagues.Core.Authority.Diff.{changes, diff_mandate_authority}
use digital_colleagues.Core.Builder.{
  ColleagueDraft, DraftDiffItem, reviewable, mandate, changed, DiffSection-discrete, construct,
}
use digital_colleagues.Core.Builder.Successor.{construct_diffs}
use digital_colleagues.Tests.Samples.{running, at, office, boss}
use digital_colleagues.Tests.Authority.{profile, mandate_constructed}
use digital_colleagues.Tests.Diff.{before, after, before-IsIdentified, after-IsIdentified}
use digital_colleagues.Tests.Effects.{zeros}
use digital_colleagues.Tests.Policy.{policy}

abbrev mission : DraftDiffItem
mission = record {
  section = mandate;
  path = "mission";
  classification = changed;
  before = record { as_entries = empty };
  after = record { as_entries = empty };
  authoritative = true;
}

abbrev draft : ColleagueDraft
draft = record {
  namespace = office;
  draft_id = "draft";
  revision = 1;
  base_profile_id = "profile";
  base_profile_revision = 1;
  base_mandate_id = "mandate";
  base_mandate_revision = 1;
  base_policy_id = none;
  base_policy_revision = 0;
  proposed_profile = record profile { revision = 2 };
  proposed_mandate = after;
  proposed_policy = policy;
  explicit_defaults = [];
  diff = mission ∷ [];
  canonical_digest = zeros;
  state = reviewable;
  author = boss;
  created_at = at 0;
  updated_at = at 1;
  correlation_id = "c-1";
  causation_id = "c-0";
  schema_version = 1;
}

draft_constructed : construct draft ≡ ok draft
unfolding construct DiffSection-discrete running
draft_constructed = refl

construct_diffs_example : diff_mandate_authority before after ≡ ok (changes before after)
construct_diffs_example =
    construct_diffs draft draft before before draft_constructed mandate_constructed
      before-IsIdentified after-IsIdentified refl refl refl
