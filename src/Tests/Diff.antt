-- ===== src/Tests/Diff.antt =====
-- Diffs of mandates at concrete inputs.
use digital_colleagues.Base.{
  ◌≡◌, refl, true, [], ◌∷◌, nat_eq, string_eq, option_eq, list_eq, ok, err, authorization,
}
use digital_colleagues.Base.Sorting.{str_leb, sort}
use digital_colleagues.Core.Common.Json.{FrozenJsonObject, empty, entry, integer, pos}
use digital_colleagues.Core.Common.Json.Equal.{same_object}
use digital_colleagues.Core.Authority.{Mandate, CapabilityGrant}
use digital_colleagues.Core.Authority.Diff.{changes, record_diff}
use digital_colleagues.Core.Authority.Diff.Total.{IsIdentified}
use digital_colleagues.Governance.Approvals.{
  authorize_constraint_parameters, typed_constraint_values, typed_entries,
}
use digital_colleagues.Governance.Approvals.Parameters.{network}
use digital_colleagues.Tests.Samples.{running}
use digital_colleagues.Tests.Authority.{mandate, duty, grant}

abbrev pub before : Mandate
before = mandate (duty "answers" ∷ [])

abbrev pub after : Mandate
after = record (mandate (duty "replies" ∷ [])) { revision = 2; mission = "Help more" }

pub before-IsIdentified : IsIdentified before
unfolding running
before-IsIdentified = record {
  responsibilities = refl;
  capabilities = refl;
  constraints = refl;
  boundaries = refl;
}

pub after-IsIdentified : IsIdentified after
unfolding running
after-IsIdentified = record {
  responsibilities = refl;
  capabilities = refl;
  constraints = refl;
  boundaries = refl;
}

duties_replaced :
    (changes before after).responsibility
    ≡ record { added = "replies" ∷ []; removed = "answers" ∷ []; changed = [] }
unfolding record_diff sort str_leb running
duties_replaced = refl

abbrev louder : CapabilityGrant
louder = record grant { description = "Send many messages" }

-- The object `{"network": 1}`
abbrev numbered : FrozenJsonObject
numbered = record { as_entries = entry "network" (integer (pos 1)) empty }

-- The diff takes `{"network": true}` and `{"network": 1}` for the same constraints, of which the
-- second authorizes no effect.
equal_objects : same_object (network true) numbered ≡ true
unfolding same_object running
equal_objects = refl

accepted_before : authorize_constraint_parameters (network true) (network true) ≡ ok tt
unfolding authorize_constraint_parameters typed_constraint_values typed_entries running
accepted_before = refl

refused_after : authorize_constraint_parameters (network true) numbered ≡ err authorization
unfolding authorize_constraint_parameters typed_constraint_values typed_entries running
refused_after = refl
