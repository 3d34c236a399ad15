-- ===== src/Core/Builder/Successor.antt =====
-- A draft proposes the next revision of what it is based on.
use digital_colleagues.Base.{
  ◌+◌, ◌≡◌, refl, sym, ◌∙◌, arith, nat_eq, string_eq, option_eq, list_eq, ok,
}
use digital_colleagues.Core.Authority
use digital_colleagues.Core.Authority.{Mandate}
use digital_colleagues.Core.Authority.Diff.{changes, diff_mandate_authority}
use digital_colleagues.Core.Authority.Diff.Total.{IsIdentified, diff_mandate_authority_exact}
use digital_colleagues.Core.Builder.{ColleagueDraft, construct}

succeeds :
    (raw draft : ColleagueDraft)
    → construct raw ≡ ok draft
    → (draft.namespace ≡ draft.proposed_mandate.namespace)
      × (draft.proposed_mandate.mandate_id ≡ draft.base_mandate_id)
      × (draft.proposed_mandate.revision ≡ draft.base_mandate_revision + 1)
unfolding construct
succeeds raw draft h = (ground arith, ground arith, ground arith)

-- Between the constructed mandate that a constructed draft is based on and the mandate that it
-- proposes, the records of both with stable identifiers, `diff_mandate_authority` always answers.
pub construct_diffs :
    (raw draft : ColleagueDraft) (raw_base base : Mandate)
    → construct raw ≡ ok draft
    → Authority.construct raw_base ≡ ok base
    → IsIdentified base
    → IsIdentified draft.proposed_mandate
    → base.namespace ≡ draft.namespace
    → base.mandate_id ≡ draft.base_mandate_id
    → base.revision ≡ draft.base_mandate_revision
    → diff_mandate_authority base draft.proposed_mandate ≡ ok (changes base draft.proposed_mandate)
construct_diffs raw draft raw_base base d b old new namespace id revision =
    let (one, two, three) = succeeds raw draft d in
    (diff_mandate_authority_exact raw_base base draft.proposed_mandate _ b old new).1
      (namespace ∙ one, id ∙ sym two, omega (arith, revision, three), refl)
