-- ===== src/Core/Governance/Changes/Binding.antt =====
-- What the digest of a change of authority fixes.
use digital_colleagues.Base.{
  ℕ, ◌≡◌, refl, sym, ap, ◌∙◌, Option, none, some, List, [], ◌∷◌, String, arith, nat_eq, string_eq,
  option_eq, list_eq, String-discrete, ok,
}
use digital_colleagues.Base.Lists.{elem}
use digital_colleagues.Base.Sorting.{sort, str_leb, elem-sort}
use digital_colleagues.Core.Common.Json.{
  Value, text, null, integer, pos, array, mapping, lookup, Values, end,
}
use digital_colleagues.Core.Effects.Envelope.{texts, role_value}
use digital_colleagues.Core.Principals.{HumanRole, tenant_admin, colleague_user, auditor}
use digital_colleagues.Core.Governance.{MembershipStatus, active, revoked}
use digital_colleagues.Core.Governance.Changes.{
  Change, ChangeKind, draft, membership, admin_enrollment, change_kind_value, status_value,
  optional_role, optional_status, change_document, governance_change_digest,
}

change_kind_value-injective : (a b : ChangeKind) → change_kind_value a ≡ change_kind_value b → a ≡ b
change_kind_value-injective draft draft h = refl
change_kind_value-injective draft membership h = cc
change_kind_value-injective draft admin_enrollment h = cc
change_kind_value-injective membership draft h = cc
change_kind_value-injective membership membership h = refl
change_kind_value-injective membership admin_enrollment h = cc
change_kind_value-injective admin_enrollment draft h = cc
change_kind_value-injective admin_enrollment membership h = cc
change_kind_value-injective admin_enrollment admin_enrollment h = refl

role_value-injective : (a b : HumanRole) → role_value a ≡ role_value b → a ≡ b
role_value-injective tenant_admin tenant_admin h = refl
role_value-injective tenant_admin colleague_user h = cc
role_value-injective tenant_admin auditor h = cc
role_value-injective colleague_user tenant_admin h = cc
role_value-injective colleague_user colleague_user h = refl
role_value-injective colleague_user auditor h = cc
role_value-injective auditor tenant_admin h = cc
role_value-injective auditor colleague_user h = cc
role_value-injective auditor auditor h = refl

status_value-injective : (a b : MembershipStatus) → status_value a ≡ status_value b → a ≡ b
status_value-injective active active h = refl
status_value-injective active revoked h = cc
status_value-injective revoked active h = cc
status_value-injective revoked revoked h = refl

optional_role-injective : (a b : Option HumanRole) → optional_role a ≡ optional_role b → a ≡ b
optional_role-injective none none h = refl
optional_role-injective none (some _) h = cc
optional_role-injective (some _) none h = cc
optional_role-injective (some a) (some b) h = ap some (role_value-injective a b (cc h))

optional_status-injective :
    (a b : Option MembershipStatus) → optional_status a ≡ optional_status b → a ≡ b
optional_status-injective none none h = refl
optional_status-injective none (some _) h = cc
optional_status-injective (some _) none h = cc
optional_status-injective (some a) (some b) h = ap some (status_value-injective a b (cc h))

texts-injective : (xs ys : List String) → texts xs ≡ texts ys → xs ≡ ys
texts-injective [] [] h = refl
texts-injective [] (y ∷ ys) h = cc
texts-injective (x ∷ xs) [] h = cc
texts-injective (x ∷ xs) (y ∷ ys) h =
    let first : x ≡ y = cc h in let rest = texts-injective xs ys (cc h) in cc (first, rest)

-- The value at a key of a document.
value_at : String → Value → Value
value_at key (mapping entries) = elim (lookup entries key) [ none ↦ null | some value ↦ value ]
value_at key value = null

text_of : Value → String
text_of (text value) = value
text_of value = ""

number_of : Value → ℕ
number_of (integer (pos n)) = n
number_of value = 0

items_of : Value → Values
items_of (array values) = values
items_of value = end

-- One change of one target: the order of the scopes is all that may differ.
pub record IsSameChange (one two : Change) : Type 0 where
  pub kind : one.change_kind ≡ two.change_kind
  pub target : one.target_id ≡ two.target_id
  pub target_revision : one.target_revision ≡ two.target_revision
  pub role : one.proposed_role ≡ two.proposed_role
  pub status : one.proposed_status ≡ two.proposed_status
  pub scopes :
      (id : String) → elem id one.proposed_colleague_ids ≡ elem id two.proposed_colleague_ids

same_document :
    (one two : Change) → change_document one ≡ change_document two → IsSameChange one two
unfolding value_at text_of number_of items_of String-discrete
same_document one two same = record {
  kind = change_kind_value-injective _ _ (ap (λ v. text_of (value_at "change_kind" v)) same);
  target = ap (λ v. text_of (value_at "target_id" v)) same;
  target_revision = ap (λ v. number_of (value_at "target_revision" v)) same;
  role = optional_role-injective _ _ (ap (value_at "proposed_role") same);
  status = optional_status-injective _ _ (ap (value_at "proposed_status") same);
  scopes = λ id.
      let sorted =
        texts-injective (sort str_leb one.proposed_colleague_ids)
          (sort str_leb two.proposed_colleague_ids)
          (ap (λ v. items_of (value_at "proposed_colleague_ids" v)) same) in
      sym (elem-sort str_leb id one.proposed_colleague_ids)
      ∙ ap (elem id) sorted
      ∙ elem-sort str_leb id two.proposed_colleague_ids;
}

-- If two changes have one digest, and the digest tells their documents apart where these differ,
-- then they are one change, up to the order of its scopes.
pub governance_change_digest_binds :
    (canonical_digest : Value → String) (one two : Change) (digest : String)
    → governance_change_digest canonical_digest one ≡ ok digest
    → governance_change_digest canonical_digest two ≡ ok digest
    → (canonical_digest (change_document one) ≡ canonical_digest (change_document two)
        → change_document one ≡ change_document two)
    → IsSameChange one two
unfolding governance_change_digest
governance_change_digest_binds canonical_digest one two digest h k free =
    let a : canonical_digest (change_document one) ≡ digest = digest_of one h in
    let b : canonical_digest (change_document two) ≡ digest = digest_of two k in
    same_document one two (free (a ∙ sym b))
  where
    digest_of :
        (c : Change)
        → governance_change_digest canonical_digest c ≡ ok digest
        → canonical_digest (change_document c) ≡ digest
    digest_of c h = ground arith
