-- ===== src/Governance/Approvals/Parameters.antt =====
-- Which parameters of an effect fit the constraints of its boundary.
use digital_colleagues.Base.{
  ◌≡◌, refl, sym, ap, ◌∙◌, ◌↔◌, Bool, true, false, List, [], ◌∷◌, String, arith, nat_eq, string_eq,
  option_eq, list_eq, String-discrete, ok, ◌>>=◌, >>=-ok_parts,
}
use digital_colleagues.Base.Lists.{unique}
use digital_colleagues.Core.Common.Json.{
  FrozenJsonObject, Value, null, text, boolean, integer, float, frozen, mapping, array, Entries,
  empty, entry, keys,
}
use digital_colleagues.Governance.Approvals.{
  typed_entries, typed_constraint_values, authorize_constraint_parameters,
}

-- The object `{"network": value}`
abbrev pub network : Bool → FrozenJsonObject
network value = record { as_entries = entry "network" (boolean value) empty }

network_typed :
    (value : Bool) → typed_constraint_values (network value) ≡ ok (("network", value) ∷ [])
unfolding typed_constraint_values typed_entries String-discrete
network_typed value = refl

-- An entry that passes is a Boolean under the one known key.
passed :
    (key : String) (value : Value) (rest : Entries) (typed : List (String × Bool))
    → typed_entries (entry key value rest) ≡ ok typed
    → (flag : Bool) × (tail : List (String × Bool)) × (key ≡ "network")
      × (value ≡ boolean flag)
      × (typed_entries rest ≡ ok tail)
      × (typed ≡ (key, flag) ∷ tail)
unfolding typed_entries
passed key null rest typed h = cc
passed key (text _) rest typed h = cc
passed key (integer _) rest typed h = cc
passed key (float _) rest typed h = cc
passed key (frozen _) rest typed h = cc
passed key (mapping _) rest typed h = cc
passed key (array _) rest typed h = cc
passed key (boolean flag) rest typed h = elim (String-discrete key "network") [
  | no other ↦ ground arith
  | yes same ↦
      let returned : (typed_entries rest >>= λ tail. ok ((key, flag) ∷ tail)) ≡ ok typed =
        ground arith in
      let (tail, first, last) = >>=-ok_parts (typed_entries rest) _ returned in
      (flag, tail, same, refl, first, ground arith)
]

no_more : (tail : List (String × Bool)) → typed_entries empty ≡ ok tail → tail ≡ []
unfolding typed_entries
no_more tail h = cc

network_of_typed :
    (entries : Entries) (typed : List (String × Bool))
    → unique (keys entries) ≡ true
    → typed_constraint_values (record { as_entries = entries }) ≡ ok typed
    → (flag : Bool) × (entries ≡ entry "network" (boolean flag) empty)
      × (typed ≡ ("network", flag) ∷ [])
unfolding typed_constraint_values
network_of_typed empty typed u h = cc
network_of_typed (entry key value empty) typed u h =
    let (flag, tail, name, held, last, whole) = passed key value empty typed h in
    (flag, cc (name, held), ground (arith, whole, name, no_more tail last))
network_of_typed (entry key value (entry other next rest)) typed u h =
    let (flag, tail, name, held, more, whole) = passed key value (entry other next rest) typed h in
    let again = (passed other next rest tail more).2 in ground (arith, name, again)

-- The comparison of two flags.
agree :
    (flag other : Bool)
    → authorize_constraint_parameters (network flag) (network other) ≡ ok tt
    → flag ≡ other
unfolding authorize_constraint_parameters typed_constraint_values typed_entries String-discrete
agree true true h = refl
agree true false h = cc
agree false true h = cc
agree false false h = refl

agreed : (flag : Bool) → authorize_constraint_parameters (network flag) (network flag) ≡ ok tt
unfolding authorize_constraint_parameters typed_constraint_values typed_entries String-discrete
agreed true = refl
agreed false = refl

shapes :
    (proposal authoritative : FrozenJsonObject)
    → unique (keys proposal.as_entries) ≡ true
    → unique (keys authoritative.as_entries) ≡ true
    → authorize_constraint_parameters proposal authoritative ≡ ok tt
    → (flag other : Bool) × (proposal ≡ network flag) × (authoritative ≡ network other)
unfolding authorize_constraint_parameters
shapes proposal authoritative u v h =
    let (proposed, first, more) = >>=-ok_parts (typed_constraint_values proposal) _ h in
    let (authority, second, tests) = >>=-ok_parts (typed_constraint_values authoritative) _ more in
    let (flag, shape, list) = network_of_typed proposal.as_entries proposed u first in
    let (other, form, items) = network_of_typed authoritative.as_entries authority v second in
    (
      flag,
      other,
      ap (λ es. record { as_entries = es }) shape,
      ap (λ es. record { as_entries = es }) form,
    )

-- Of objects without a repeated key, the parameters of an effect are accepted exactly when both
-- they and the constraints of the boundary are the object with the one key `network`, with the
-- same Boolean.
pub authorize_constraint_parameters_exact :
    (proposal authoritative : FrozenJsonObject)
    → unique (keys proposal.as_entries) ≡ true
    → unique (keys authoritative.as_entries) ≡ true
    → (authorize_constraint_parameters proposal authoritative ≡ ok tt)
      ↔ ((flag : Bool) × (proposal ≡ network flag) × (authoritative ≡ network flag))
authorize_constraint_parameters_exact proposal authoritative u v = (
  (λ h.
      let (flag, other, one, two) = shapes proposal authoritative u v h in
      let same = agree flag other (sym (cc (one, two)) ∙ h) in
      (flag, one, two ∙ ap network (sym same))),
  (λ fit. cc (fit.1, fit.2) ∙ agreed fit.0),
)
