-- ===== src/Core/Common/Json/Canonical.antt =====
-- The entries of a frozen object are in one order, whatever order they came in.
use digital_colleagues.Base.{
  ◌≡◌, refl, sym, ap, ◌∙◌, inl, inr, true, false, some, ◌∷◌, String, arith, ◌==◌, nat_eq, string_eq,
  option_eq, list_eq, if◌then◌else◌, Bool-cases, ok, ◌>>=◌, >>=-ok_parts,
}
use digital_colleagues.Base.Lists.{unique, elem}
use digital_colleagues.Base.Sorting.{
  str_leb, sort, insert, unique-insert, str_leb_total, str_leb_trans,
}
use digital_colleagues.Base.Sorting.Ordered.{IsSorted, sort-IsSorted}
use digital_colleagues.Core.Common.Json.{
  Value, Entries, empty, entry, FrozenJsonObject, keys, insert_entry, sort_entries, close_entries,
  lookup, freeze_entries, construct,
}

keys-insert_entry :
    (key : String) (value : Value) (es : Entries)
    → keys (insert_entry key value es) ≡ insert str_leb key (keys es)
unfolding insert
keys-insert_entry key value empty = refl
keys-insert_entry key value (entry other held rest) =
    ground (arith, keys-insert_entry key value rest)

keys-sort_entries : (es : Entries) → keys (sort_entries es) ≡ sort str_leb (keys es)
unfolding sort
keys-sort_entries empty = refl
keys-sort_entries (entry key value rest) =
    keys-insert_entry key value (sort_entries rest)
    ∙ ap (insert str_leb key) (keys-sort_entries rest)

lookup-insert_entry :
    (key : String) (value : Value) (es : Entries) (wanted : String)
    → elem key (keys es) ≡ false
    → lookup (insert_entry key value es) wanted ≡ lookup (entry key value es) wanted
lookup-insert_entry key value empty wanted new = refl
lookup-insert_entry key value (entry other held rest) wanted new =
    ground (arith, lookup-insert_entry key value rest wanted)

lookup-sort_entries :
    (es : Entries) (wanted : String)
    → unique (keys (sort_entries es)) ≡ true
    → lookup (sort_entries es) wanted ≡ lookup es wanted
lookup-sort_entries empty wanted u = refl
lookup-sort_entries (entry key value rest) wanted u =
    let parts : unique (key ∷ keys (sort_entries rest)) ≡ true =
      sym (unique-insert key (keys (sort_entries rest)))
      ∙ sym (ap unique (keys-insert_entry key value (sort_entries rest)))
      ∙ u in
    lookup-insert_entry key value (sort_entries rest) wanted (ground arith)
    ∙ ap (λ found. if key == wanted then some value else found)
        (lookup-sort_entries rest wanted (ground arith))

-- `entries` are the frozen entries of a literal, in the one order of their keys.
pub record IsCanonical (normalized entries : Entries) : Type 0 where
  pub ordered : IsSorted str_leb (keys entries)
  pub distinct : unique (keys entries) ≡ true
  pub same : (key : String) → lookup entries key ≡ lookup normalized key

closed :
    (normalized : Entries) (object : FrozenJsonObject)
    → (close_entries normalized >>= λ entries. ok (record { as_entries = entries })) ≡ ok object
    → (unique (keys (sort_entries normalized)) ≡ true)
      × (object.as_entries ≡ sort_entries normalized)
closed normalized object h = elim (Bool-cases (unique (keys (sort_entries normalized)))) [
  | inl distinct ↦ ground arith
  | inr repeated ↦ ground arith
]

sort_entries-IsCanonical :
    (normalized : Entries)
    → unique (keys (sort_entries normalized)) ≡ true
    → IsCanonical normalized (sort_entries normalized)
sort_entries-IsCanonical normalized distinct = record {
  ordered =
      rw (keys-sort_entries normalized)
        (sort-IsSorted str_leb str_leb_total str_leb_trans (keys normalized));
  distinct = distinct;
  same = λ key. lookup-sort_entries normalized key distinct;
}

-- If the constructor of a frozen object returns, then all the entries were frozen, and the object
-- holds them under the same keys, without a repeated key and in ascending order.
pub construct-IsCanonical :
    (raw_entries : Entries) (object : FrozenJsonObject)
    → construct raw_entries ≡ ok object
    → (normalized : Entries) × (freeze_entries raw_entries ≡ ok normalized)
      × IsCanonical normalized object.as_entries
unfolding construct
construct-IsCanonical raw_entries object h =
    let (normalized, frozen, rest) = >>=-ok_parts (freeze_entries raw_entries) _ h in
    let (distinct, same) = closed normalized object rest in
    (normalized, frozen, rw same (sort_entries-IsCanonical normalized distinct))
