-- ===== src/Core/Common/Json.antt =====
-- core/common.py: FrozenJsonObject and freeze_json.
pub mod Canonical
pub mod Equal
use digital_colleagues.Base.{
  ℕ, zero, suc, ◌+◌, ◌-◌, ◌*◌, ◌/◌, ◌%◌, ◌≤◌, ◌<◌, ◌≡◌, refl, sym, ap, ◌∙◌, ◌≢◌, ◌↔◌, ◌⊎◌, inl, inr,
  Bool, true, false, not, ◌&&◌, ◌||◌, Option, none, some, List, [], ◌∷◌, ◌++◌, map, String, arith,
  Eq, ◌==◌, nat_eq, string_eq, option_eq, list_eq, List-discrete, Option-discrete, String-discrete,
  ℕ_discrete, ltb, leb, if◌then◌else◌, Bool-cases, Error, Result, ok, err, ◌>>=◌, ◌>>◌, require,
  core_invariant, namespace_mismatch, revision_mismatch, authorization, replay, lifecycle,
  >>=-ok_parts,
}
use digital_colleagues.Base.Lists.{unique}
use Prim.Native.Nat.{◌^◌}
use digital_colleagues.Base.Sorting.{str_leb}
use digital_colleagues.Core.Common.{require_text}

-- Python's `int`.
pub data ℤ : Type 0 where
  pos : ℕ → ℤ
  negsuc : ℕ → ℤ

-- The values that `freeze_json` tells apart. A `float` is its 64 bits (IEEE 754 binary64), a
-- `frozen` value is a `FrozenJsonObject`, a `mapping` any other mapping from texts, and an
-- `array` a list or a tuple.
mutual
  pub data Value : Type 0 where
    null : Value
    text : String → Value
    boolean : Bool → Value
    integer : ℤ → Value
    float : ℕ → Value
    frozen : Entries → Value
    mapping : Entries → Value
    array : Values → Value

  pub data Values : Type 0 where
    end : Values
    item : Value → Values → Values

  pub data Entries : Type 0 where
    empty : Entries
    entry : String → Value → Entries → Entries

-- `FrozenJsonObject._entries`
pub record FrozenJsonObject : Type 0 where
  pub as_entries : Entries

-- `math.isfinite`: the exponent of a float has not all its 11 bits set.
abbrev pub is_finite : ℕ → Bool
is_finite bits = not ((bits / 2 ^ 52) % 2 ^ 11 == 2047)

abbrev pub keys : Entries → List String
keys empty = []
keys (entry key _ rest) = key ∷ keys rest

-- `normalized.sort(key=lambda item: item[0])`, which is stable.
abbrev pub insert_entry : String → Value → Entries → Entries
insert_entry key value empty = entry key value empty
insert_entry key value (entry other held rest) =
    if str_leb key other
    then entry key value (entry other held rest)
    else entry other held (insert_entry key value rest)

abbrev pub sort_entries : Entries → Entries
sort_entries empty = empty
sort_entries (entry key value rest) = insert_entry key value (sort_entries rest)

-- What follows the loop of `FrozenJsonObject.__post_init__`.
abbrev pub close_entries : Entries → Result Entries
close_entries normalized = do
  require (unique (keys (sort_entries normalized))) core_invariant
  ok (sort_entries normalized)

unfoldable mutual
  -- `freeze_json`
  pub freeze_json : Value → Result Value
  freeze_json (float bits) = if is_finite bits then ok (float bits) else err core_invariant
  freeze_json (mapping values) = do
    normalized ← freeze_entries values
    entries ← close_entries normalized
    ok (frozen entries)
  freeze_json (array values) = do items ← freeze_items values; ok (array items)
  freeze_json value = ok value

  pub freeze_items : Values → Result Values
  freeze_items end = ok end
  freeze_items (item value rest) = do
    first ← freeze_json value
    others ← freeze_items rest
    ok (item first others)

  -- The loop of `FrozenJsonObject.__post_init__`.
  pub freeze_entries : Entries → Result Entries
  freeze_entries empty = ok empty
  freeze_entries (entry key value rest) = do
    name ← require_text 256 key
    held ← freeze_json value
    others ← freeze_entries rest
    ok (entry name held others)

-- `FrozenJsonObject.__post_init__`
unfoldable pub construct : Entries → Result FrozenJsonObject
unfolding freeze_json
construct raw_entries = do
  normalized ← freeze_entries raw_entries
  entries ← close_entries normalized
  ok (record { as_entries = entries })

-- `FrozenJsonObject.__getitem__`; `none` is a `KeyError`.
abbrev pub lookup : Entries → String → Option Value
lookup empty key = none
lookup (entry candidate value rest) key = if candidate == key then some value else lookup rest key

-- `len(values) == 0`
abbrev pub is_empty : FrozenJsonObject → Bool
is_empty self = elim self.as_entries [ empty ↦ true | entry _ _ _ ↦ false ]
