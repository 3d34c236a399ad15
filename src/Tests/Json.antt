-- ===== src/Tests/Json.antt =====
-- Frozen objects and texts at concrete inputs.
use digital_colleagues.Base.{
  ◌≡◌, refl, true, false, [], ◌∷◌, String, nat_eq, string_eq, option_eq, list_eq, ok, err,
  core_invariant,
}
use digital_colleagues.Base.Lists.{unique}
use digital_colleagues.Core.Common.{freeze_strings}
use digital_colleagues.Core.Common.Normal.{freeze_strings_again}
use digital_colleagues.Base.Sorting.{str_leb}
use digital_colleagues.Core.Common.Json
use digital_colleagues.Core.Common.Json.{
  FrozenJsonObject, Value, boolean, text, mapping, frozen, array, end, item, Entries, empty, entry,
  freeze_json, freeze_entries, float,
}
use digital_colleagues.Core.Common.Json.Canonical.{IsCanonical, construct-IsCanonical}
use digital_colleagues.Tests.Samples.{running}

abbrev literal : Entries
literal = entry " b" (mapping (entry "x" (text "y") empty)) (entry "a" (boolean true) empty)

abbrev object : FrozenJsonObject
object = record {
  as_entries = entry "a" (boolean true) (entry "b" (frozen (entry "x" (text "y") empty)) empty);
}

object_constructed : Json.construct literal ≡ ok object
unfolding Json.construct freeze_json str_leb running
object_constructed = refl

-- Infinity is not a number of JSON.
infinity_refused : freeze_json (array (item (float 9218868437227405312) end)) ≡ err core_invariant
unfolding freeze_json running
infinity_refused = refl

construct-IsCanonical_example :
    (normalized : Entries) × (freeze_entries literal ≡ ok normalized)
    × IsCanonical normalized object.as_entries
construct-IsCanonical_example = construct-IsCanonical literal object object_constructed

trimmed : freeze_strings false (" a " ∷ "b" ∷ []) ≡ ok ("a" ∷ "b" ∷ [])
unfolding running
trimmed = refl

freeze_strings_again_example :
    (unique {A = String} ("a" ∷ "b" ∷ []) ≡ true)
    × (freeze_strings false ("a" ∷ "b" ∷ []) ≡ ok ("a" ∷ "b" ∷ []))
freeze_strings_again_example = freeze_strings_again false (" a " ∷ "b" ∷ []) trimmed
