-- ===== src/Core/Common/Ids.antt =====
-- Stable identifiers pass the checks of core/common.py unchanged.
use digital_colleagues.Base.{
  ◌≤◌, ◌≡◌, refl, ◌≢◌, true, not, List, [], ◌∷◌, String, arith, nat_eq, string_eq, option_eq,
  list_eq, ok,
}
use Prim.Native.Char.{Char}
use digital_colleagues.Base.Lists.{all, unique}
use digital_colleagues.Core.Common.{
  is_stable_id, require_text, text_maximum, normalize_items, freeze_strings,
}
use digital_colleagues.Core.Common.Chars.{is_space, is_id_start, is_id_char, all_chars, length}
use digital_colleagues.Core.Common.Strip.{strip_lem}

solid_start : (c : Char) → is_id_start c ≡ true → not (is_space c) ≡ true
unfolding is_id_start is_space
solid_start c h = ground arith

solid_char : (c : Char) → is_id_char c ≡ true → not (is_space c) ≡ true
unfolding is_id_char is_id_start is_space
solid_char c h = ground arith

solid_chars :
    (s : String) → all_chars is_id_char s ≡ true → all_chars (λ c. not (is_space c)) s ≡ true
unfolding all_chars
solid_chars String.[] h = refl
solid_chars (String.◌∷◌ c s) h = ground (arith, solid_char c, solid_chars s)

solid_id : (s : String) → is_stable_id s ≡ true → all_chars (λ c. not (is_space c)) s ≡ true
unfolding is_stable_id all_chars
solid_id String.[] h = cc
solid_id (String.◌∷◌ c s) h = ground (arith, solid_start c, solid_chars s)

short_id : (s : String) → is_stable_id s ≡ true → length s ≤ 128
unfolding is_stable_id length
short_id String.[] h = cc
short_id (String.◌∷◌ c s) h = ground arith

filled_id : (s : String) → is_stable_id s ≡ true → s ≢ ""
unfolding is_stable_id
filled_id String.[] h e = cc
filled_id (String.◌∷◌ c s) h e = cc

-- A stable identifier is a text that `require_text` returns as it is.
pub require_text_lem : (s : String) → is_stable_id s ≡ true → require_text text_maximum s ≡ ok s
unfolding require_text
require_text_lem s h = ground (arith, strip_lem s (solid_id s h), short_id s h, filled_id s h)

pub normalize_items_lem :
    (ids : List String) → all is_stable_id ids ≡ true → normalize_items ids ≡ ok ids
unfolding normalize_items
normalize_items_lem [] h = refl
normalize_items_lem (id ∷ ids) h = ground (arith, require_text_lem id, normalize_items_lem ids)

-- Distinct stable identifiers pass `freeze_strings` as they are.
pub freeze_strings_lem :
    (ids : List String)
    → all is_stable_id ids ≡ true
    → unique ids ≡ true
    → freeze_strings true ids ≡ ok ids
unfolding freeze_strings
freeze_strings_lem ids h u = ground (arith, normalize_items_lem ids h)
