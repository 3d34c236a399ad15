-- ===== src/Core/Common/Normal.antt =====
-- Values that core/common.py has accepted are accepted again, unchanged.
use digital_colleagues.Base.{
  ℕ, ◌≡◌, Bool, true, String, List, [], ◌∷◌, arith, ok, >>=-ok_parts, string_eq,
}
use digital_colleagues.Base.Lists.{unique}
use digital_colleagues.Core.Common.{require_text, text_maximum, normalize_items, freeze_strings}
use digital_colleagues.Core.Common.Strip.{strip-strip}

-- What `require_text` returns it returns again.
pub require_text_again :
    (maximum : ℕ) (value : String) {text : String}
    → require_text maximum value ≡ ok text
    → require_text maximum text ≡ ok text
unfolding require_text
require_text_again maximum value h = ground (arith, strip-strip value)

normalize_items_again :
    (values : List String) {texts : List String}
    → normalize_items values ≡ ok texts
    → normalize_items texts ≡ ok texts
unfolding normalize_items
normalize_items_again [] {texts} h = ground arith
normalize_items_again (item ∷ items) h =
    let (text, p, q) = >>=-ok_parts (require_text text_maximum item) _ h in
    let (rest, r, s) = >>=-ok_parts (normalize_items items) _ q in
    ground (arith, require_text_again text_maximum item p, normalize_items_again items r)

-- What `freeze_strings` returns holds no duplicate, and `freeze_strings` returns it again unchanged.
pub freeze_strings_again :
    (allow_empty : Bool) (values : List String) {texts : List String}
    → freeze_strings allow_empty values ≡ ok texts
    → (unique texts ≡ true) × (freeze_strings allow_empty texts ≡ ok texts)
unfolding freeze_strings
freeze_strings_again allow_empty values h =
    let (texts, p, q) = >>=-ok_parts (normalize_items values) _ h in
    ground (arith, normalize_items_again values p)
