-- ===== src/Core/Common.antt =====
-- core/common.py: the checks that every constructor shares. A value of the wrong Python type is
-- no value of the model's types, so the tests by `isinstance` are not repeated here.
pub mod Chars
pub mod Strip
pub mod Normal
pub mod Ids
pub mod Calendar
pub mod Json
use digital_colleagues.Base.{
  ◌+◌, ℕ, Bool, true, false, ◌&&◌, ◌||◌, not, String, Option, none, some, List, [], ◌∷◌, ◌==◌, leb,
  ltb, nat_eq, string_eq, Result, ok, err, ◌>>=◌, ◌>>◌, require, core_invariant, if◌then◌else◌,
}
use digital_colleagues.Base.Lists.{unique}
use Prim.Native.String
use Chars.{length, all_chars, is_id_start, is_id_char, is_hex, after_prefix}
use Strip.{strip}

-- `SCHEMA_VERSION`
abbrev pub supported_schema : ℕ
supported_schema = 1

-- `_ID_PATTERN`: one character of `[a-z0-9]`, then at most 127 of `[a-z0-9._:-]`.
unfoldable pub is_stable_id : String → Bool
unfolding is_id_start is_id_char all_chars length
is_stable_id String.[] = false
is_stable_id (String.◌∷◌ c rest) =
    is_id_start c && all_chars is_id_char rest && leb (length rest) 127

-- `_SHA256_PATTERN`: `sha256:` and 64 lowercase hexadecimal digits.
unfoldable pub is_digest : String → Bool
unfolding is_hex all_chars length after_prefix
is_digest value = elim (after_prefix "sha256:" value) [
  | none ↦ false
  | some rest ↦ all_chars is_hex rest && length rest == 64
]

unfoldable pub require_text : ℕ → String → Result String
require_text maximum value =
    let normalized = strip value in
    if normalized == "" || ltb maximum (length normalized)
    then err core_invariant
    else ok normalized

-- The default `maximum` of `require_text`.
abbrev pub text_maximum : ℕ
text_maximum = 4096

abbrev pub require_stable_id : String → Result (Unit {0})
require_stable_id value = require (is_stable_id value) core_invariant

abbrev pub require_revision : ℕ → Result (Unit {0})
require_revision value = require (leb 1 value) core_invariant

abbrev pub require_schema_version : ℕ → Result (Unit {0})
require_schema_version value = require (value == supported_schema) core_invariant

abbrev pub require_digest : String → Result (Unit {0})
require_digest value = require (is_digest value) core_invariant

-- `if value is not None: require_stable_id(value)`
abbrev pub require_optional_id : Option String → Result (Unit {0})
require_optional_id none = ok tt
require_optional_id (some value) = require_stable_id value

-- `value is not None`
abbrev pub given {ℓ} : {A : Type ℓ} → Option A → Bool
given none = false
given (some _) = true

-- `if value is not None: check(value)`
abbrev pub require_optional {ℓ} :
    {A : Type ℓ} → (A → Result (Unit {0})) → Option A → Result (Unit {0})
require_optional check none = ok tt
require_optional check (some value) = check value

-- `bool(values)`
abbrev pub filled {ℓ} : {A : Type ℓ} → List A → Bool
filled [] = false
filled (_ ∷ _) = true

-- A `datetime`: its wall clock in microseconds since 0001-01-01T00:00, and what `utcoffset()` says:
-- nothing, zero, an exception, or one microsecond more to the east or the west than the number.
pub data UtcOffset : Type 0 where
  naive zero_offset failing_offset : UtcOffset
  east west : ℕ → UtcOffset

-- How far the clock is ahead of UTC, and how far behind it, in microseconds.
abbrev pub ahead : UtcOffset → ℕ
ahead (east less) = less + 1
ahead _ = 0

abbrev pub behind : UtcOffset → ℕ
behind (west less) = less + 1
behind _ = 0

pub record DateTime : Type 0 where
  pub clock : ℕ
  pub offset : UtcOffset

abbrev pub is_utc : UtcOffset → Bool
is_utc zero_offset = true
is_utc _ = false

abbrev pub require_utc : DateTime → Result (Unit {0})
require_utc value = require (is_utc value.offset) core_invariant

-- The loop of `freeze_strings` over its items.
unfoldable pub normalize_items : List String → Result (List String)
normalize_items [] = ok []
normalize_items (item ∷ items) = do
  text ← require_text text_maximum item
  rest ← normalize_items items
  ok (text ∷ rest)

unfoldable pub freeze_strings : Bool → List String → Result (List String)
unfolding normalize_items
freeze_strings allow_empty values = do
  normalized ← normalize_items values
  require (allow_empty || filled normalized) core_invariant
  require (unique normalized) core_invariant
  ok normalized
