-- ===== src/Core/Common/Chars.antt =====
-- Character classes and character-wise tests of core/common.py.
use Prim.Native.Char.{Char, code}
use digital_colleagues.Base.{
  ℕ, suc, Bool, true, ◌&&◌, ◌||◌, String, Option, none, some, leb, ◌==◌, nat_eq, if◌then◌else◌,
}

unfoldable pub length : String → ℕ
length String.[] = 0
length (String.◌∷◌ c s) = suc (length s)

unfoldable pub all_chars : (Char → Bool) → String → Bool
all_chars p String.[] = true
all_chars p (String.◌∷◌ c s) = p c && all_chars p s

abbrev between : ℕ → ℕ → ℕ → Bool
between lo hi n = leb lo n && leb n hi

-- `[a-z0-9]`
unfoldable pub is_id_start : Char → Bool
is_id_start c = between b'a' b'z' (code c) || between b'0' b'9' (code c)

-- `[a-z0-9._:-]`
unfoldable pub is_id_char : Char → Bool
unfolding is_id_start
is_id_char c = is_id_start c || code c == b'.' || code c == b'_' || code c == b':' || code c == b'-'

-- `[0-9a-f]`
unfoldable pub is_hex : Char → Bool
is_hex c = between b'0' b'9' (code c) || between b'a' b'f' (code c)

-- What follows a prefix, if the text begins with it.
unfoldable pub after_prefix : String → String → Option String
after_prefix String.[] s = some s
after_prefix (String.◌∷◌ c p) String.[] = none
after_prefix (String.◌∷◌ c p) (String.◌∷◌ d s) = if code c == code d then after_prefix p s else none

-- The characters for which Python's `str.isspace` holds.
unfoldable pub is_space : Char → Bool
is_space c =
    let n = code c in
    between 9 13 n
    || between 28 32 n
    || n == 133
    || n == 160
    || n == 5760
    || between 8192 8202 n
    || n == 8232
    || n == 8233
    || n == 8239
    || n == 8287
    || n == 12288
