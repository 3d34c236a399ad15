-- ===== src/Core/Common/Strip.antt =====
-- Python's `str.strip`, and what a stripped text is.
use Prim.Native.Char.{Char}
use digital_colleagues.Base.{
  ◌≡◌, refl, Bool, true, not, String, arith, if◌then◌else◌, Bool-cases, inl, inr,
}
use digital_colleagues.Core.Common.Chars.{is_space, all_chars}

strip_left : String → String
strip_left String.[] = String.[]
strip_left (String.◌∷◌ c s) = if is_space c then strip_left s else String.◌∷◌ c s

-- Drops `c` if nothing but spaces follows it.
abbrev unless_blank : Char → String → String
unless_blank c String.[] = if is_space c then String.[] else String.◌∷◌ c String.[]
unless_blank c (String.◌∷◌ d s) = String.◌∷◌ c (String.◌∷◌ d s)

strip_right : String → String
strip_right String.[] = String.[]
strip_right (String.◌∷◌ c s) = unless_blank c (strip_right s)

unfoldable pub strip : String → String
unfolding strip_left strip_right
strip s = strip_right (strip_left s)

-- The first character, if any, is no space.
abbrev starts_clean : String → Bool
starts_clean String.[] = true
starts_clean (String.◌∷◌ c s) = not (is_space c)

starts_clean-strip_left : (s : String) → starts_clean (strip_left s) ≡ true
unfolding strip_left
starts_clean-strip_left String.[] = refl
starts_clean-strip_left (String.◌∷◌ c s) = ground (arith, starts_clean-strip_left s)

strip_left_lem : (s : String) → starts_clean s ≡ true → strip_left s ≡ s
unfolding strip_left
strip_left_lem String.[] h = refl
strip_left_lem (String.◌∷◌ c s) h = ground arith

strip_right-unless_blank :
    (c : Char) (s : String) → strip_right s ≡ s → strip_right (unless_blank c s) ≡ unless_blank c s
unfolding strip_right
strip_right-unless_blank c String.[] h = elim (Bool-cases (is_space c)) [
  | inl blank ↦ rw blank
  | inr solid ↦ rw (solid, solid)
]
strip_right-unless_blank c (String.◌∷◌ d s) h = rw h

strip_right-strip_right : (s : String) → strip_right (strip_right s) ≡ strip_right s
unfolding strip_right
strip_right-strip_right String.[] = refl
strip_right-strip_right (String.◌∷◌ c s) =
    strip_right-unless_blank c (strip_right s) (strip_right-strip_right s)

starts_clean-unless_blank :
    (c : Char) (s : String) → not (is_space c) ≡ true → starts_clean (unless_blank c s) ≡ true
starts_clean-unless_blank c String.[] h = ground arith
starts_clean-unless_blank c (String.◌∷◌ d s) h = h

starts_clean-strip_right :
    (s : String) → starts_clean s ≡ true → starts_clean (strip_right s) ≡ true
unfolding strip_right
starts_clean-strip_right String.[] h = refl
starts_clean-strip_right (String.◌∷◌ c s) h = starts_clean-unless_blank c (strip_right s) h

starts_clean_of_all :
    (s : String) → all_chars (λ c. not (is_space c)) s ≡ true → starts_clean s ≡ true
unfolding all_chars
starts_clean_of_all String.[] h = refl
starts_clean_of_all (String.◌∷◌ c s) h = ground arith

-- Stripping twice is stripping once.
pub strip-strip : (s : String) → strip (strip s) ≡ strip s
unfolding strip
strip-strip s =
    let clean = starts_clean-strip_right (strip_left s) (starts_clean-strip_left s) in
    rw (strip_left_lem _ clean) (strip_right-strip_right (strip_left s))

strip_right_lem : (s : String) → all_chars (λ c. not (is_space c)) s ≡ true → strip_right s ≡ s
unfolding strip_right all_chars
strip_right_lem String.[] h = refl
strip_right_lem (String.◌∷◌ c String.[]) h = ground arith
strip_right_lem (String.◌∷◌ c (String.◌∷◌ d s)) h =
    rw (strip_right_lem (String.◌∷◌ d s) (ground arith))

-- A text with no space in it is left alone.
pub strip_lem : (s : String) → all_chars (λ c. not (is_space c)) s ≡ true → strip s ≡ s
unfolding strip
strip_lem s h = rw (strip_left_lem s (starts_clean_of_all s h)) (strip_right_lem s h)
