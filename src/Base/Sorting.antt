-- ===== src/Base/Sorting.antt =====
-- Python's `sorted` on strings, which compares code points.
pub mod Ordered
use Prim.Native.Char.{code}
use Prim.Native.String
use digital_colleagues.Base.Tests.{Eq, ltb, ◌==◌, nat_eq, string_eq, if◌then◌else◌}
use mathlib.Core.Bool.{Bool, true, false, not, ◌&&◌, ◌||◌}
use mathlib.Core.List.{List, [], ◌∷◌}
use Prim.Native.String.{String}
use mathlib.Core.Path.{◌≡◌, refl}
use native.Mathlib.Omega.{arith}
use digital_colleagues.Base.Lists.{elem, unique}

unfoldable pub str_leb : String → String → Bool
str_leb String.[] t = true
str_leb (String.◌∷◌ c s) String.[] = false
str_leb (String.◌∷◌ c s) (String.◌∷◌ d t) = ltb (code c) (code d) || code c == code d && str_leb s t

-- The order of strings is total and transitive.
pub str_leb_total : (s t : String) → str_leb s t ≡ false → str_leb t s ≡ true
unfolding str_leb
str_leb_total String.[] t h = cc
str_leb_total (String.◌∷◌ c s) String.[] h = refl
str_leb_total (String.◌∷◌ c s) (String.◌∷◌ d t) h = ground (arith, str_leb_total s t)

pub str_leb_trans : (r s t : String) → str_leb r s ≡ true → str_leb s t ≡ true → str_leb r t ≡ true
unfolding str_leb
str_leb_trans String.[] s t h k = refl
str_leb_trans (String.◌∷◌ b r) String.[] t h k = cc
str_leb_trans (String.◌∷◌ b r) (String.◌∷◌ c s) String.[] h k = cc
str_leb_trans (String.◌∷◌ b r) (String.◌∷◌ c s) (String.◌∷◌ d t) h k =
    ground (arith, str_leb_trans r s t)

module _ {ℓ} {A : Type ℓ} (le : A → A → Bool) where
  unfoldable pub insert : A → List A → List A
  insert x [] = x ∷ []
  insert x (y ∷ ys) = if le x y then x ∷ y ∷ ys else y ∷ insert x ys

  unfoldable pub sort : List A → List A
  unfolding insert
  sort [] = []
  sort (x ∷ xs) = insert x (sort xs)

module _ {ℓ} {A : Type ℓ} ⦃e : Eq A⦄ (le : A → A → Bool) where
  elem-insert : (a x : A) (xs : List A) → elem a (insert le x xs) ≡ elem a (x ∷ xs)
  unfolding insert
  elem-insert a x [] = refl
  elem-insert a x (y ∷ ys) = ground (arith, elem-insert a x ys)

  -- Sorting keeps the members.
  pub elem-sort : (a : A) (xs : List A) → elem a (sort le xs) ≡ elem a xs
  unfolding sort
  elem-sort a [] = refl
  elem-sort a (x ∷ xs) = rw (elem-insert, elem-sort a xs)

pub unique-insert : (x : String) (xs : List String) → unique (insert str_leb x xs) ≡ unique (x ∷ xs)
unfolding insert
unique-insert x [] = refl
unique-insert x (y ∷ ys) = ground (arith, unique-insert x ys, elem-insert str_leb y x ys)

-- Sorting keeps the members distinct.
pub unique-sort : (xs : List String) → unique (sort str_leb xs) ≡ unique xs
unfolding sort
unique-sort [] = refl
unique-sort (x ∷ xs) =
    ground (arith, unique-insert x (sort str_leb xs), unique-sort xs, elem-sort str_leb x xs)
