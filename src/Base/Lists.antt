-- ===== src/Base/Lists.antt =====
-- Lists under Boolean tests.
use Prim.Native.Nat.{ℕ, suc, ◌≤◌}
use mathlib.Core.Bool.{Bool, true, false, ◌&&◌, ◌||◌, not}
use mathlib.Core.List.{List, [], ◌∷◌}
use digital_colleagues.Base.Tests.{Eq, ◌==◌, if◌then◌else◌}
use digital_colleagues.Base.Results.{Error, Result, ok, ◌>>◌, require}
use mathlib.Core.Logic.{◌≢◌}
use mathlib.Core.Path.{◌≡◌, refl}
use native.Mathlib.Omega.{arith}

module _ {ℓ} {A : Type ℓ} where
  abbrev pub length : List A → ℕ
  length [] = 0
  length (x ∷ xs) = suc (length xs)

  abbrev pub any : (A → Bool) → List A → Bool
  any p [] = false
  any p (x ∷ xs) = p x || any p xs

  abbrev pub all : (A → Bool) → List A → Bool
  all p [] = true
  all p (x ∷ xs) = p x && all p xs

module _ {ℓ} {A : Type ℓ} ⦃e : Eq A⦄ where
  -- `a in xs`
  abbrev pub elem : A → List A → Bool
  elem a [] = false
  elem a (x ∷ xs) = a == x || elem a xs

  -- `xs.remove(a)` on a set that is kept as a list
  abbrev pub remove : A → List A → List A
  remove a [] = []
  remove a (x ∷ xs) = if a == x then xs else x ∷ remove a xs

  -- `len(xs) == len(set(xs))`
  abbrev pub unique : List A → Bool
  unique [] = true
  unique (x ∷ xs) = not (elem x xs) && unique xs

-- A loop that raises at the first item for which `check` raises.
abbrev pub each {ℓ} : {A : Type ℓ} → (A → Result (Unit {0})) → List A → Result (Unit {0})
each check [] = ok tt
each check (x ∷ xs) = check x >> each check xs

module _ {ℓ} {A : Type ℓ} ⦃e : Eq A⦄ where
  pub elem-cons_self : (x : A) (xs : List A) → elem x (x ∷ xs) ≡ true
  elem-cons_self x xs = ground arith

  pub elem-cons_of_elem : (x y : A) (xs : List A) → elem x xs ≡ true → elem x (y ∷ xs) ≡ true
  elem-cons_of_elem x y xs h = ground arith

  pub elem_self_of_eq : (x y : A) (xs : List A) → x ≡ y → elem x (y ∷ xs) ≡ true
  elem_self_of_eq x y xs same = ground arith

  pub elem_of_ne : (x y : A) (xs : List A) → x ≢ y → elem x (y ∷ xs) ≡ true → elem x xs ≡ true
  elem_of_ne x y xs differ h = ground arith

module _ {ℓ} {A : Type ℓ} ⦃e : Eq A⦄ (p : A → Bool) where
  pub all-elem : (xs : List A) → all p xs ≡ true → (x : A) → elem x xs ≡ true → p x ≡ true
  all-elem [] h x m = cc
  all-elem (y ∷ ys) h x m = elim (e.decide_eq x y) [
    | yes same ↦ rw same (ground arith)
    | no differ ↦ all-elem ys (ground arith) x (ground arith)
  ]

  pub all_of_elem : (xs : List A) → ((x : A) → elem x xs ≡ true → p x ≡ true) → all p xs ≡ true
  all_of_elem [] h = refl
  all_of_elem (y ∷ ys) h =
      let tail : all p ys ≡ true = all_of_elem ys (λ x m. h x (elem-cons_of_elem x y ys m)) in
      ground (arith, h y (elem-cons_self y ys))

module _ {ℓ} {A : Type ℓ} (p : A → Bool) (e : Error) where
  -- A loop of tests with one error is a conjunction.
  pub each-require : (xs : List A) → each (λ x. require (p x) e) xs ≡ require (all p xs) e
  each-require [] = refl
  each-require (x ∷ xs) = ground (arith, each-require xs)

module _ {ℓ} {A : Type ℓ} ⦃e : Eq A⦄ where
  length-remove : (a : A) (xs : List A) → elem a xs ≡ true → length xs ≡ suc (length (remove a xs))
  length-remove a [] m = cc
  length-remove a (x ∷ xs) m = ground (arith, length-remove a xs)

  elem-remove_ne : (a b : A) (xs : List A) → b ≢ a → elem b xs ≡ true → elem b (remove a xs) ≡ true
  elem-remove_ne a b [] differ m = m
  elem-remove_ne a b (x ∷ xs) differ m = ground (arith, elem-remove_ne a b xs differ)

  -- Distinct members of a list are at most as many as the list is long.
  pub length-le_of_unique :
      (xs ys : List A)
      → unique xs ≡ true
      → ((x : A) → elem x xs ≡ true → elem x ys ≡ true)
      → length xs ≤ length ys
  length-le_of_unique [] ys u sub = omega arith
  length-le_of_unique (x ∷ xs) ys u sub =
      let rest = length-le_of_unique xs (remove x ys) (ground arith) (λ z m.
        elem-remove_ne x z ys (λ same. ne_of_unique x xs z u m same)
          (sub z (elem-cons_of_elem z x xs m))) in
      omega (arith, rest, length-remove x ys (sub x (elem-cons_self x xs)))
    where
      ne_of_unique :
          (x : A) (xs : List A) (z : A) → unique (x ∷ xs) ≡ true → elem z xs ≡ true → z ≢ x
      ne_of_unique x xs z u m same = ground arith
