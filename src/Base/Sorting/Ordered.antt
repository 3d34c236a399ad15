-- ===== src/Base/Sorting/Ordered.antt =====
-- The insertion sort sorts.
use digital_colleagues.Base.{
  ◌≡◌, inl, inr, Bool, true, false, List, [], ◌∷◌, nat_eq, string_eq, option_eq, list_eq,
  Bool-cases,
}
use digital_colleagues.Base.Sorting.{insert, sort}

module _ {ℓ} {A : Type ℓ} (le : A → A → Bool) where
  abbrev pub Below : A → List A → Type 0
  Below x [] = Unit
  Below x (y ∷ ys) = (le x y ≡ true) × Below x ys

  -- Each element is below all that follow it.
  abbrev pub IsSorted : List A → Type 0
  IsSorted [] = Unit
  IsSorted (x ∷ xs) = Below x xs × IsSorted xs

module _ {ℓ} {A : Type ℓ} (le : A → A → Bool) (total : (x y : A) → le x y ≡ false → le y x ≡ true)
    (trans : (x y z : A) → le x y ≡ true → le y z ≡ true → le x z ≡ true) where
  Below-trans : (x y : A) (ys : List A) → le x y ≡ true → Below le y ys → Below le x ys
  Below-trans x y [] h b = tt
  Below-trans x y (z ∷ zs) h b = (trans x y z h b.0, Below-trans x y zs h b.1)

  Below-insert :
      (x y : A) (ys : List A) → le x y ≡ true → Below le x ys → Below le x (insert le y ys)
  unfolding insert
  Below-insert x y [] h b = (h, tt)
  Below-insert x y (z ∷ zs) h b = elim (Bool-cases (le y z)) [
    | inl before ↦ rw before (h, b)
    | inr after ↦ rw after (b.0, Below-insert x y zs h b.1)
  ]

  IsSorted-insert : (y : A) (ys : List A) → IsSorted le ys → IsSorted le (insert le y ys)
  unfolding insert
  IsSorted-insert y [] s = (tt, tt)
  IsSorted-insert y (z ∷ zs) s = elim (Bool-cases (le y z)) [
    | inl before ↦ rw before ((before, Below-trans y z zs before s.0), s)
    | inr after ↦ rw after (Below-insert z y zs (total y z after) s.0, IsSorted-insert y zs s.1)
  ]

  pub sort-IsSorted : (xs : List A) → IsSorted le (sort le xs)
  unfolding sort
  sort-IsSorted [] = tt
  sort-IsSorted (x ∷ xs) = IsSorted-insert x (sort le xs) (sort-IsSorted xs)
