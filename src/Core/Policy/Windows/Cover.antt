-- ===== src/Core/Policy/Windows/Cover.antt =====
-- How often a minute of the week is covered.
use digital_colleagues.Base.{
  ℕ, ◌+◌, ◌≡◌, refl, ap, ◌∙◌, Bool, true, false, ◌&&◌, List, [], ◌∷◌, arith, ◌==◌, nat_eq,
  string_eq, option_eq, list_eq, ltb, leb,
}
use digital_colleagues.Base.Sorting.{sort, insert}
use digital_colleagues.Core.Policy.Windows.{Interval}

abbrev pub covers : ℕ → ℕ → Interval → Bool
covers d m i = i.day == d && (leb i.from m && ltb m i.until)

abbrev one : Bool → ℕ
one true = 1
one false = 0

-- The number of intervals that hold a minute of a day.
unfoldable pub cover : ℕ → ℕ → List Interval → ℕ
cover d m [] = 0
cover d m (i ∷ is) = one (covers d m i) + cover d m is

module _ (le : Interval → Interval → Bool) (d m : ℕ) where
  cover-insert :
      (i : Interval) (is : List Interval) → cover d m (insert le i is) ≡ cover d m (i ∷ is)
  unfolding cover insert
  cover-insert i [] = refl
  cover-insert i (j ∷ is) = ground (arith, cover-insert i is)

  -- Sorting changes no count.
  pub cover-sort : (is : List Interval) → cover d m (sort le is) ≡ cover d m is
  unfolding cover sort
  cover-sort [] = refl
  cover-sort (i ∷ is) =
      cover-insert i (sort le is) ∙ ap (λ (n : ℕ). one (covers d m i) + n) (cover-sort is)
