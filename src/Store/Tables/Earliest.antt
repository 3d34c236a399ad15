-- ===== src/Store/Tables/Earliest.antt =====
-- `SELECT * ... WHERE` the rows pass `test` `ORDER BY` the order `before` `LIMIT 1`.
use digital_colleagues.Base.{
  ◌≡◌, inl, inr, Bool, true, false, Option, none, some, List, [], ◌∷◌, arith, nat_eq, string_eq,
  option_eq, list_eq, if◌then◌else◌, Option-cases,
}
use digital_colleagues.Store.Tables.{Key, key_eq, find}
use digital_colleagues.Store.Tables.Keyed.{distinct_keys, find_held}

module _ {Row : Type 0} where
  abbrev pub sooner : (Row → Row → Bool) → Row → Option Row → Row
  sooner before row none = row
  sooner before row (some other) = if before row other then row else other

  abbrev pub earliest : (Row → Bool) → (Row → Row → Bool) → List Row → Option Row
  earliest test before [] = none
  earliest test before (row ∷ rows) =
      let rest = earliest test before rows in
      if test row then some (sooner before row rest) else rest

module _ {Row : Type 0} (test : Row → Bool) (before : Row → Row → Bool) where
  pub earliest_passes :
      (rows : List Row) (row : Row) → earliest test before rows ≡ some row → test row ≡ true
  earliest_passes [] row chosen = cc
  earliest_passes (other ∷ rows) row chosen = ground (arith, earliest_passes rows row)

module _ {Row : Type 0} (key : Row → Key) (test : Row → Bool) (before : Row → Row → Bool) where
  -- Where none is chosen, no row passes.
  pub earliest-none :
      (rows : List Row)
      → (k : Key) (row : Row) → earliest test before rows ≡ none
      → find key k rows ≡ some row
      → test row ≡ false
  earliest-none [] k row chosen found = cc
  earliest-none (other ∷ rows) k row chosen found = ground (arith, earliest-none rows k row)

  -- The row that is chosen is the one with its key.
  pub find-earliest :
      (rows : List Row)
      → (row : Row) → distinct_keys key rows ≡ true
      → earliest test before rows ≡ some row
      → find key (key row) rows ≡ some row
  find-earliest [] row keyed chosen = cc
  find-earliest (other ∷ rows) row keyed chosen =
      ground (arith, find-earliest rows row, find_held key (key row) rows row)

module _ {Row : Type 0} (key : Row → Key) (test : Row → Bool) (before : Row → Row → Bool)
    (total : (a b : Row) → before a b ≡ false → before b a ≡ true)
    (trans : (a b c : Row) → before a b ≡ true → before b c ≡ true → before a c ≡ true)
    (again : (a : Row) → before a a ≡ true) where
  -- Every row that passes comes after the one that is chosen.
  pub earliest_before :
      (rows : List Row) (row : Row)
      → earliest test before rows ≡ some row
      → (k : Key) (other : Row) → find key k rows ≡ some other
      → test other ≡ true
      → before row other ≡ true
  earliest_before [] row chosen k other found passes = cc
  earliest_before (first ∷ rows) row chosen k other found passes =
      elim (Option-cases (earliest test before rows)) [
        | inl nothing ↦
            ground (arith, earliest-none key test before rows k other nothing, again first)
        | inr (next, e) ↦ ground (
          arith,
          e,
          earliest_before rows next e k other,
          again first,
          total first next,
          trans first next other,
          trans next first other,
        )
      ]
