-- ===== src/Store/Tables/Keyed.antt =====
-- What a lookup finds after a table has changed.
use digital_colleagues.Base.{
  ◌≡◌, refl, ◌≢◌, Bool, true, not, ◌&&◌, some, List, [], ◌∷◌, arith, ◌==◌, nat_eq, string_eq,
  option_eq, list_eq, if◌then◌else◌, ok,
}
use digital_colleagues.Store.Tables.{Key, key_eq, find, holds, insert, update}

module _ {Row : Type 0} (key : Row → Key) where
  -- The primary key: no row has the key of a row before it.
  abbrev pub distinct_keys : List Row → Bool
  distinct_keys [] = true
  distinct_keys (row ∷ rows) = not (holds key (key row) rows) && distinct_keys rows

  pub find-key : (k : Key) (rows : List Row) (row : Row) → find key k rows ≡ some row → key row ≡ k
  find-key k [] row found = cc
  find-key k (other ∷ rows) row found = ground (arith, find-key k rows row)

  pub find_held :
      (k : Key) (rows : List Row) (row : Row) → find key k rows ≡ some row → holds key k rows ≡ true
  find_held k [] row found = cc
  find_held k (other ∷ rows) row found = ground (arith, find_held k rows row)

  pub find-insert :
      (row : Row) (rows after : List Row)
      → insert key row rows ≡ ok after
      → (k : Key) → find key k after ≡ (if k == key row then some row else find key k rows)
  find-insert row rows after done k = ground arith

  pub find-insert_self :
      (row : Row) (rows after : List Row)
      → insert key row rows ≡ ok after
      → find key (key row) after ≡ some row
  find-insert_self row rows after done = ground (arith, find-insert row rows after done (key row))

  -- A row that was in the table is found after an insertion.
  pub find-insert_old :
      (row : Row) (rows after : List Row)
      → insert key row rows ≡ ok after
      → (k : Key) (old : Row) → find key k rows ≡ some old
      → find key k after ≡ some old
  find-insert_old row rows after done k old found =
      ground (arith, find_held k rows old found, find-insert row rows after done k)

  pub distinct_keys-insert :
      (row : Row) (rows after : List Row)
      → insert key row rows ≡ ok after
      → distinct_keys rows ≡ true
      → distinct_keys after ≡ true
  distinct_keys-insert row rows after done keyed = ground arith

module _ {Row : Type 0} (key : Row → Key) (k : Key) (test : Row → Bool) (change : Row → Row)
    (keeps : (row : Row) → k ≡ key row → key (change row) ≡ k) where
  -- The row that the statement touches is changed, the others are not.
  pub find-update :
      (rows : List Row) (row : Row)
      → find key k rows ≡ some row
      → test row ≡ true
      → find key k (update key k test change rows) ≡ some (change row)
  find-update [] row found passes = cc
  find-update (other ∷ rows) row found passes = ground (arith, keeps other, find-update rows row)

  pub find-update_ne :
      (rows : List Row) (other : Key)
      → other ≢ k
      → find key other (update key k test change rows) ≡ find key other rows
  find-update_ne [] other differ = refl
  find-update_ne (row ∷ rows) other differ =
      ground (arith, keeps row, find-update_ne rows other differ)

  pub holds-update :
      (rows : List Row) (other : Key)
      → holds key other (update key k test change rows) ≡ holds key other rows
  holds-update [] other = refl
  holds-update (row ∷ rows) other = ground (arith, keeps row, holds-update rows other)

  pub distinct_keys-update :
      (rows : List Row)
      → distinct_keys key rows ≡ true
      → distinct_keys key (update key k test change rows) ≡ true
  distinct_keys-update [] keyed = keyed
  distinct_keys-update (row ∷ rows) keyed = ground (
    arith,
    keeps row,
    distinct_keys-update rows,
    holds-update rows (key row),
    holds-update rows k,
  )
