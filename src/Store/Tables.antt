-- ===== src/Store/Tables.antt =====
-- adapters/sqlite/store.py: a table of the database, as the list of its rows. Every statement of
-- the store names the rows it touches by the primary key, a namespace and an identifier.
pub mod Keyed
pub mod Earliest
use digital_colleagues.Base.{
  ℕ, zero, suc, ◌+◌, ◌-◌, ◌*◌, ◌/◌, ◌%◌, ◌≤◌, ◌<◌, ◌≡◌, refl, sym, ap, ◌∙◌, ◌≢◌, ◌↔◌, ◌⊎◌, inl, inr,
  Bool, true, false, not, ◌&&◌, ◌||◌, Option, none, some, List, [], ◌∷◌, ◌++◌, map, String, arith,
  Eq, ◌==◌, nat_eq, string_eq, option_eq, list_eq, List-discrete, Option-discrete, String-discrete,
  ℕ_discrete, ltb, leb, if◌then◌else◌, Bool-cases, Error, Result, ok, err, ◌>>=◌, ◌>>◌, require,
  core_invariant, namespace_mismatch, revision_mismatch, authorization, replay, lifecycle,
  not_found, conflict, permission_denied, persistence, >>=-ok_parts,
}
use digital_colleagues.Core.Namespace.{Namespace, Namespace-discrete}

pub record Key : Type 0 where
  pub namespace : Namespace
  pub id : String

unfoldable pub Key-discrete : Discrete Key
Key-discrete = hlevel (String-discrete, Namespace-discrete)

instance abbrev pub key_eq : Eq Key
key_eq = record { decide_eq = Key-discrete }

module _ {Row : Type 0} (key : Row → Key) where
  -- `SELECT * ... WHERE` the key is `k`
  abbrev pub find : Key → List Row → Option Row
  find k [] = none
  find k (row ∷ rows) = if k == key row then some row else find k rows

  -- Whether `k` is a key of the table.
  abbrev pub holds : Key → List Row → Bool
  holds k [] = false
  holds k (row ∷ rows) = k == key row || holds k rows

  -- `INSERT`: a key that the table has is an `IntegrityError`, which the store raises as a conflict.
  abbrev pub insert : Row → List Row → Result (List Row)
  insert row rows = require (not (holds (key row) rows)) conflict >> ok (row ∷ rows)

  -- `UPDATE ... WHERE` the key is `k` and `test` holds
  abbrev pub update : Key → (Row → Bool) → (Row → Row) → List Row → List Row
  update k test change [] = []
  update k test change (row ∷ rows) =
      if k == key row
      then (if test row then change row else row) ∷ rows
      else row ∷ update k test change rows

  -- `cursor.rowcount == 1`
  abbrev pub touched : Key → (Row → Bool) → List Row → Bool
  touched k test rows = elim (find k rows) [ none ↦ false | some row ↦ test row ]
