-- ===== src/Core/Authority/Diff/Exact.antt =====
-- What the diff of two lists of records holds.
use digital_colleagues.Base.{
  ◌≡◌, refl, Bool, not, ◌&&◌, List, [], ◌∷◌, map, String, arith, nat_eq, string_eq, option_eq,
  list_eq,
}
use digital_colleagues.Base.Lists.{elem}
use digital_colleagues.Base.Sorting.{elem-sort}
use digital_colleagues.Core.Authority.Diff.{
  Categories, keep, distinct, record_at, differ, record_diff,
}

pub elem-keep :
    (p : String → Bool) (id : String) (xs : List String)
    → elem id (keep p xs) ≡ (p id && elem id xs)
elem-keep p id [] = ground arith
elem-keep p id (x ∷ xs) = ground (arith, elem-keep p id xs)

pub elem-distinct : (id : String) (xs : List String) → elem id (distinct xs) ≡ elem id xs
elem-distinct id [] = refl
elem-distinct id (x ∷ xs) = ground (arith, elem-distinct id xs)

-- The members of the three categories.
pub record IsDiff {A : Type 0} (identifier : A → String) (same : A → A → Bool)
    (before after : List A) (diff : Categories) : Type 0 where
  pub added :
      (id : String)
      → elem id diff.added
        ≡ (not (elem id (map identifier before)) && elem id (map identifier after))
  pub removed :
      (id : String)
      → elem id diff.removed
        ≡ (not (elem id (map identifier after)) && elem id (map identifier before))
  pub changed :
      (id : String)
      → elem id diff.changed ≡ (
          (elem id (map identifier after)
            && differ identifier same
                (record_at identifier same id before)
                (record_at identifier same id after))
          && elem id (map identifier before))

module _ {A : Type 0} (identifier : A → String) (same : A → A → Bool) where
  pub record_diff-IsDiff :
      (before after : List A)
      → IsDiff identifier same before after (record_diff identifier same before after)
  unfolding record_diff
  record_diff-IsDiff before after = record {
    added = λ id. rw (elem-sort, elem-keep, elem-distinct, elem-distinct);
    removed = λ id. rw (elem-sort, elem-keep, elem-distinct, elem-distinct);
    changed = λ id. rw (elem-sort, elem-keep, elem-distinct, elem-distinct);
  }
