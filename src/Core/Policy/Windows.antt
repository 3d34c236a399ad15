-- ===== src/Core/Policy/Windows.antt =====
-- core/policy.py: weekly windows of local wall-clock time, and the test that they do not overlap.
pub mod Cover
pub mod Disjoint
use digital_colleagues.Base.{
  ℕ, zero, suc, ◌+◌, ◌-◌, ◌*◌, ◌/◌, ◌%◌, ◌≤◌, ◌<◌, ◌≡◌, refl, sym, ap, ◌∙◌, ◌≢◌, ◌↔◌, ◌⊎◌, inl, inr,
  Bool, true, false, not, ◌&&◌, ◌||◌, Option, none, some, List, [], ◌∷◌, ◌++◌, map, String, arith,
  Eq, ◌==◌, nat_eq, string_eq, option_eq, list_eq, String-discrete, ℕ_discrete, ltb, leb,
  if◌then◌else◌, Bool-cases, Error, Result, ok, err, ◌>>=◌, ◌>>◌, require, core_invariant,
  namespace_mismatch, revision_mismatch, authorization, replay, lifecycle, >>=-ok_parts,
}
use digital_colleagues.Base.Lists.{any, all}
use digital_colleagues.Base.Sorting.{sort}

pub data Weekday : Type 0 where
  monday tuesday wednesday thursday friday saturday sunday : Weekday

-- `WEEKDAY_INDEX`
abbrev pub weekday_index : Weekday → ℕ
weekday_index monday = 0
weekday_index tuesday = 1
weekday_index wednesday = 2
weekday_index thursday = 3
weekday_index friday = 4
weekday_index saturday = 5
weekday_index sunday = 6

pub record WeeklyWindow : Type 0 where
  pub weekday : Weekday
  pub start_minute : ℕ
  pub end_minute : ℕ

-- `WeeklyWindow.__post_init__`
unfoldable pub construct_window : WeeklyWindow → Result WeeklyWindow
construct_window self = do
  require (ltb self.start_minute 1440) core_invariant
  require (leb self.end_minute 1440) core_invariant
  require (not (self.start_minute == self.end_minute)) core_invariant
  require (not (self.end_minute == 0)) core_invariant
  ok self

-- The tuples of `_expanded_intervals`: a day, and the minutes from the first up to the second.
pub record Interval : Type 0 where
  pub day : ℕ
  pub from : ℕ
  pub until : ℕ

-- `_expanded_intervals`
unfoldable pub expanded_intervals : WeeklyWindow → List Interval
expanded_intervals window =
    let index = weekday_index window.weekday in
    if ltb window.start_minute window.end_minute
    then record { day = index; from = window.start_minute; until = window.end_minute } ∷ []
    else record { day = index; from = window.start_minute; until = 1440 }
      ∷ record { day = (index + 1) % 7; from = 0; until = window.end_minute }
      ∷ []

unfoldable pub all_intervals : List WeeklyWindow → List Interval
unfolding expanded_intervals
all_intervals [] = []
all_intervals (window ∷ windows) = expanded_intervals window ++ all_intervals windows

-- The order of Python's tuples.
abbrev pub interval_leb : Interval → Interval → Bool
interval_leb a b =
    ltb a.day b.day
    || a.day == b.day && (ltb a.from b.from || a.from == b.from && leb a.until b.until)

abbrev pub clash : Interval → Interval → Bool
clash previous current = previous.day == current.day && ltb current.from previous.until

-- The loop over neighbours in `_validate_windows`.
unfoldable pub check_neighbours : List Interval → Result (Unit {0})
check_neighbours [] = ok tt
check_neighbours (previous ∷ []) = ok tt
check_neighbours (previous ∷ current ∷ rest) = do
  require (not (clash previous current)) core_invariant
  check_neighbours (current ∷ rest)

-- `_validate_windows`
unfoldable pub validate_windows : List WeeklyWindow → Result (Unit {0})
unfolding all_intervals check_neighbours
validate_windows [] = err core_invariant
validate_windows (window ∷ windows) =
    check_neighbours (sort interval_leb (all_intervals (window ∷ windows)))
