-- ===== src/Governance/Hours.antt =====
-- governance/policy.py: working hours and the buckets of the wake budget.
pub mod Exact
pub mod Buckets
use digital_colleagues.Base.{
  ℕ, zero, suc, ◌+◌, ◌-◌, ◌*◌, ◌/◌, ◌%◌, ◌≤◌, ◌<◌, ◌≡◌, refl, sym, ap, ◌∙◌, ◌≢◌, ◌↔◌, ◌⊎◌, inl, inr,
  Bool, true, false, not, ◌&&◌, ◌||◌, Option, none, some, List, [], ◌∷◌, ◌++◌, map, String, arith,
  Eq, ◌==◌, nat_eq, string_eq, option_eq, list_eq, String-discrete, ℕ_discrete, ltb, leb,
  if◌then◌else◌, Bool-cases, Error, Result, ok, err, ◌>>=◌, ◌>>◌, require, core_invariant,
  namespace_mismatch, revision_mismatch, authorization, replay, lifecycle, >>=-ok_parts,
}
use digital_colleagues.Core.Common.{DateTime, require_utc}
use digital_colleagues.Core.Policy.{ColleaguePolicy, WakeBudgetPeriod, hour, day, week}
use digital_colleagues.Core.Policy.Windows.{WeeklyWindow, weekday_index}

-- A clock counts microseconds from midnight of 0001-01-01, which was a Monday.
abbrev pub minute_length : ℕ
minute_length = 60000000

abbrev pub hour_length : ℕ
hour_length = 3600000000

abbrev pub day_length : ℕ
day_length = 86400000000

-- `datetime.weekday()`, `.hour` and `.minute` of a wall clock
abbrev pub weekday : ℕ → ℕ
weekday clock = clock / day_length % 7

abbrev pub hour_of : ℕ → ℕ
hour_of clock = clock / hour_length % 24

abbrev pub minute_of : ℕ → ℕ
minute_of clock = clock / minute_length % 60

-- The loop of `within_working_hours`, for a weekday and a minute of the day.
unfoldable pub in_windows : ℕ → ℕ → List WeeklyWindow → Bool
in_windows d m [] = false
in_windows d m (window ∷ windows) =
    let start_day = weekday_index window.weekday in
    if ltb window.start_minute window.end_minute
    then (if d == start_day && (leb window.start_minute m && ltb m window.end_minute)
        then true
        else in_windows d m windows)
    else if d == start_day && leb window.start_minute m
    then true
    else if d == (start_day + 1) % 7 && ltb m window.end_minute
    then true
    else in_windows d m windows

-- `within_working_hours`. `local` is the wall clock that `astimezone(ZoneInfo(timezone))` shows.
unfoldable pub within_working_hours : (String → ℕ → ℕ) → ColleaguePolicy → DateTime → Result Bool
unfolding in_windows
within_working_hours local policy evaluated_at = do
  require_utc evaluated_at
  let clock = local policy.timezone evaluated_at.clock
  ok (in_windows (weekday clock) (hour_of clock * 60 + minute_of clock) policy.weekly_windows)

-- `budget_bucket_start`, as a clock in UTC
unfoldable pub budget_bucket_start : WakeBudgetPeriod → DateTime → Result ℕ
budget_bucket_start hour evaluated_at = do
  require_utc evaluated_at
  ok (evaluated_at.clock - evaluated_at.clock % hour_length)
budget_bucket_start day evaluated_at = do
  require_utc evaluated_at
  ok (evaluated_at.clock - evaluated_at.clock % day_length)
budget_bucket_start week evaluated_at = do
  require_utc evaluated_at
  let start = evaluated_at.clock - evaluated_at.clock % day_length
  ok (start - weekday start * day_length)
