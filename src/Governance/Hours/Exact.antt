-- ===== src/Governance/Hours/Exact.antt =====
-- Working hours are the minutes that the expanded windows cover.
use digital_colleagues.Base.{
  ℕ, ◌+◌, ◌*◌, ◌<◌, ◌≡◌, refl, true, List, [], ◌∷◌, String, arith, nat_eq, string_eq, option_eq,
  list_eq, ltb, ok,
}
use digital_colleagues.Core.Common.{DateTime, is_utc}
use digital_colleagues.Core.Policy.{ColleaguePolicy}
use digital_colleagues.Core.Policy.Windows.{WeeklyWindow, expanded_intervals, all_intervals}
use digital_colleagues.Core.Policy.Windows.Cover.{cover}
use digital_colleagues.Governance.Hours.{
  in_windows, within_working_hours, weekday, hour_of, minute_of,
}

in_windows-cover :
    (d m : ℕ) (windows : List WeeklyWindow)
    → m < 1440
    → in_windows d m windows ≡ ltb 0 (cover d m (all_intervals windows))
unfolding in_windows cover all_intervals expanded_intervals
in_windows-cover d m [] h = refl
in_windows-cover d m (window ∷ windows) h = ground (arith, in_windows-cover d m windows h)

minute_in_day : (clock : ℕ) → hour_of clock * 60 + minute_of clock < 1440
minute_in_day clock = omega arith

-- At a time in UTC, `within_working_hours` tells whether an expanded window of the policy covers
-- the local weekday and minute.
pub within_working_hours_exact :
    (local : String → ℕ → ℕ) (policy : ColleaguePolicy) (at : DateTime)
    → is_utc at.offset ≡ true
    → let clock = local policy.timezone at.clock in
      within_working_hours local policy at
      ≡ ok (
          ltb 0 (
            cover
              (weekday clock)
              (hour_of clock * 60 + minute_of clock)
              (all_intervals policy.weekly_windows)))
unfolding within_working_hours
within_working_hours_exact local policy at utc =
    let clock = local policy.timezone at.clock in
    rw (
      utc,
      in_windows-cover (weekday clock) (hour_of clock * 60 + minute_of clock) policy.weekly_windows
          (minute_in_day clock),
    )
