-- ===== src/Tests/Policy.antt =====
-- Weekly windows, working hours and wake budgets at concrete inputs.
use digital_colleagues.Base.{
  ◌+◌, ◌-◌, ◌*◌, ◌%◌, ◌≤◌, ◌<◌, ◌≡◌, refl, ◌≢◌, ◌↔◌, true, List, [], ◌∷◌, nat_eq, string_eq,
  option_eq, list_eq, ltb, ok,
}
use digital_colleagues.Base.Sorting.{sort}
use digital_colleagues.Core.Policy.{
  ColleaguePolicy, event, bounded, enabled, never, day, week, defer, active,
}
use digital_colleagues.Core.Policy.Windows.{
  WeeklyWindow, monday, sunday, construct_window, validate_windows, all_intervals,
}
use digital_colleagues.Core.Policy.Windows.Cover.{cover}
use digital_colleagues.Core.Policy.Windows.Disjoint.{
  AllConstructed, IsDisjoint, validate_windows_exact,
}
use digital_colleagues.Governance.Hours.{
  within_working_hours, budget_bucket_start, weekday, hour_of, minute_of, day_length,
}
use digital_colleagues.Governance.Hours.Exact.{within_working_hours_exact}
use digital_colleagues.Governance.Hours.Buckets.{period_length, budget_bucket_start_exact}
use digital_colleagues.Tests.Samples.{running, at, office, boss}

-- Monday from 9 to 17, and Sunday night from 22 to 6.
abbrev shifts : List WeeklyWindow
shifts =
    record { weekday = monday; start_minute = 540; end_minute = 1020 }
    ∷ record { weekday = sunday; start_minute = 1320; end_minute = 360 }
    ∷ []

abbrev pub policy : ColleaguePolicy
policy = record {
  namespace = office;
  policy_id = "policy";
  mandate_id = "mandate";
  mandate_revision = 1;
  timezone = "UTC";
  weekly_windows = shifts;
  allowed_triggers = event ∷ [];
  proactivity = bounded;
  notification = enabled;
  interruption = never;
  wake_budget = record { limit = 4; period = day };
  outside_hours = defer;
  stop_conditions = [];
  escalation_conditions = [];
  failure_limit = 3;
  run_state = active;
  revision = 1;
  issued_by = boss;
  effective_at = at 0;
  schema_version = 1;
}

shifts_constructed : AllConstructed shifts
unfolding construct_window running
shifts_constructed = (refl, (refl, tt))

validate_windows_exact_example :
    (validate_windows shifts ≡ ok tt) ↔ ((shifts ≢ []) × IsDisjoint shifts)
validate_windows_exact_example = validate_windows_exact shifts shifts_constructed

validate-shifts : validate_windows shifts ≡ ok tt
unfolding validate_windows sort running
validate-shifts = refl

-- Five minutes past midnight on the first Monday, in the night shift of Sunday.
within-shifts : within_working_hours (λ zone clock. clock) policy (at 300000000) ≡ ok true
unfolding within_working_hours running
within-shifts = refl

within_working_hours_exact_example :
    within_working_hours (λ zone clock. clock) policy (at 300000000)
    ≡ ok (
        ltb 0 (
          cover
            (weekday 300000000)
            (hour_of 300000000 * 60 + minute_of 300000000)
            (all_intervals shifts)))
within_working_hours_exact_example =
    within_working_hours_exact (λ zone clock. clock) policy (at 300000000) refl

bucket-week : budget_bucket_start week (at (day_length * 8 + 5)) ≡ ok (day_length * 7)
unfolding budget_bucket_start running
bucket-week = refl

budget_bucket_start_exact_example :
    (day_length * 7 ≡ (day_length * 8 + 5) - (day_length * 8 + 5) % period_length week)
    × (day_length * 7 ≤ day_length * 8 + 5)
    × (day_length * 8 + 5 < day_length * 7 + period_length week)
    × (budget_bucket_start week (at (day_length * 7)) ≡ ok (day_length * 7))
budget_bucket_start_exact_example =
    budget_bucket_start_exact week (at (day_length * 8 + 5)) bucket-week
