-- ===== src/Governance/Hours/Buckets.antt =====
-- The bucket of a wake budget holds the time that it is computed for.
use digital_colleagues.Base.{
  ℕ, ◌+◌, ◌-◌, ◌*◌, ◌%◌, ◌≤◌, ◌<◌, ◌≡◌, arith, nat_eq, string_eq, option_eq, list_eq, ok,
}
use digital_colleagues.Core.Common.{DateTime, zero_offset}
use digital_colleagues.Core.Policy.{WakeBudgetPeriod, hour, day, week}
use digital_colleagues.Governance.Hours.{budget_bucket_start, hour_length, day_length}

abbrev pub period_length : WakeBudgetPeriod → ℕ
period_length hour = hour_length
period_length day = day_length
period_length week = 7 * day_length

-- The bucket starts at the last multiple of the period, counted from a Monday, so it holds the
-- time, and it is the bucket of its own start.
pub budget_bucket_start_exact :
    (period : WakeBudgetPeriod) (at : DateTime) {start : ℕ}
    → budget_bucket_start period at ≡ ok start
    → (start ≡ at.clock - at.clock % period_length period)
      × (start ≤ at.clock)
      × (at.clock < start + period_length period)
      × (budget_bucket_start period (record { clock = start; offset = zero_offset }) ≡ ok start)
unfolding budget_bucket_start
budget_bucket_start_exact hour at h = (ground arith, ground arith, ground arith, ground arith)
budget_bucket_start_exact day at h = (ground arith, ground arith, ground arith, ground arith)
budget_bucket_start_exact week at h = (ground arith, ground arith, ground arith, ground arith)
