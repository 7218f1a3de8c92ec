-- ===== src/Dates.antt =====
-- JavaScript's Date as the services use it (in UTC), and
-- apps/api/src/subscriptions/billing-interval.util.ts.
pub mod Calendar
pub mod Billing
mod Tests
use paywall.Prelude.{ℕ, suc, ◌+◌, ◌*◌, ◌/◌, ◌%◌}
use Calendar.{ms_per_day, month_start, civil}

-- A Date, as `getTime()` shows it.
abbrev pub Date : Type 0
Date = ℕ

-- `result.setDate(result.getDate() + days)`
unfoldable pub add_days : Date → ℕ → Date
add_days from days = from + days * ms_per_day

-- `result.setMonth(result.getMonth() + months)`: the day of the month and the time of day stay,
-- and a day that the month does not have counts on into the next.
unfoldable pub add_months : Date → ℕ → Date
unfolding month_start civil
add_months from months =
    let (m, d) = civil (from / ms_per_day) in
    (month_start (m + months) + d) * ms_per_day + from % ms_per_day

-- `result.setFullYear(result.getFullYear() + years)`
abbrev pub add_years : Date → ℕ → Date
add_years from years = add_months from (12 * years)

pub data BillingInterval : Type 0 where
  day week month quarter semiannual year lifetime custom : BillingInterval

unfoldable pub add_billing_interval : Date → BillingInterval → ℕ → Date
unfolding add_days add_months
add_billing_interval from day interval_count = add_days from interval_count
add_billing_interval from week interval_count = add_days from (7 * interval_count)
add_billing_interval from month interval_count = add_months from interval_count
add_billing_interval from quarter interval_count = add_months from (3 * interval_count)
add_billing_interval from semiannual interval_count = add_months from (6 * interval_count)
add_billing_interval from year interval_count = add_years from interval_count
add_billing_interval from lifetime interval_count = add_years from 100
add_billing_interval from custom interval_count = add_days from interval_count
