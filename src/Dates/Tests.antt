-- ===== src/Dates/Tests.antt =====
-- The theorems on dates, applied to a period from 31 January 1970, 06:00.
use paywall.Prelude.{◌-◌, ◌%◌, ◌<◌, ◌≡◌, arith, ltb, if◌then◌else◌}
use paywall.Dates.Calendar.{ms_per_day, days_in_month, civil}
use paywall.Dates.{Date, month, add_billing_interval}
use paywall.Dates.Billing.{civil_date, add_billing_interval_advances, add_billing_interval_month}

abbrev january_31 : Date
january_31 = 2613600000

add_billing_interval_advances_example : january_31 < add_billing_interval january_31 month 1
add_billing_interval_advances_example =
    add_billing_interval_advances january_31 month 1 (omega arith)

add_billing_interval_month_example :
    (civil_date (add_billing_interval january_31 month 1)
      ≡ (if ltb 30 (days_in_month 1) then (1, 30) else (2, 30 - days_in_month 1)))
    × (add_billing_interval january_31 month 1 % ms_per_day ≡ january_31 % ms_per_day)
unfolding civil
add_billing_interval_month_example = add_billing_interval_month january_31 1
