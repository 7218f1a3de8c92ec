-- ===== src/Dates/Billing.antt =====
-- What one billing period is: addBillingInterval of
-- apps/api/src/subscriptions/billing-interval.util.ts.
use paywall.Prelude.{
  ℕ, suc, ◌+◌, ◌-◌, ◌*◌, ◌/◌, ◌%◌, ◌≤◌, ◌<◌, ◌≡◌, inl, inr, arith, ltb, if◌then◌else◌, Bool-cases,
  ltb→lt, ltb→le,
}
use paywall.Dates.Calendar.{
  ms_per_day, days_in_month, days_in_month_bounds, month_start, month_start_mono, civil, civil_lem,
  civil_unique, civil_overflow,
}
use paywall.Dates.{
  Date, add_days, add_months, BillingInterval, day, week, month, quarter, semiannual, year,
  lifetime, custom, add_billing_interval,
}

-- The day that a moment lies on, in months and days of the month.
abbrev pub civil_date : Date → ℕ × ℕ
civil_date t = civil (t / ms_per_day)

add_months_advances : (from k : ℕ) → 1 ≤ k → from < add_months from k
unfolding add_months
add_months_advances from k h =
    let c = civil_lem (from / ms_per_day) in
    omega (
      arith,
      c.0,
      month_start_mono (civil (from / ms_per_day)).0 ((civil (from / ms_per_day)).0 + k)
          (omega arith),
    )

-- A billing period of at least one unit ends strictly after it starts, for every interval.
pub add_billing_interval_advances :
    (from : Date) (interval : BillingInterval) (interval_count : ℕ)
    → 1 ≤ interval_count
    → from < add_billing_interval from interval interval_count
unfolding add_billing_interval add_days
add_billing_interval_advances from day n h = omega arith
add_billing_interval_advances from week n h = omega arith
add_billing_interval_advances from month n h = add_months_advances from n h
add_billing_interval_advances from quarter n h = add_months_advances from (3 * n) (omega arith)
add_billing_interval_advances from semiannual n h = add_months_advances from (6 * n) (omega arith)
add_billing_interval_advances from year n h = add_months_advances from (12 * n) (omega arith)
add_billing_interval_advances from lifetime n h = add_months_advances from (12 * 100) (omega arith)
add_billing_interval_advances from custom n h = omega arith

day_of_sum : (d t : ℕ) → (d * ms_per_day + t % ms_per_day) / ms_per_day ≡ d
day_of_sum d t = omega arith

-- A period of months keeps the time of day, and ends on the same day of the month if the month has
-- that day; if not, it ends in the month after, by as many days as were missing.
pub add_billing_interval_month :
    (from : Date) (n : ℕ)
    → let (m, d) = civil_date from in
      (civil_date (add_billing_interval from month n) ≡ (
        if ltb d (days_in_month (m + n))
        then (m + n, d)
        else (suc (m + n), d - days_in_month (m + n))))
      × (add_billing_interval from month n % ms_per_day ≡ from % ms_per_day)
unfolding add_billing_interval add_months
add_billing_interval_month from n =
    let m = (civil_date from).0 in
    let d = (civil_date from).1 in
    let c = civil_lem (from / ms_per_day) in
    (
      rw (day_of_sum (month_start (m + n) + d) from)
          (elim (Bool-cases (ltb d (days_in_month (m + n)))) [
            | inl e ↦ rw e (civil_unique (m + n) d (ltb→lt _ _ e))
            | inr e ↦ rw e (
                civil_overflow (m + n) d (ltb→le _ _ e)
                  (omega (arith, c.1, days_in_month_bounds m)))
          ]),
      omega arith,
    )
