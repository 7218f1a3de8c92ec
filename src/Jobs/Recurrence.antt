-- ===== src/Jobs/Recurrence.antt =====
-- Recurring schedules: apps/api/src/background-jobs/schedule.util.ts. A schedule is what the regular
-- expressions of computeNextRun match; the texts themselves are not modelled.
use paywall.Prelude.{
  ℕ, zero, suc, ◌+◌, ◌-◌, ◌*◌, ◌/◌, ◌%◌, ◌≤◌, ◌<◌, ◌≡◌, refl, sym, inl, inr, false, Option, none,
  some, ◌==◌, ==_iff, leb, min, if◌then◌else◌, arith, Bool-cases, some_eq,
}
use paywall.Dates.{Date}
use paywall.Dates.Calendar.{ms_per_day, month_start, civil, civil_lem}

pub data TimeUnit : Type 0 where
  second minute hour whole_day : TimeUnit

abbrev unit_ms : TimeUnit → ℕ
unit_ms second = 1000
unit_ms minute = 60000
unit_ms hour = 3600000
unit_ms whole_day = 86400000

pub data Schedule : Type 0 where
  every : ℕ → TimeUnit → Schedule
  daily : ℕ → ℕ → Schedule
  weekly : ℕ → ℕ → ℕ → Schedule
  monthly : ℕ → ℕ → ℕ → Schedule
  unrecognized : Schedule

-- `getUTCDay()`: 1970-01-01 was a Thursday.
abbrev pub weekday : Date → ℕ
weekday t = (t / ms_per_day + 4) % 7

abbrev at_time : ℕ → ℕ → ℕ → Date
at_time day h m = day * ms_per_day + h * 3600000 + m * 60000

unfoldable pub next_at_time_of_day : Date → ℕ → ℕ → Date
next_at_time_of_day from h m =
    let next = at_time (from / ms_per_day) h m in if leb next from then next + ms_per_day else next

-- The loop to the weekday, on fuel: `none` where it runs out.
unfoldable pub seek_weekday : ℕ → ℕ → Date → Option Date
seek_weekday zero target next = none
seek_weekday (suc fuel) target next =
    let rest = seek_weekday fuel target (next + ms_per_day) in
    if weekday next == target then some next else rest

-- Day `d` of the month, which `Date.UTC` takes as counted from 1, at a time.
abbrev in_month : ℕ → ℕ → ℕ → ℕ → Date
in_month month d h m = at_time (month_start month + d - 1) h m

abbrev from_month : ℕ → Date → ℕ → ℕ → ℕ → Date
from_month month from target h m =
    if leb (in_month month target h m) from
    then in_month (suc month) target h m
    else in_month month target h m

unfoldable pub next_in_month : Date → ℕ → ℕ → ℕ → Date
unfolding month_start civil
next_in_month from d h m = from_month (civil (from / ms_per_day)).0 from (min d 28) h m

-- `none` is the throw on a text that nothing matches, and also the loop that never meets a weekday
-- over 6: seven rounds are enough for the others.
unfoldable pub compute_next_run : Schedule → Date → Option Date
unfolding next_at_time_of_day seek_weekday next_in_month
compute_next_run (every amount unit) from = some (from + amount * unit_ms unit)
compute_next_run (daily h m) from = some (next_at_time_of_day from h m)
compute_next_run (weekly d h m) from = seek_weekday 7 d (next_at_time_of_day from h m)
compute_next_run (monthly d h m) from = some (next_in_month from d h m)
compute_next_run unrecognized from = none

next_at_time_of_day_later : (from : Date) (h m : ℕ) → from < next_at_time_of_day from h m
unfolding next_at_time_of_day
next_at_time_of_day_later from h m = ground arith

next_at_time_of_day_soon :
    (from : Date) (h m : ℕ) → h ≤ 23 → m ≤ 59 → next_at_time_of_day from h m ≤ from + ms_per_day
unfolding next_at_time_of_day
next_at_time_of_day_soon from h m hh mm = ground arith

seek_weekday_lem :
    (fuel target : ℕ) (next t : Date)
    → seek_weekday fuel target next ≡ some t
    → (weekday t ≡ target) × (next ≤ t) × (t < next + fuel * ms_per_day)
unfolding seek_weekday
seek_weekday_lem zero target next t h = cc
seek_weekday_lem (suc fuel) target next t h = elim (Bool-cases (weekday next == target)) [
  | inl e ↦
      let same : next ≡ t = some_eq (rw (e, seek_weekday) at h) in
      (rw (sym same) ((==_iff (weekday next) target).0 e), omega arith, omega arith)
  | inr e ↦
      let ih = seek_weekday_lem fuel target (next + ms_per_day) t (rw (e, seek_weekday) at h) in
      (ih.0, omega (arith, ih.1), omega (arith, ih.2))
]

from_month_later :
    (month : ℕ) (from : Date) (target h m : ℕ)
    → 1 ≤ target
    → from / ms_per_day < month_start (suc month)
    → from < from_month month from target h m
from_month_later month from target h m p before =
    let later : from < in_month (suc month) target h m = omega arith in ground arith

day_in_month : (day : ℕ) → day < month_start (suc (civil day).0)
unfolding month_start
day_in_month day = let c = civil_lem day in omega (arith, c.0, c.1)

next_in_month_later : (from : Date) (d h m : ℕ) → 1 ≤ d → from < next_in_month from d h m
unfolding next_in_month
next_in_month_later from d h m p =
    from_month_later (civil (from / ms_per_day)).0 from (min d 28) h m (omega arith)
      (day_in_month (from / ms_per_day))

-- The weekday is met within a week, and not at all if it is over 6.
seek_weekday_within :
    (fuel target : ℕ) (next : Date)
    → target < 7
    → (target + 7 - weekday next) % 7 < fuel
    → (t : Date) × (seek_weekday fuel target next ≡ some t)
unfolding seek_weekday
seek_weekday_within zero target next h near = absurd (omega arith)
seek_weekday_within (suc fuel) target next h near = elim (Bool-cases (weekday next == target)) [
  | inl e ↦ (next, rw e refl)
  | inr e ↦
      let apart : (weekday next == target) ≡ false = e in
      let (t, found) = seek_weekday_within fuel target (next + ms_per_day) h (
        closer (weekday next) (weekday (next + ms_per_day)) target fuel h (omega arith)
          (omega arith) (ground arith) near) in
      (t, rw e found)
]
  where
    closer :
        (w v target fuel : ℕ)
        → target < 7
        → w < 7
        → v ≡ (w + 1) % 7
        → (w == target) ≡ false
        → (target + 7 - w) % 7 < suc fuel
        → (target + 7 - v) % 7 < fuel
    closer w v target fuel h k e ne near = ground arith

-- The weekday loop meets no weekday of 7 or more, however many rounds it is given.
pub seek_weekday_never :
    (fuel target : ℕ) (next : Date) → 7 ≤ target → seek_weekday fuel target next ≡ none
unfolding seek_weekday
seek_weekday_never zero target next h = refl
seek_weekday_never (suc fuel) target next h =
    ground (arith, seek_weekday_never fuel target (next + ms_per_day) h)

-- The schedules that the comment of computeNextRun admits.
abbrev pub IsRegular : Schedule → Type 0
IsRegular (every amount unit) = 1 ≤ amount
IsRegular (daily h m) = Unit {0}
IsRegular (weekly d h m) = d ≤ 6
IsRegular (monthly d h m) = 1 ≤ d
IsRegular unrecognized = ⊥

-- For every schedule that the comment of computeNextRun admits (an interval of at least one unit, a
-- weekday of at most 6, a day of the month of at least 1) the next run is computed, within seven
-- rounds of the weekday loop, and lies after the moment it is computed from.
pub compute_next_run_later :
    (s : Schedule) (from : Date)
    → IsRegular s
    → (t : Date) × (compute_next_run s from ≡ some t) × (from < t)
unfolding compute_next_run
compute_next_run_later (every amount second) from h = (_, refl, omega arith)
compute_next_run_later (every amount minute) from h = (_, refl, omega arith)
compute_next_run_later (every amount hour) from h = (_, refl, omega arith)
compute_next_run_later (every amount whole_day) from h = (_, refl, omega arith)
compute_next_run_later (daily h m) from r = (_, refl, next_at_time_of_day_later from h m)
compute_next_run_later (weekly d h m) from r =
    let (t, found) =
      seek_weekday_within 7 d (next_at_time_of_day from h m) (omega arith) (omega arith) in
    let (day, after, week) = seek_weekday_lem 7 d (next_at_time_of_day from h m) t found in
    (t, found, omega (arith, next_at_time_of_day_later from h m))
compute_next_run_later (monthly d h m) from r = (_, refl, next_in_month_later from d h m r)
compute_next_run_later unrecognized from r = absurd r

-- A weekly schedule with a weekday of at most 6 and a time of the day gives a moment on that
-- weekday, after the given one and less than eight days after it.
pub compute_next_run_weekly :
    (d h m : ℕ) (from : Date)
    → d ≤ 6
    → h ≤ 23
    → m ≤ 59
    → (t : Date) × (compute_next_run (weekly d h m) from ≡ some t)
      × (weekday t ≡ d)
      × (from < t)
      × (t < from + 8 * ms_per_day)
unfolding compute_next_run
compute_next_run_weekly d h m from dd hh mm =
    let (t, found) =
      seek_weekday_within 7 d (next_at_time_of_day from h m) (omega arith) (omega arith) in
    let (day, after, week) = seek_weekday_lem 7 d (next_at_time_of_day from h m) t found in
    (
      t,
      found,
      day,
      omega (arith, next_at_time_of_day_later from h m),
      omega (arith, next_at_time_of_day_soon from h m hh mm, week),
    )
