-- ===== src/Dates/Calendar.antt =====
-- The calendar behind JavaScript's Date, in UTC: a moment is a number of milliseconds since
-- 1970-01-01, a day the number of days since then, and a month the number of months since
-- January 1970. Days of a month count from 0.
use paywall.Prelude.{
  ℕ, zero, suc, ◌+◌, ◌-◌, ◌*◌, ◌/◌, ◌%◌, ◌≤◌, ◌<◌, ◌≡◌, refl, ◌⊎◌, inl, inr, Bool, not, ◌&&◌, ◌||◌,
  arith, ltb, ◌==◌, if◌then◌else◌, Bool-cases, ltb→lt, ltb→le, ap,
}

abbrev pub ms_per_day : ℕ
ms_per_day = 86400000

is_leap : ℕ → Bool
is_leap year = (year % 4 == 0 && not (year % 100 == 0)) || year % 400 == 0

-- The days of month `m`; `m % 12` is its number within the year, `1970 + m / 12` the year.
pub days_in_month : ℕ → ℕ
unfolding is_leap
days_in_month m =
    if m % 12 == 1
    then (if is_leap (1970 + m / 12) then 29 else 28)
    else if m % 12 == 3 || m % 12 == 5 || m % 12 == 8 || m % 12 == 10
    then 30
    else 31

pub days_in_month_bounds : (m : ℕ) → (28 ≤ days_in_month m) × (days_in_month m ≤ 31)
unfolding days_in_month
days_in_month_bounds m = ground arith

-- The day on which month `m` begins.
unfoldable pub month_start : ℕ → ℕ
unfolding days_in_month
month_start zero = 0
month_start (suc m) = month_start m + days_in_month m

-- The month `m` counted on from, and the days left from its first day on.
split : ℕ → ℕ → ℕ → ℕ × ℕ
split zero m d = (m, d)
split (suc fuel) m d =
    let rest = split fuel (suc m) (d - days_in_month m) in
    if ltb d (days_in_month m) then (m, d) else rest

-- The month and the day of the month of a day.
unfoldable pub civil : ℕ → ℕ × ℕ
unfolding split days_in_month
civil day = split day 0 day

split_lem :
    (fuel m d : ℕ)
    → d ≤ fuel
    → (month_start (split fuel m d).0 + (split fuel m d).1 ≡ month_start m + d)
      × ((split fuel m d).1 < days_in_month (split fuel m d).0)
unfolding split month_start
split_lem zero m d h = (refl, omega (arith, days_in_month_bounds m))
split_lem (suc fuel) m d h = elim (Bool-cases (ltb d (days_in_month m))) [
  | inl e ↦ rw e (refl, ltb→lt _ _ e)
  | inr e ↦ rw e (
      let ih =
        split_lem fuel (suc m) (d - days_in_month m) (omega (arith, days_in_month_bounds m)) in
      let g = ltb→le _ _ e in (omega arith, ih.1))
]

-- A day is the first of its month and its day of the month together.
pub civil_lem :
    (day : ℕ)
    → (month_start (civil day).0 + (civil day).1 ≡ day)
      × ((civil day).1 < days_in_month (civil day).0)
unfolding civil month_start
civil_lem day = let h = split_lem day 0 day (omega arith) in (omega (arith, h.0), h.1)

pub month_start_mono : (m n : ℕ) → m ≤ n → month_start m + 28 * (n - m) ≤ month_start n
unfolding month_start
month_start_mono m zero h = ground arith
month_start_mono m (suc n) h = elim (lt_or_eq m n h) [
  | inl e ↦ rw e (omega arith)
  | inr p ↦ omega (arith, month_start_mono m n p, days_in_month_bounds n)
]
  where
    lt_or_eq : (a b : ℕ) → a ≤ suc b → (a ≡ suc b) ⊎ (a ≤ b)
    lt_or_eq a b q = grind arith

-- A later month begins after the last day of an earlier one.
month_end-le : (a b : ℕ) → a < b → month_start a + days_in_month a ≤ month_start b
unfolding month_start
month_end-le a b h = omega (arith, month_start_mono (suc a) b h)

month_unique :
    (a b x y : ℕ)
    → month_start a + x ≡ month_start b + y
    → x < days_in_month a
    → y < days_in_month b
    → (a ≡ b) × (x ≡ y)
month_unique a b x y e hx hy = elim (compare_cases a b) [
  | inl lt ↦ absurd (omega (arith, month_end-le a b lt))
  | inr (inl gt) ↦ absurd (omega (arith, month_end-le b a gt))
  | inr (inr eq) ↦ (eq, same eq)
]
  where
    compare_cases : (m n : ℕ) → (m < n) ⊎ ((n < m) ⊎ (m ≡ n))
    compare_cases m n = grind arith

    same : a ≡ b → x ≡ y
    same q = let e' = ap month_start q in omega (arith, e')

-- A day of a month is found again.
pub civil_unique : (m d : ℕ) → d < days_in_month m → civil (month_start m + d) ≡ (m, d)
civil_unique m d h =
    let c = civil_lem (month_start m + d) in
    let u =
      month_unique (civil (month_start m + d)).0 m (civil (month_start m + d)).1 d c.0 c.1 h in
    λ i. (u.0 i, u.1 i)

-- A day number past the end of a month falls into the next one.
pub civil_overflow :
    (m d : ℕ)
    → days_in_month m ≤ d
    → d < 31
    → civil (month_start m + d) ≡ (suc m, d - days_in_month m)
unfolding month_start
civil_overflow m d h h' =
    let e : month_start m + d ≡ month_start (suc m) + (d - days_in_month m) = omega arith in
    rw e (
      civil_unique (suc m) (d - days_in_month m)
        (omega (arith, days_in_month_bounds m, days_in_month_bounds (suc m))))
