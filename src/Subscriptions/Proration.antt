-- ===== src/Subscriptions/Proration.antt =====
-- Day-based proration, apps/api/src/subscriptions/proration.util.ts. `scale` is the one step that
-- is done in doubles, `Math.round(amount * (remainingDays / totalDays))`: it is a parameter, with
-- the laws of IEEE arithmetic that the code relies on. Everything else is exact in a double at
-- amounts below 2^53.
use Prim.Native.Nat.{min, max}
use paywall.Prelude.{ℕ, ◌+◌, ◌-◌, ◌*◌, ◌/◌, ◌≤◌, ◌<◌, ◌≡◌, ◌∙◌, ap, ◌⊎◌, inl, inr, arith, lt_or_le}
use paywall.Prelude.Int.{ℤ, pos_part, neg_part, sub_ℕ, sub_ℕ_parts, sub_ℕ_nonneg, sub_ℕ_nonpos}
use paywall.Dates.{Date}
use paywall.Dates.Calendar.{ms_per_day}

pub record ProrationInput : Type 0 where
  pub period_start : Date
  pub period_end : Date
  pub now : Date
  pub old_amount_minor : ℕ
  pub new_amount_minor : ℕ

pub record ProrationResult : Type 0 where
  pub credit_minor : ℕ
  pub charge_minor : ℕ
  pub net_minor : ℤ
  pub remaining_days : ℕ
  pub total_days : ℕ

-- `Math.round(ms / MS_PER_DAY)`: to the nearest day, a half upwards.
abbrev round_days : ℕ → ℕ
round_days ms = (2 * ms + ms_per_day) / (2 * ms_per_day)

-- `amount ↦ remaining ↦ total ↦ Math.round(amount * (remaining / total))`
abbrev pub Scale : Type 0
Scale = ℕ → ℕ → ℕ → ℕ

unfoldable pub calculate_proration : Scale → ProrationInput → ProrationResult
calculate_proration scale input =
    let total_ms = max ms_per_day (period_end - period_start) in
    let remaining_ms = min total_ms (period_end - now) in
    let total_days = max 1 (round_days total_ms) in
    let remaining_days = min total_days (round_days remaining_ms) in
    let credit_minor = scale old_amount_minor remaining_days total_days in
    let charge_minor = scale new_amount_minor remaining_days total_days in
    record {
      credit_minor = credit_minor;
      charge_minor = charge_minor;
      net_minor = sub_ℕ charge_minor credit_minor;
      remaining_days = remaining_days;
      total_days = total_days;
    }
  where
    open input use {period_start, period_end, now, old_amount_minor, new_amount_minor}

-- What rounding to the nearest double and `Math.round` guarantee: the fraction 0 gives 0, the
-- fraction 1 gives the amount, and the result is monotone in the amount and in the fraction.
pub record IsRounding (scale : Scale) : Type 0 where
  pub none_left : (a t : ℕ) → 0 < t → scale a 0 t ≡ 0
  pub all_left : (a t : ℕ) → 0 < t → scale a t t ≡ a
  pub amount_mono : (a b r t : ℕ) → 0 < t → a ≤ b → scale a r t ≤ scale b r t
  pub days_mono : (a r s t : ℕ) → 0 < t → r ≤ s → scale a r t ≤ scale a s t

module _ (scale : Scale) (rounding : IsRounding scale) where
  remaining_days-le :
      (input : ProrationInput)
      → let r = calculate_proration scale input in
        (r.remaining_days ≤ r.total_days) × (0 < r.total_days)
  unfolding calculate_proration
  remaining_days-le input = omega arith

  scale-le : (a r t : ℕ) → r ≤ t → 0 < t → scale a r t ≤ a
  scale-le a r t h p = omega (arith, rounding.days_mono a r t t p h, rounding.all_left a t p)

  -- Neither side of a proration exceeds the full price of its period, the net amount is the charge
  -- less the credit, nothing is credited on balance unless the price falls, and nothing is charged
  -- on balance unless it rises.
  pub calculate_proration_bounds :
      (input : ProrationInput)
      → let r = calculate_proration scale input in
        (r.credit_minor ≤ input.old_amount_minor)
        × (r.charge_minor ≤ input.new_amount_minor)
        × (pos_part r.net_minor + r.credit_minor ≡ neg_part r.net_minor + r.charge_minor)
        × ((input.new_amount_minor < input.old_amount_minor) ⊎ (neg_part r.net_minor ≡ 0))
        × ((input.old_amount_minor < input.new_amount_minor) ⊎ (pos_part r.net_minor ≡ 0))
  unfolding calculate_proration
  calculate_proration_bounds input =
      let r = calculate_proration scale input in
      let (le, p) = remaining_days-le input in
      let old = input.old_amount_minor in
      let new = input.new_amount_minor in
      (
        scale-le old r.remaining_days r.total_days le p,
        scale-le new r.remaining_days r.total_days le p,
        sub_ℕ_parts r.charge_minor r.credit_minor,
        elim (lt_or_le new old) [
          | inl h ↦ inl h
          | inr h ↦ inr (
              sub_ℕ_nonneg r.charge_minor r.credit_minor
                (rounding.amount_mono old new r.remaining_days r.total_days p h))
        ],
        elim (lt_or_le old new) [
          | inl h ↦ inl h
          | inr h ↦ inr (
              sub_ℕ_nonpos r.charge_minor r.credit_minor
                (rounding.amount_mono new old r.remaining_days r.total_days p h))
        ],
      )

  -- From the end of the period on no day remains, and nothing is credited or charged.
  calculate_proration_ended :
      (input : ProrationInput)
      → input.period_end ≤ input.now
      → let r = calculate_proration scale input in
        (r.remaining_days ≡ 0) × (r.credit_minor ≡ 0) × (r.charge_minor ≡ 0)
  unfolding calculate_proration
  calculate_proration_ended input h =
      let r = calculate_proration scale input in
      let p = (remaining_days-le input).1 in
      let e : r.remaining_days ≡ 0 = omega arith in
      (
        e,
        ap (λ d. scale input.old_amount_minor d r.total_days) e
            ∙ rounding.none_left input.old_amount_minor r.total_days p,
        ap (λ d. scale input.new_amount_minor d r.total_days) e
            ∙ rounding.none_left input.new_amount_minor r.total_days p,
      )

  -- A change made at the start of a period of a day or more is prorated at the full prices.
  pub calculate_proration_whole :
      (input : ProrationInput)
      → input.now ≤ input.period_start
      → input.period_start + ms_per_day ≤ input.period_end
      → let r = calculate_proration scale input in
        (r.credit_minor ≡ input.old_amount_minor) × (r.charge_minor ≡ input.new_amount_minor)
  unfolding calculate_proration
  calculate_proration_whole input h k =
      let r = calculate_proration scale input in
      let p = (remaining_days-le input).1 in
      let e : r.remaining_days ≡ r.total_days = omega arith in
      (
        ap (λ d. scale input.old_amount_minor d r.total_days) e
            ∙ rounding.all_left input.old_amount_minor r.total_days p,
        ap (λ d. scale input.new_amount_minor d r.total_days) e
            ∙ rounding.all_left input.new_amount_minor r.total_days p,
      )

  -- The later in a period a change is made, the less is credited and charged for it.
  pub calculate_proration_decreases :
      (input : ProrationInput) (later : Date)
      → input.now ≤ later
      → let r = calculate_proration scale input in
        let r' = calculate_proration scale (record input { now = later }) in
        (r'.credit_minor ≤ r.credit_minor) × (r'.charge_minor ≤ r.charge_minor)
  unfolding calculate_proration
  calculate_proration_decreases input later h =
      let r = calculate_proration scale input in
      let r' = calculate_proration scale (record input { now = later }) in
      let p = (remaining_days-le input).1 in
      let le : r'.remaining_days ≤ r.remaining_days = omega arith in
      (
        rounding.days_mono input.old_amount_minor r'.remaining_days r.remaining_days r.total_days p
            le,
        rounding.days_mono input.new_amount_minor r'.remaining_days r.remaining_days r.total_days p
            le,
      )
