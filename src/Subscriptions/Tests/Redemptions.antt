-- ===== src/Subscriptions/Tests/Redemptions.antt =====
-- The theorems on coupons, applied: a coupon with one redemption left.
use paywall.Prelude.{
  ℕ, suc, ◌≡◌, refl, none, some, List, [], ◌∷◌, ◌++◌, ◌==◌, arith, Bool-cases, inl, inr, ok,
  state_of, find_first, count_all, some_eq, if◌then◌else◌, ap, sym,
}
use paywall.Coupons.{Coupon, SubscriptionCoupon, RedeemCouponDto, has_coupon_id}
use paywall.Coupons.Eligibility.{resolve_for_redemption}
use paywall.Coupons.Counting.{Counted, redemptions_of, creates_promotion, archives_coupon}
use paywall.Subscriptions.StateMachine.{active}
use paywall.Subscriptions.Model.{Db, Subscription, coupon, coupon_applied}
use paywall.Subscriptions.Store.{has_id}
use paywall.Subscriptions.Redemption.{counted_once, coupon_event, redeem, apply_coupon}
use paywall.Subscriptions.Redemption.Limits.{WithinLimit, apply_coupon-limit, redeem_race}
use paywall.Subscriptions.Redemption.Histories.{
  Redeems, serves, applies, removes, redeem_all, redeem_all-Counted,
}
use paywall.Subscriptions.Tests.{days, result_or, row_in, coupon_at, coupons_in, db_in}

abbrev by_id : RedeemCouponDto
by_id = record { coupon_id = some 40; promotion_code = none }

abbrev no_row : SubscriptionCoupon
no_row = record {
  id = 0;
  subscription_id = 0;
  coupon_id = 0;
  promotion_code_id = none;
  customer_id = 0;
  removed_at = none;
}

abbrev redemption : SubscriptionCoupon
redemption = result_or no_row (apply_coupon (days 2) 1 9 by_id (db_in active))

abbrev redeemed_db : Db
redeemed_db = state_of (apply_coupon (days 2) 1 9 by_id (db_in active))

apply_coupon-limit_example :
    (s : Subscription) × (c : Coupon) × (find_first (has_id 1) (db_in active).subscriptions
      ≡ some s)
    × (find_first (has_coupon_id redemption.coupon_id) coupons_in.coupons ≡ some c)
    × (c.organization_id ≡ s.organization_id)
    × (find_first (has_coupon_id redemption.coupon_id) redeemed_db.coupon_db.coupons
        ≡ some (counted_once c))
    × WithinLimit c.max_redemptions (suc c.redemption_count)
    × (redeemed_db.coupon_db.subscription_coupons ≡ [] ++ redemption ∷ [])
    × (redeemed_db.events
        ≡ []
          ++ coupon_event 1 9 coupon_applied
              (coupon redemption.coupon_id redemption.promotion_code_id)
            ∷ [])
unfolding apply_coupon find_first
apply_coupon-limit_example =
    apply_coupon-limit (days 2) 1 9 by_id (db_in active) redeemed_db redemption refl

coupons_in-Counted : Counted coupons_in
unfolding redemptions_of find_first count_all
coupons_in-Counted = record {
  counts = λ key c found. only key c found;
  fresh = λ key h. refl;
  given = λ key h. ground arith;
}
  where
    only :
        (key : ℕ) (c : Coupon)
        → (if 40 == key then some (coupon_at 0) else none) ≡ some c
        → c.redemption_count ≡ 0
    only key c found = elim (Bool-cases (40 == key)) [
      | inl e ↦ ap (λ d. d.redemption_count) (sym (some_eq (rw e at found)))
      | inr e ↦ cc (rw e at found)
    ]

abbrev requests : List Redeems
requests =
    serves (
      creates_promotion 40 9
        (record { code = 3; max_redemptions = none; customer_id = none; expires_at = none }))
    ∷ applies (days 2) 1 9 (record { coupon_id = none; promotion_code = some 3 })
    ∷ removes (days 3) 1 51 9
    ∷ serves (archives_coupon 40 10 9)
    ∷ []

redeem_all-Counted_example : Counted (redeem_all requests (db_in active)).coupon_db
redeem_all-Counted_example = redeem_all-Counted requests (db_in active) coupons_in-Counted

abbrev other_row : Subscription
other_row = record (row_in active) { id = 7; customer_id = 5 }

redeem_race_example :
    (row : SubscriptionCoupon) × (db' : Db) × (d : Coupon) × (redeem 7 9 5
        (coupon_at 0)
        none
        (state_of (redeem 1 9 4 (coupon_at 0) none (db_in active)))
      ≡ ok row db')
    × (find_first (has_coupon_id 40) db'.coupon_db.coupons ≡ some d)
    × (d.max_redemptions ≡ some 1)
    × (d.redemption_count ≡ 2)
unfolding resolve_for_redemption find_first
redeem_race_example =
    redeem_race (days 2) 9 (row_in active) other_row by_id by_id (db_in active) (coupon_at 0) none
      none 1 refl refl refl refl
