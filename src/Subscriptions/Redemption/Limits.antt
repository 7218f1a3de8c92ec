-- ===== src/Subscriptions/Redemption/Limits.antt =====
-- The limit on the redemptions of a coupon.
use mathlib.Core.Option
use paywall.Prelude.{
  false, ℕ, suc, ◌≤◌, ◌≡◌, sym, ◌∙◌, ap, Option, none, some, [], ◌∷◌, ◌++◌, arith, find_first,
  find_first-update_self, ok, state_of,
}
use paywall.Dates.{Date}
use paywall.Coupons.{
  Coupon, PromotionCode, SubscriptionCoupon, CouponDb, RedeemCouponDto, has_coupon_id,
}
use paywall.Coupons.Eligibility.{resolve_for_redemption, is_used_up}
use paywall.Coupons.Eligibility.Cases.{resolve-Redeemable}
use paywall.Subscriptions.Model.{Db, Subscription, coupon, coupon_applied}
use paywall.Subscriptions.Store.{has_id}
use paywall.Subscriptions.Redemption.{counted_once, coupon_event, redeem, redeemer_of, apply_coupon}
use paywall.Subscriptions.Redemption.Counts.{
  redeemed, after_redeem, count_promotion_coupons, redeem_eq, apply_coupon_cases,
}

-- A limit on redemptions, if there is one, is not exceeded.
abbrev pub WithinLimit : Option ℕ → ℕ → Type 0
WithinLimit none count = Unit {0}
WithinLimit (some limit) count = count ≤ limit

left-WithinLimit :
    (limit : Option ℕ) (count : ℕ) → is_used_up limit count ≡ false → WithinLimit limit (suc count)
left-WithinLimit none count h = tt
left-WithinLimit (some limit) count h = ground arith

redeemed-found :
    (id customer : ℕ) (c d : Coupon) (p : Option PromotionCode) (db : CouponDb)
    → find_first (has_coupon_id c.id) db.coupons ≡ some d
    → find_first (has_coupon_id c.id) (redeemed id customer c p db).coupons ≡ some (counted_once d)
redeemed-found id customer c d p db found =
    ap (find_first (has_coupon_id c.id)) (count_promotion_coupons p _).0
    ∙ find_first-update_self (has_coupon_id c.id) _ db.coupons (λ x h. h)
    ∙ ap (Option.map counted_once) found

-- An application of a coupon that succeeds was of a coupon of the subscription's organization,
-- counts it once more, which does not exceed its limit if it has one, and adds one redemption and
-- one event.
pub apply_coupon-limit :
    (now : Date) (id user : ℕ) (dto : RedeemCouponDto) (db db' : Db) (row : SubscriptionCoupon)
    → apply_coupon now id user dto db ≡ ok row db'
    → (s : Subscription) × (c : Coupon) × (find_first (has_id id) db.subscriptions ≡ some s)
      × (find_first (has_coupon_id row.coupon_id) db.coupon_db.coupons ≡ some c)
      × (c.organization_id ≡ s.organization_id)
      × (find_first (has_coupon_id row.coupon_id) db'.coupon_db.coupons ≡ some (counted_once c))
      × WithinLimit c.max_redemptions (suc c.redemption_count)
      × (db'.coupon_db.subscription_coupons ≡ db.coupon_db.subscription_coupons ++ row ∷ [])
      × (db'.events
          ≡ db.events
            ++ coupon_event id user coupon_applied (coupon row.coupon_id row.promotion_code_id)
              ∷ [])
apply_coupon-limit now id user dto db db' row h =
    let (s, c, p, found, can, e, e') = apply_coupon_cases now id user dto db db' row h in
    let at : row.coupon_id ≡ c.id = ap (λ r. r.coupon_id) e in
    (
      s,
      c,
      found,
      ap (λ k. find_first (has_coupon_id k) db.coupon_db.coupons) at ∙ can.found,
      can.owner,
      ap (λ k. find_first (has_coupon_id k) db'.coupon_db.coupons) at
          ∙ ap (λ d. find_first (has_coupon_id c.id) d.coupon_db.coupons) e'
          ∙ redeemed-found id s.customer_id c c p db.coupon_db can.found,
      left-WithinLimit c.max_redemptions c.redemption_count can.left,
      ap (λ d. d.coupon_db.subscription_coupons) e'
          ∙ (count_promotion_coupons p _).1
          ∙ ap (λ r. db.coupon_db.subscription_coupons ++ r ∷ []) (sym e),
      ap (λ d. d.events) e'
          ∙ ap
              (λ r.
                db.events
                ++ coupon_event id user coupon_applied (coupon r.coupon_id r.promotion_code_id)
                  ∷ [])
              (sym e),
    )

-- If two requests have both resolved a coupon with one redemption left before either of them writes,
-- both redeem it, and the count exceeds the limit by one.
pub redeem_race :
    (now : Date) (user : ℕ) (s t : Subscription) (dto dto' : RedeemCouponDto) (db : Db) (c : Coupon)
    (p p' : Option PromotionCode) (limit : ℕ)
    → resolve_for_redemption now s.organization_id dto (redeemer_of s) db.coupon_db
      ≡ ok (c, p) db.coupon_db
    → resolve_for_redemption now t.organization_id dto' (redeemer_of t) db.coupon_db
      ≡ ok (c, p') db.coupon_db
    → c.max_redemptions ≡ some limit
    → suc c.redemption_count ≡ limit
    → (row : SubscriptionCoupon) × (db' : Db) × (d : Coupon) × (redeem t.id user t.customer_id c p'
          (state_of (redeem s.id user s.customer_id c p db))
        ≡ ok row db')
      × (find_first (has_coupon_id c.id) db'.coupon_db.coupons ≡ some d)
      × (d.max_redemptions ≡ some limit)
      × (d.redemption_count ≡ suc limit)
redeem_race now user s t dto dto' db c p p' limit first second at_most last =
    let (_, can) =
      resolve-Redeemable now s.organization_id dto (redeemer_of s) db.coupon_db db.coupon_db c p
        first in
    let one = after_redeem s.id user s.customer_id c p db in
    (
      _,
      after_redeem t.id user t.customer_id c p' one,
      counted_once (counted_once c),
      ap (λ o. redeem t.id user t.customer_id c p' (state_of o))
            (redeem_eq s.id user s.customer_id c p db)
          ∙ redeem_eq t.id user t.customer_id c p' one,
      redeemed-found t.id t.customer_id c (counted_once c) p' one.coupon_db
          (redeemed-found s.id s.customer_id c c p db.coupon_db can.found),
      at_most,
      ap suc last,
    )
