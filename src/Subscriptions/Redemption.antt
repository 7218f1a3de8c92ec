-- ===== src/Subscriptions/Redemption.antt =====
-- `applyCoupon` and `removeCoupon` of apps/api/src/subscriptions/subscriptions.service.ts.
pub mod Counts
pub mod Limits
pub mod Histories
use paywall.Prelude.{
  ℕ, suc, Bool, not, ◌&&◌, Option, none, some, [], ◌∷◌, ◌++◌, ◌==◌, is_some, find_first, update_all,
  not_found, Outcome, ok, err, Request, ◌>>=◌, ◌>>◌, return, guard, or_throw, read, write,
  transaction,
}
use paywall.Dates.{Date}
use paywall.Coupons.{
  Coupon, PromotionCode, SubscriptionCoupon, CouponDb, RedeemCouponDto, rewrite_coupon,
  rewrite_promotion,
}
use paywall.Coupons.Eligibility.{Redeemer, resolve_for_redemption}
use paywall.Subscriptions.Model.{
  Db, Subscription, SubscriptionEvent, SubscriptionEventType, Metadata, coupon_applied,
  coupon_removed, coupon, subscription_coupon,
}
use paywall.Subscriptions.Store.{get_subscription, create_event}

abbrev pub on_coupons : (CouponDb → CouponDb) → Db → Db
on_coupons f db = record db { coupon_db = f db.coupon_db }

-- A call of the coupons' service.
abbrev pub with_coupons : {A : Type 0} → Request CouponDb A → Request Db A
with_coupons m db = elim (m db.coupon_db) [
  | ok a c ↦ ok a (record db { coupon_db = c })
  | err e c ↦ err e (record db { coupon_db = c })
]

abbrev pub promotion_id : Option PromotionCode → Option ℕ
promotion_id none = none
promotion_id (some p) = some p.id

abbrev pub new_redemption : ℕ → ℕ → ℕ → Coupon → Option PromotionCode → SubscriptionCoupon
new_redemption id subscription_id customer_id c p = record {
  id = id;
  subscription_id = subscription_id;
  coupon_id = c.id;
  promotion_code_id = promotion_id p;
  customer_id = customer_id;
  removed_at = none;
}

-- `subscriptionCoupon.create`
abbrev pub insert_redemption : SubscriptionCoupon → CouponDb → CouponDb
insert_redemption row db = record db {
  subscription_coupons = db.subscription_coupons ++ row ∷ [];
  next_id = suc db.next_id;
}

-- `redemptionCount: { increment: 1 }`, on the coupon and on its promotion code
abbrev pub counted_once : Coupon → Coupon
counted_once c = record c { redemption_count = suc c.redemption_count }

abbrev pub count_coupon : Coupon → CouponDb → CouponDb
count_coupon c = rewrite_coupon c.id counted_once

abbrev pub count_promotion : Option PromotionCode → CouponDb → CouponDb
count_promotion none db = db
count_promotion (some p) db =
    rewrite_promotion p.id (λ q. record q { redemption_count = suc q.redemption_count }) db

abbrev pub coupon_event : ℕ → ℕ → SubscriptionEventType → Metadata → SubscriptionEvent
coupon_event subscription_id user_id type metadata = record {
  subscription_id = subscription_id;
  type = type;
  from_status = none;
  to_status = none;
  idempotency_key = none;
  metadata = metadata;
  created_by_id = user_id;
}

-- The writes of `applyCoupon`.
unfoldable pub redeem : ℕ → ℕ → ℕ → Coupon → Option PromotionCode → Request Db SubscriptionCoupon
unfolding create_event
redeem subscription_id user_id customer_id c p = do
  id ← read (λ db. db.coupon_db.next_id)
  write (on_coupons (insert_redemption (new_redemption id subscription_id customer_id c p)))
  write (on_coupons (count_coupon c))
  write (on_coupons (count_promotion p))
  create_event (coupon_event subscription_id user_id coupon_applied (coupon c.id (promotion_id p)))
  return (new_redemption id subscription_id customer_id c p)

abbrev pub redeemer_of : Subscription → Redeemer
redeemer_of s = record {
  product_id = s.product_id;
  plan_id = s.plan_id;
  customer_id = s.customer_id;
}

unfoldable pub apply_coupon : Date → ℕ → ℕ → RedeemCouponDto → Request Db SubscriptionCoupon
unfolding get_subscription resolve_for_redemption redeem
apply_coupon now subscription_id user_id dto = do
  s ← get_subscription subscription_id
  (c, p) ← with_coupons (resolve_for_redemption now s.organization_id dto (redeemer_of s))
  transaction (redeem subscription_id user_id s.customer_id c p)

abbrev pub is_redemption : ℕ → SubscriptionCoupon → Bool
is_redemption key r = r.id == key

abbrev pub end_redemption : ℕ → Date → CouponDb → CouponDb
end_redemption key now db = record db {
  subscription_coupons =
      update_all (is_redemption key) (λ r. record r { removed_at = some now })
        db.subscription_coupons;
}

unfoldable pub remove_coupon : Date → ℕ → ℕ → ℕ → Request Db SubscriptionCoupon
unfolding create_event
remove_coupon now subscription_id subscription_coupon_id user_id = do
  found ←
      read
        (λ db. find_first (is_redemption subscription_coupon_id) db.coupon_db.subscription_coupons)
  r ← or_throw found not_found
  guard (r.subscription_id == subscription_id && not (is_some r.removed_at)) not_found
  write (on_coupons (end_redemption subscription_coupon_id now))
  create_event (
      coupon_event subscription_id user_id coupon_removed
        (subscription_coupon subscription_coupon_id))
  return (record r { removed_at = some now })
