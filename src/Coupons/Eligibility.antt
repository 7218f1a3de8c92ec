-- ===== src/Coupons/Eligibility.antt =====
-- `resolveForRedemption` of apps/api/src/coupons/coupons.service.ts: who may redeem a coupon.
pub mod Cases
pub mod Reads
use paywall.Prelude.{
  ℕ, suc, ◌+◌, Bool, true, false, not, ◌&&◌, Option, none, some, List, [], ◌∷◌, ◌++◌, ◌==◌, ltb,
  leb, is_at, is_some, get_or, Request, ◌>>=◌, ◌>>◌, return, throw, guard, or_throw, read, write,
  not_found, bad_request, record_not_found, unique_violation, find_first, update_all, if◌then◌else◌,
}
use paywall.Dates.{Date}
use paywall.Coupons.{
  Coupon, PromotionCode, CouponDb, RedeemCouponDto, is_active, has_coupon_id, get_owned_coupon,
}
use paywall.Coupons.Promotions.{has_promotion_code}

-- `expiresAt && expiresAt < new Date()`
abbrev pub is_past : Option Date → Date → Bool
is_past none now = false
is_past (some ends) now = ltb ends now

-- `maxRedemptions !== null && redemptionCount >= maxRedemptions`
abbrev pub is_used_up : Option ℕ → ℕ → Bool
is_used_up none count = false
is_used_up (some limit) count = leb limit count

-- A restriction, if there is one, is met: the negation of `x && x !== y`.
abbrev pub fits : Option ℕ → ℕ → Bool
fits none actual = true
fits (some wanted) actual = wanted == actual

-- What `resolveForRedemption` reads of the subscription.
pub record Redeemer : Type 0 where
  pub product_id : ℕ
  pub plan_id : ℕ
  pub customer_id : ℕ

-- The promotion code, with its coupon.
unfoldable pub resolve_promotion :
    Date → ℕ → ℕ → Redeemer → Request CouponDb (Coupon × Option PromotionCode)
resolve_promotion now organization_id code redeemer = do
  found ← read (λ db. find_first (has_promotion_code code) db.promotion_codes)
  p ← or_throw found not_found
  owner ← read (λ db. find_first (has_coupon_id p.coupon_id) db.coupons)
  c ← or_throw owner not_found
  guard (c.organization_id == organization_id) not_found
  guard (p.active && not (is_past p.expires_at now)) bad_request
  guard (not (is_used_up p.max_redemptions p.redemption_count)) bad_request
  guard (fits p.customer_id redeemer.customer_id) bad_request
  return (c, some p)

unfoldable pub resolve_direct : ℕ → Option ℕ → Request CouponDb (Coupon × Option PromotionCode)
unfolding get_owned_coupon
resolve_direct organization_id none = throw bad_request
resolve_direct organization_id (some coupon_id) = do
  c ← get_owned_coupon coupon_id organization_id
  return (c, none)

-- `if (input.promotionCode)`: the empty text counts as none.
unfoldable pub resolve_input :
    Date
    → ℕ
    → RedeemCouponDto
    → Redeemer
    → Option ℕ
    → Request CouponDb (Coupon × Option PromotionCode)
unfolding resolve_promotion resolve_direct
resolve_input now organization_id input redeemer none =
    resolve_direct organization_id input.coupon_id
resolve_input now organization_id input redeemer (some code) =
    if code == 0
    then resolve_direct organization_id input.coupon_id
    else resolve_promotion now organization_id code redeemer

unfoldable pub resolve_for_redemption :
    Date → ℕ → RedeemCouponDto → Redeemer → Request CouponDb (Coupon × Option PromotionCode)
unfolding resolve_input
resolve_for_redemption now organization_id input redeemer = do
  (c, p) ← resolve_input now organization_id input redeemer input.promotion_code
  guard (is_active c.status) bad_request
  guard (not (is_past c.expires_at now)) bad_request
  guard (not (is_used_up c.max_redemptions c.redemption_count)) bad_request
  guard (fits c.product_id redeemer.product_id) bad_request
  guard (fits c.plan_id redeemer.plan_id) bad_request
  return (c, p)
