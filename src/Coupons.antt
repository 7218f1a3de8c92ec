-- ===== src/Coupons.antt =====
-- Coupons and promotion codes: apps/api/src/coupons/coupons.service.ts and
-- apps/api/src/coupons/promotion-codes.service.ts.
pub mod Promotions
pub mod Eligibility
pub mod Counting
use paywall.Prelude.{
  ℕ, suc, ◌+◌, Bool, true, false, not, ◌&&◌, Option, none, some, List, [], ◌∷◌, ◌++◌, ◌==◌, ltb,
  leb, is_at, is_some, get_or, Request, ◌>>=◌, ◌>>◌, return, throw, guard, or_throw, read, write,
  not_found, bad_request, record_not_found, unique_violation, find_first, update_all, if◌then◌else◌,
}
use paywall.Dates.{Date}

pub data CouponDiscountType : Type 0 where
  fixed percentage : CouponDiscountType

pub data CouponDuration : Type 0 where
  once repeating forever : CouponDuration

pub data CouponStatus : Type 0 where
  active archived expired : CouponStatus

abbrev pub is_active : CouponStatus → Bool
is_active active = true
is_active _ = false

pub record Coupon : Type 0 where
  pub id : ℕ
  pub organization_id : ℕ
  pub code : ℕ
  pub name : Option ℕ
  pub discount_type : CouponDiscountType
  pub amount_off_minor : Option ℕ
  pub percent_off : Option ℕ
  pub duration : CouponDuration
  pub duration_in_cycles : Option ℕ
  pub max_redemptions : Option ℕ
  pub redemption_count : ℕ
  pub product_id : Option ℕ
  pub plan_id : Option ℕ
  pub expires_at : Option Date
  pub status : CouponStatus
  pub created_by_id : ℕ

pub record PromotionCode : Type 0 where
  pub id : ℕ
  pub coupon_id : ℕ
  pub code : ℕ
  pub active : Bool
  pub max_redemptions : Option ℕ
  pub redemption_count : ℕ
  pub customer_id : Option ℕ
  pub expires_at : Option Date

pub record SubscriptionCoupon : Type 0 where
  pub id : ℕ
  pub subscription_id : ℕ
  pub coupon_id : ℕ
  pub promotion_code_id : Option ℕ
  pub customer_id : ℕ
  pub removed_at : Option Date

pub data CouponAction : Type 0 where
  coupon_created coupon_updated coupon_archived : ℕ → CouponAction
  promotion_code_created promotion_code_archived : ℕ → ℕ → CouponAction

pub record CouponAudit : Type 0 where
  pub action : CouponAction
  pub user_id : ℕ
  pub organization_id : ℕ

pub record CouponDb : Type 0 where
  pub coupons : List Coupon
  pub promotion_codes : List PromotionCode
  pub subscription_coupons : List SubscriptionCoupon
  pub coupon_audit : List CouponAudit
  pub next_id : ℕ

pub record CreateCouponDto : Type 0 where
  pub code : ℕ
  pub name : Option ℕ
  pub discount_type : CouponDiscountType
  pub amount_off_minor : Option ℕ
  pub percent_off : Option ℕ
  pub duration : Option CouponDuration
  pub duration_in_cycles : Option ℕ
  pub max_redemptions : Option ℕ
  pub product_id : Option ℕ
  pub plan_id : Option ℕ
  pub expires_at : Option Date

pub record UpdateCouponDto : Type 0 where
  pub status : Option CouponStatus
  pub max_redemptions : Option ℕ
  pub expires_at : Option Date

pub record CreatePromotionCodeDto : Type 0 where
  pub code : ℕ
  pub max_redemptions : Option ℕ
  pub customer_id : Option ℕ
  pub expires_at : Option Date

-- A promotion code of 0 is the empty text.
pub record RedeemCouponDto : Type 0 where
  pub coupon_id : Option ℕ
  pub promotion_code : Option ℕ

abbrev pub has_coupon_id : ℕ → Coupon → Bool
has_coupon_id key c = c.id == key

abbrev pub has_promotion_id : ℕ → PromotionCode → Bool
has_promotion_id key p = p.id == key

abbrev pub record_coupon_audit : CouponAction → ℕ → ℕ → CouponDb → CouponDb
record_coupon_audit action user_id organization_id db = record db {
  coupon_audit =
      db.coupon_audit
      ++ record { action = action; user_id = user_id; organization_id = organization_id } ∷ [];
}

-- `coupon.update`
abbrev pub rewrite_coupon : ℕ → (Coupon → Coupon) → CouponDb → CouponDb
rewrite_coupon id f db = record db { coupons = update_all (has_coupon_id id) f db.coupons }

-- `promotionCode.update`
abbrev pub rewrite_promotion : ℕ → (PromotionCode → PromotionCode) → CouponDb → CouponDb
rewrite_promotion id f db = record db {
  promotion_codes = update_all (has_promotion_id id) f db.promotion_codes;
}

-- `getOwned` of CouponsService
unfoldable pub get_owned_coupon : ℕ → ℕ → Request CouponDb Coupon
get_owned_coupon coupon_id organization_id = do
  found ← read (λ db. find_first (has_coupon_id coupon_id) db.coupons)
  c ← or_throw found not_found
  guard (c.organization_id == organization_id) not_found
  return c

abbrev pub new_coupon : ℕ → ℕ → ℕ → CreateCouponDto → Coupon
new_coupon id organization_id user_id dto = record {
  id = id;
  organization_id = organization_id;
  code = dto.code;
  name = dto.name;
  discount_type = dto.discount_type;
  amount_off_minor = dto.amount_off_minor;
  percent_off = dto.percent_off;
  duration = get_or dto.duration once;
  duration_in_cycles = dto.duration_in_cycles;
  max_redemptions = dto.max_redemptions;
  redemption_count = 0;
  product_id = dto.product_id;
  plan_id = dto.plan_id;
  expires_at = dto.expires_at;
  status = active;
  created_by_id = user_id;
}

-- `coupon.create`: the code is unique in the organization.
abbrev pub insert_coupon : Coupon → CouponDb → CouponDb
insert_coupon c db = record db { coupons = db.coupons ++ c ∷ []; next_id = suc db.next_id }

abbrev pub has_code_in : ℕ → ℕ → Coupon → Bool
has_code_in organization_id code c = c.organization_id == organization_id && (c.code == code)

unfoldable pub create_coupon : ℕ → ℕ → CreateCouponDto → Request CouponDb Coupon
create_coupon organization_id user_id dto = do
  taken ← read (λ db. find_first (has_code_in organization_id dto.code) db.coupons)
  guard (not (is_some taken)) unique_violation
  id ← read (λ db. db.next_id)
  write (insert_coupon (new_coupon id organization_id user_id dto))
  write (record_coupon_audit (coupon_created id) user_id organization_id)
  return (new_coupon id organization_id user_id dto)

-- `dto.x` where it is given, the old value where it is undefined.
abbrev pub set_some {ℓ} : {A : Type ℓ} → Option A → Option A → Option A
set_some none old = old
set_some (some a) old = some a

abbrev pub updated_coupon : UpdateCouponDto → Coupon → Coupon
updated_coupon dto c = record c {
  status = get_or dto.status c.status;
  max_redemptions = set_some dto.max_redemptions c.max_redemptions;
  expires_at = set_some dto.expires_at c.expires_at;
}

unfoldable pub update_coupon : ℕ → ℕ → ℕ → UpdateCouponDto → Request CouponDb Coupon
unfolding get_owned_coupon
update_coupon coupon_id organization_id user_id dto = do
  c ← get_owned_coupon coupon_id organization_id
  write (rewrite_coupon coupon_id (updated_coupon dto))
  write (record_coupon_audit (coupon_updated coupon_id) user_id organization_id)
  return (updated_coupon dto c)

unfoldable pub archive_coupon : ℕ → ℕ → ℕ → Request CouponDb Coupon
unfolding get_owned_coupon
archive_coupon coupon_id organization_id user_id = do
  c ← get_owned_coupon coupon_id organization_id
  write (rewrite_coupon coupon_id (λ d. record d { status = archived }))
  write (record_coupon_audit (coupon_archived coupon_id) user_id organization_id)
  return (record c { status = archived })
