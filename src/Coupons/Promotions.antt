-- ===== src/Coupons/Promotions.antt =====
-- Promotion codes: apps/api/src/coupons/promotion-codes.service.ts.
use paywall.Prelude.{
  ℕ, suc, Bool, true, false, not, [], ◌∷◌, ◌++◌, ◌==◌, is_some, Request, ◌>>=◌, ◌>>◌, return, guard,
  or_throw, read, write, not_found, record_not_found, unique_violation, find_first,
}
use paywall.Coupons.{
  PromotionCode, CouponDb, CreatePromotionCodeDto, promotion_code_created, promotion_code_archived,
  has_coupon_id, has_promotion_id, record_coupon_audit, rewrite_promotion,
}

abbrev pub has_promotion_code : ℕ → PromotionCode → Bool
has_promotion_code code p = p.code == code

abbrev pub insert_promotion : PromotionCode → CouponDb → CouponDb
insert_promotion p db = record db {
  promotion_codes = db.promotion_codes ++ p ∷ [];
  next_id = suc db.next_id;
}

abbrev pub new_promotion : ℕ → ℕ → CreatePromotionCodeDto → PromotionCode
new_promotion id coupon_id dto = record {
  id = id;
  coupon_id = coupon_id;
  code = dto.code;
  active = true;
  max_redemptions = dto.max_redemptions;
  redemption_count = 0;
  customer_id = dto.customer_id;
  expires_at = dto.expires_at;
}

unfoldable pub create_promotion_code :
    ℕ → ℕ → CreatePromotionCodeDto → Request CouponDb PromotionCode
create_promotion_code coupon_id user_id dto = do
  found ← read (λ db. find_first (has_coupon_id coupon_id) db.coupons)
  c ← or_throw found record_not_found
  taken ← read (λ db. find_first (has_promotion_code dto.code) db.promotion_codes)
  guard (not (is_some taken)) unique_violation
  id ← read (λ db. db.next_id)
  write (insert_promotion (new_promotion id coupon_id dto))
  write (record_coupon_audit (promotion_code_created coupon_id id) user_id c.organization_id)
  return (new_promotion id coupon_id dto)

unfoldable pub deactivate_promotion_code : ℕ → ℕ → ℕ → Request CouponDb PromotionCode
deactivate_promotion_code coupon_id promotion_code_id user_id = do
  found ← read (λ db. find_first (has_promotion_id promotion_code_id) db.promotion_codes)
  p ← or_throw found not_found
  guard (p.coupon_id == coupon_id) not_found
  write (rewrite_promotion promotion_code_id (λ q. record q { active = false }))
  owner ← read (λ db. find_first (has_coupon_id p.coupon_id) db.coupons)
  c ← or_throw owner record_not_found
  write (
      record_coupon_audit (promotion_code_archived coupon_id promotion_code_id) user_id
        c.organization_id)
  return (record p { active = false })
