-- ===== src/Coupons/Eligibility/Reads.antt =====
-- The database while a coupon is resolved.
use paywall.Prelude.{
  ℕ, ◌≡◌, refl, ◌∙◌, Bool, true, false, not, ◌&&◌, Option, none, some, ◌==◌, find_first, Request,
  ◌>>=◌, return, guard, or_throw, read, Error, not_found, bad_request, Within, Within->>=,
  Within-guard, Within-or_throw, Within-read, Within-return, if◌then◌else◌,
}
use paywall.Dates.{Date}
use paywall.Coupons.{CouponDb, RedeemCouponDto, is_active, has_coupon_id, get_owned_coupon}
use paywall.Coupons.Promotions.{has_promotion_code}
use paywall.Coupons.Eligibility.{
  is_past, is_used_up, fits, Redeemer, resolve_promotion, resolve_direct, resolve_input,
  resolve_for_redemption,
}

abbrev pub Same : CouponDb → CouponDb → Type 0
Same db db' = db' ≡ db

Same-refl : (db : CouponDb) → Same db db
Same-refl db = refl

Same-trans : (a b c : CouponDb) → Same a b → Same b c → Same a c
Same-trans a b c e e' = e' ∙ e

bind :
    {A B : Type 0} (m : Request CouponDb A) (f : A → Request CouponDb B)
    → Within Same m
    → ((a : A) → Within Same (f a))
    → Within Same (m >>= f)
bind m f = Within->>= Same Same-refl Same-trans m f

check : (b : Bool) (e : Error) → Within Same (guard b e)
check b e = Within-guard Same Same-refl Same-trans b e

seek : {A : Type 0} (o : Option A) (e : Error) → Within Same (or_throw o e)
seek o e = Within-or_throw Same Same-refl Same-trans o e

look : {A : Type 0} (f : CouponDb → A) → Within Same (read f)
look f = Within-read Same Same-refl Same-trans f

done : {A : Type 0} (a : A) → Within Same (return a)
done a = Within-return Same Same-refl Same-trans a

get_owned_coupon-Same : (key organization : ℕ) → Within Same (get_owned_coupon key organization)
unfolding get_owned_coupon
get_owned_coupon-Same key organization =
    bind _ _ (look (λ db. find_first (has_coupon_id key) db.coupons)) λ found.
      bind _ _ (seek found not_found)
        λ c. bind _ _ (check (c.organization_id == organization) not_found) λ _. done c

resolve_direct-Same :
    (organization : ℕ) (key : Option ℕ) → Within Same (resolve_direct organization key)
unfolding resolve_direct
resolve_direct-Same organization none = record { holds = λ db. refl }
resolve_direct-Same organization (some key) =
    bind _ _ (get_owned_coupon-Same key organization) λ c. done (c, none)

resolve_promotion-Same :
    (now : Date) (organization code : ℕ) (redeemer : Redeemer)
    → Within Same (resolve_promotion now organization code redeemer)
unfolding resolve_promotion
resolve_promotion-Same now organization code redeemer =
    bind _ _ (look (λ db. find_first (has_promotion_code code) db.promotion_codes)) λ found.
      bind _ _ (seek found not_found) λ p.
        bind _ _ (look (λ db. find_first (has_coupon_id p.coupon_id) db.coupons)) λ owner.
          bind _ _ (seek owner not_found) λ c.
            bind _ _ (check (c.organization_id == organization) not_found) λ _.
              bind _ _ (check (p.active && not (is_past p.expires_at now)) bad_request) λ _.
                bind _ _ (check (not (is_used_up p.max_redemptions p.redemption_count)) bad_request)
                  λ _.
                    bind _ _ (check (fits p.customer_id redeemer.customer_id) bad_request)
                      λ _. done (c, some p)

resolve_input-Same :
    (now : Date) (organization : ℕ) (input : RedeemCouponDto) (redeemer : Redeemer)
    (code : Option ℕ)
    → Within Same (resolve_input now organization input redeemer code)
unfolding resolve_input
resolve_input-Same now organization input redeemer none =
    resolve_direct-Same organization input.coupon_id
resolve_input-Same now organization input redeemer (some code) = go (code == 0)
  where
    go :
        (b : Bool)
        → Within Same (
            if b
            then resolve_direct organization input.coupon_id
            else resolve_promotion now organization code redeemer)
    go true = record { holds = (resolve_direct-Same organization input.coupon_id).holds }
    go false = record { holds = (resolve_promotion-Same now organization code redeemer).holds }

pub resolve_for_redemption-Same :
    (now : Date) (organization : ℕ) (input : RedeemCouponDto) (redeemer : Redeemer)
    → Within Same (resolve_for_redemption now organization input redeemer)
unfolding resolve_for_redemption
resolve_for_redemption-Same now organization input redeemer =
    bind _ _ (resolve_input-Same now organization input redeemer input.promotion_code) λ r.
      bind _ _ (check (is_active r.0.status) bad_request) λ _.
        bind _ _ (check (not (is_past r.0.expires_at now)) bad_request) λ _.
          bind _ _ (check (not (is_used_up r.0.max_redemptions r.0.redemption_count)) bad_request)
            λ _.
              bind _ _ (check (fits r.0.product_id redeemer.product_id) bad_request)
                λ _. bind _ _ (check (fits r.0.plan_id redeemer.plan_id) bad_request) λ _. done r
