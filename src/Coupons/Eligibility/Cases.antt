-- ===== src/Coupons/Eligibility/Cases.antt =====
-- What a coupon that is resolved for redemption has.
use paywall.Prelude.{
  ℕ, ◌≡◌, ◌∙◌, sym, ap, inl, inr, true, false, not, ◌&&◌, Option, none, some, ◌==◌, ==_iff, arith,
  Bool-cases, find_first, find_first-true, ok, Request, ◌>>=◌, ◌>>◌, >>=-eq-ok, guard-then,
  or_throw-then, ok_injective, guard, return, or_throw, read, bad_request, not_found, if◌then◌else◌,
}
use mathlib.Core.Path.{subst}
use paywall.Dates.{Date}
use paywall.Coupons.{
  Coupon, PromotionCode, CouponDb, RedeemCouponDto, is_active, has_coupon_id, get_owned_coupon,
}
use paywall.Coupons.Promotions.{has_promotion_code}
use paywall.Coupons.Eligibility.{
  is_past, is_used_up, fits, Redeemer, resolve_promotion, resolve_direct, resolve_input,
  resolve_for_redemption,
}

-- The promotion code that was given, if one was, is of the coupon and good for the customer.
abbrev pub PromotionFits : Date → Redeemer → Coupon → Option PromotionCode → Type 0
PromotionFits now redeemer c none = Unit {0}
PromotionFits now redeemer c (some p) =
    (p.coupon_id ≡ c.id)
    × (p.active ≡ true)
    × (is_past p.expires_at now ≡ false)
    × (is_used_up p.max_redemptions p.redemption_count ≡ false)
    × (fits p.customer_id redeemer.customer_id ≡ true)

-- The coupon stands in the table, is of the organization, active, not past its end, has redemptions
-- left, and is for the product and the plan.
pub record Redeemable (now : Date) (organization : ℕ) (redeemer : Redeemer) (db : CouponDb)
    (c : Coupon) (p : Option PromotionCode) : Type 0 where
  pub found : find_first (has_coupon_id c.id) db.coupons ≡ some c
  pub owner : c.organization_id ≡ organization
  pub usable : is_active c.status ≡ true
  pub current : is_past c.expires_at now ≡ false
  pub left : is_used_up c.max_redemptions c.redemption_count ≡ false
  pub product : fits c.product_id redeemer.product_id ≡ true
  pub plan : fits c.plan_id redeemer.plan_id ≡ true
  pub promotion : PromotionFits now redeemer c p

-- Where the coupon comes from.
abbrev Sourced : Date → ℕ → Redeemer → CouponDb → Coupon → Option PromotionCode → Type 0
Sourced now organization redeemer db c p =
    (find_first (has_coupon_id c.id) db.coupons ≡ some c)
    × (c.organization_id ≡ organization)
    × PromotionFits now redeemer c p

own_key :
    (key : ℕ) (db : CouponDb) (c : Coupon)
    → find_first (has_coupon_id key) db.coupons ≡ some c
    → find_first (has_coupon_id c.id) db.coupons ≡ some c
own_key key db c found =
    ap (λ k. find_first (has_coupon_id k) db.coupons)
      ((==_iff c.id key).0 (find_first-true (has_coupon_id key) db.coupons found))
    ∙ found

get_owned-found :
    (organization key : ℕ) (db db' : CouponDb) (c : Coupon)
    → get_owned_coupon key organization db ≡ ok c db'
    → (db' ≡ db)
      × (find_first (has_coupon_id c.id) db.coupons ≡ some c)
      × (c.organization_id ≡ organization)
unfolding get_owned_coupon
get_owned-found organization key db db' c h =
    let (d, found, h₁) =
      or_throw-then (find_first (has_coupon_id key) db.coupons) not_found
        (λ x. guard (x.organization_id == organization) not_found >> return x) db h in
    let (own, h₂) = guard-then (d.organization_id == organization) not_found (return d) db h₁ in
    let (e, same) = ok_injective h₂ in
    (
      sym same,
      own_key key db c (found ∙ ap (λ x. some x) e),
      ap (λ x. x.organization_id) (sym e) ∙ (==_iff d.organization_id organization).0 own,
    )

resolve_direct-Sourced :
    (now : Date) (organization : ℕ) (redeemer : Redeemer) (coupon_id : Option ℕ) (db db' : CouponDb)
    (c : Coupon) (p : Option PromotionCode)
    → resolve_direct organization coupon_id db ≡ ok (c, p) db'
    → (db' ≡ db) × Sourced now organization redeemer db c p
unfolding resolve_direct
resolve_direct-Sourced now organization redeemer none db db' c p h = cc
resolve_direct-Sourced now organization redeemer (some key) db db' c p h =
    let (d, s₁, e₁, h₁) =
      >>=-eq-ok (get_owned_coupon key organization) (λ x. return (x, none)) db h in
    let (e, same) = ok_injective h₁ in
    let (kept, found, own) = get_owned-found organization key db s₁ d e₁ in
    (sym same ∙ kept, subst (λ r. Sourced now organization redeemer db r.0 r.1) e (found, own, tt))

-- The conditions on a promotion code, in the order of the code.
abbrev promotion_guards :
    Date → ℕ → Redeemer → PromotionCode → Coupon → Request CouponDb (Coupon × Option PromotionCode)
promotion_guards now organization redeemer q d =
    guard (d.organization_id == organization) not_found
    >> (guard (q.active && not (is_past q.expires_at now)) bad_request
        >> (guard (not (is_used_up q.max_redemptions q.redemption_count)) bad_request
            >> (guard (fits q.customer_id redeemer.customer_id) bad_request >> return (d, some q))))

promotion_guards-Sourced :
    (now : Date) (organization : ℕ) (redeemer : Redeemer) (q : PromotionCode) (d : Coupon)
    (db db' : CouponDb) (c : Coupon) (p : Option PromotionCode)
    → find_first (has_coupon_id q.coupon_id) db.coupons ≡ some d
    → promotion_guards now organization redeemer q d db ≡ ok (c, p) db'
    → (db' ≡ db) × Sourced now organization redeemer db c p
promotion_guards-Sourced now organization redeemer q d db db' c p found h =
    let (own, h₁) = guard-then (d.organization_id == organization) not_found _ db h in
    let (on, h₂) = guard-then (q.active && not (is_past q.expires_at now)) bad_request _ db h₁ in
    let (left, h₃) =
      guard-then (not (is_used_up q.max_redemptions q.redemption_count)) bad_request _ db h₂ in
    let (fit, h₄) = guard-then (fits q.customer_id redeemer.customer_id) bad_request _ db h₃ in
    let (e, same) = ok_injective h₄ in
    (
      sym same,
      subst (λ r. Sourced now organization redeemer db r.0 r.1) e
          (
            own_key q.coupon_id db d found,
            (==_iff d.organization_id organization).0 own,
            (
              sym (
                  (==_iff d.id q.coupon_id).0
                    (find_first-true (has_coupon_id q.coupon_id) db.coupons found)),
              ground arith,
              ground arith,
              ground arith,
              fit,
            ),
          ),
    )

resolve_promotion-Sourced :
    (now : Date) (organization code : ℕ) (redeemer : Redeemer) (db db' : CouponDb) (c : Coupon)
    (p : Option PromotionCode)
    → resolve_promotion now organization code redeemer db ≡ ok (c, p) db'
    → (db' ≡ db) × Sourced now organization redeemer db c p
unfolding resolve_promotion
resolve_promotion-Sourced now organization code redeemer db db' c p h =
    let (q, _, h₁) =
      or_throw-then (find_first (has_promotion_code code) db.promotion_codes) not_found
        (λ x. read (λ s. find_first (has_coupon_id x.coupon_id) s.coupons) >>= λ o.
          or_throw o not_found >>= promotion_guards now organization redeemer x)
        db h in
    let (d, found, h₂) =
      or_throw-then (find_first (has_coupon_id q.coupon_id) db.coupons) not_found
        (promotion_guards now organization redeemer q) db h₁ in
    promotion_guards-Sourced now organization redeemer q d db db' c p found h₂

resolve_input-Sourced :
    (now : Date) (organization : ℕ) (input : RedeemCouponDto) (redeemer : Redeemer)
    (code : Option ℕ) (db db' : CouponDb) (c : Coupon) (p : Option PromotionCode)
    → resolve_input now organization input redeemer code db ≡ ok (c, p) db'
    → (db' ≡ db) × Sourced now organization redeemer db c p
unfolding resolve_direct resolve_input
resolve_input-Sourced now organization input redeemer none db db' c p h =
    resolve_direct-Sourced now organization redeemer input.coupon_id db db' c p h
resolve_input-Sourced now organization input redeemer (some code) db db' c p h =
    elim (Bool-cases (code == 0)) [
      | inl e ↦
          resolve_direct-Sourced now organization redeemer input.coupon_id db db' c p
            (rw (e, if◌then◌else◌) at h)
      | inr e ↦
          resolve_promotion-Sourced now organization code redeemer db db' c p
            (rw (e, if◌then◌else◌) at h)
    ]

-- A resolution that succeeds has changed nothing, and its coupon can be redeemed.
pub resolve-Redeemable :
    (now : Date) (organization : ℕ) (input : RedeemCouponDto) (redeemer : Redeemer)
    (db db' : CouponDb) (c : Coupon) (p : Option PromotionCode)
    → resolve_for_redemption now organization input redeemer db ≡ ok (c, p) db'
    → (db' ≡ db) × Redeemable now organization redeemer db c p
unfolding resolve_for_redemption
resolve-Redeemable now organization input redeemer db db' c p h =
    let ((d, q), s₁, e₁, h₁) =
      >>=-eq-ok (resolve_input now organization input redeemer input.promotion_code)
        (λ r.
          guard (is_active r.0.status) bad_request
          >> (guard (not (is_past r.0.expires_at now)) bad_request
              >> (guard (not (is_used_up r.0.max_redemptions r.0.redemption_count)) bad_request
                  >> (guard (fits r.0.product_id redeemer.product_id) bad_request
                      >> (guard (fits r.0.plan_id redeemer.plan_id) bad_request >> return r)))))
        db h in
    let (kept, (found, own, promo)) =
      resolve_input-Sourced now organization input redeemer input.promotion_code db s₁ d q e₁ in
    let (usable, h₂) = guard-then (is_active d.status) bad_request _ s₁ h₁ in
    let (current, h₃) = guard-then (not (is_past d.expires_at now)) bad_request _ s₁ h₂ in
    let (left, h₄) =
      guard-then (not (is_used_up d.max_redemptions d.redemption_count)) bad_request _ s₁ h₃ in
    let (product, h₅) = guard-then (fits d.product_id redeemer.product_id) bad_request _ s₁ h₄ in
    let (plan, h₆) = guard-then (fits d.plan_id redeemer.plan_id) bad_request _ s₁ h₅ in
    let (e, same) = ok_injective h₆ in
    (
      sym same ∙ kept,
      subst (λ r. Redeemable now organization redeemer db r.0 r.1) e
          (record {
            found = found;
            owner = own;
            usable = usable;
            current = ground arith;
            left = ground arith;
            product = product;
            plan = plan;
            promotion = promo;
          }),
    )
