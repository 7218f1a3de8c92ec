-- ===== src/Subscriptions/Redemption/Histories.antt =====
-- Sequences of requests to the services of coupons and promotion codes, and of redemptions.
use paywall.Prelude.{
  ℕ, ◌⊎◌, inl, inr, Bool-cases, Option-cases, ◌≡◌, refl, sym, ◌∙◌, ap, List, [], ◌∷◌, ◌==◌, ◌&&◌,
  not, is_some, find_first, count_all-update_same, arith, Outcome, ok, err, Request, state_of,
  Within, Clean, Clean->>=, Clean-transaction, not_found, Within-or_throw,
}
use mathlib.Core.Path.{subst}
use paywall.Dates.{Date}
use paywall.Coupons.{SubscriptionCoupon, CouponDb, RedeemCouponDto}
use paywall.Coupons.Eligibility.{resolve_for_redemption}
use paywall.Coupons.Eligibility.Reads.{Same, resolve_for_redemption-Same}
use paywall.Coupons.Counting.{
  is_redemption_of, redemptions_of, Counted, CouponRequest, serve_coupon, serve_coupon-Counted,
}
use paywall.Subscriptions.Model.{Db}
use paywall.Subscriptions.Store.{has_id, get_subscription, create_event}
use paywall.Subscriptions.Redemption.{
  on_coupons, with_coupons, redeem, redeemer_of, apply_coupon, is_redemption, end_redemption,
  remove_coupon,
}
use paywall.Subscriptions.Redemption.Counts.{redeemed-Counted, apply_coupon_cases}

abbrev Unchanged : Db → Db → Type 0
Unchanged db db' = db' ≡ db

with_coupons-Unchanged :
    {A : Type 0} (m : Request CouponDb A) → Within Same m → Within Unchanged (with_coupons m)
with_coupons-Unchanged {A} m h = record {
  holds = λ db. go db (m db.coupon_db) (h.holds db.coupon_db);
}
  where
    go :
        (db : Db) (o : Outcome CouponDb A)
        → state_of o ≡ db.coupon_db
        → state_of (elim o as (λ _. Outcome Db A) [
          | ok a c ↦ ok a (record db { coupon_db = c })
          | err e c ↦ err e (record db { coupon_db = c })
        ])
          ≡ db
    go db (ok a c) e = ap (λ x. record db { coupon_db = x }) e
    go db (err x c) e = ap (λ x. record db { coupon_db = x }) e

get_subscription-Unchanged : (id : ℕ) → Within Unchanged (get_subscription id)
unfolding get_subscription
get_subscription-Unchanged id = record {
  holds = λ db.
      (Within-or_throw Unchanged (λ x. refl) (λ a b c e e'. e' ∙ e)
          (find_first (has_id id) db.subscriptions) not_found).holds
        db;
}

-- A redemption that throws has changed nothing.
apply_coupon-Clean :
    (now : Date) (id user : ℕ) (dto : RedeemCouponDto) → Clean (apply_coupon now id user dto)
unfolding apply_coupon
apply_coupon-Clean now id user dto = Clean->>= _ _ (get_subscription-Unchanged id) λ s.
    Clean->>= _ _
      (with_coupons-Unchanged (resolve_for_redemption now s.organization_id dto (redeemer_of s))
        (resolve_for_redemption-Same now s.organization_id dto (redeemer_of s)))
      λ r. Clean-transaction (redeem id user s.customer_id r.0 r.1)

apply_coupon-Counted :
    (now : Date) (id user : ℕ) (dto : RedeemCouponDto) (db : Db)
    → Counted db.coupon_db
    → Counted (state_of (apply_coupon now id user dto db)).coupon_db
apply_coupon-Counted now id user dto db inv = go (apply_coupon now id user dto db) refl
  where
    go :
        (o : Outcome Db SubscriptionCoupon)
        → apply_coupon now id user dto db ≡ o
        → Counted (state_of o).coupon_db
    go (ok row db') h =
        let (s, c, p, _, can, _, e) = apply_coupon_cases now id user dto db db' row h in
        subst (λ d. Counted d.coupon_db) (sym e)
          (redeemed-Counted id s.customer_id c p db.coupon_db can.found inv)
    go (err x db') h =
        subst (λ d. Counted d.coupon_db)
          (sym ((apply_coupon-Clean now id user dto).undone db x db' h)) inv

-- A redemption that is removed still counts.
end_redemption-Counted :
    (key : ℕ) (now : Date) (db : CouponDb) → Counted db → Counted (end_redemption key now db)
unfolding redemptions_of
end_redemption-Counted key now db inv = record {
  counts = λ k c found. inv.counts k c found ∙ sym (same k);
  fresh = λ k h. same k ∙ inv.fresh k h;
  given = inv.given;
}
  where
    same : (k : ℕ) → redemptions_of k (end_redemption key now db) ≡ redemptions_of k db
    same k =
        count_all-update_same (is_redemption_of k) (is_redemption key) _ db.subscription_coupons
          (λ x h. refl)

remove_coupon-tables :
    (now : Date) (id key user : ℕ) (db : Db)
    → ((state_of (remove_coupon now id key user db)).coupon_db ≡ db.coupon_db)
      ⊎ ((state_of (remove_coupon now id key user db)).coupon_db
          ≡ end_redemption key now db.coupon_db)
unfolding remove_coupon create_event
remove_coupon-tables now id key user db =
    elim (Option-cases (find_first (is_redemption key) db.coupon_db.subscription_coupons)) [
      | inl missing ↦ inl (ground arith)
      | inr (r, found) ↦ elim (Bool-cases (r.subscription_id == id && not (is_some r.removed_at))) [
        | inl here ↦ inr (ground arith)
        | inr other ↦ inl (ground arith)
      ]
    ]

remove_coupon-Counted :
    (now : Date) (id key user : ℕ) (db : Db)
    → Counted db.coupon_db
    → Counted (state_of (remove_coupon now id key user db)).coupon_db
remove_coupon-Counted now id key user db inv = elim (remove_coupon-tables now id key user db) [
  | inl e ↦ subst Counted (sym e) inv
  | inr e ↦ subst Counted (sym e) (end_redemption-Counted key now db.coupon_db inv)
]

-- A request that concerns coupons, with its time and its user.
pub data Redeems : Type 0 where
  serves : CouponRequest → Redeems
  applies : Date → ℕ → ℕ → RedeemCouponDto → Redeems
  removes : Date → ℕ → ℕ → ℕ → Redeems

unfoldable pub redeem_all : List Redeems → Db → Db
redeem_all [] db = db
redeem_all (serves q ∷ qs) db = redeem_all qs (on_coupons (serve_coupon q) db)
redeem_all (applies now id user dto ∷ qs) db =
    redeem_all qs (state_of (apply_coupon now id user dto db))
redeem_all (removes now id key user ∷ qs) db =
    redeem_all qs (state_of (remove_coupon now id key user db))

-- Through any sequence of requests to the services of coupons and promotion codes and of redemptions
-- and their removals, whichever of them throw, every coupon's count of redemptions is the number of
-- rows that record its redemptions, removed ones included.
pub redeem_all-Counted :
    (qs : List Redeems) (db : Db) → Counted db.coupon_db → Counted (redeem_all qs db).coupon_db
unfolding redeem_all
redeem_all-Counted [] db inv = inv
redeem_all-Counted (serves q ∷ qs) db inv =
    redeem_all-Counted qs (on_coupons (serve_coupon q) db) (serve_coupon-Counted q db.coupon_db inv)
redeem_all-Counted (applies now id user dto ∷ qs) db inv =
    redeem_all-Counted qs (state_of (apply_coupon now id user dto db))
      (apply_coupon-Counted now id user dto db inv)
redeem_all-Counted (removes now id key user ∷ qs) db inv =
    redeem_all-Counted qs (state_of (remove_coupon now id key user db))
      (remove_coupon-Counted now id key user db inv)
