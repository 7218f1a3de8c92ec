-- ===== src/Subscriptions/Redemption/Counts.antt =====
-- Redemptions and their counts.
use paywall.Prelude.{
  ℕ, suc, ◌+◌, ◌≤◌, ◌≡◌, refl, sym, ◌∙◌, ap, inl, inr, Bool, true, false, Option, none, some, List,
  [], ◌∷◌, ◌++◌, ◌==◌, ==_iff, arith, Bool-cases, find_first, find_first-true,
  find_first-update_inv, count_all, count_all-append, Outcome, ok, err, ok_injective, >>=-eq-ok,
  transaction-eq-ok, Request, ◌>>=◌, not_found, or_throw-then, transaction,
}
use paywall.Dates.{Date}
use paywall.Coupons.{
  Coupon, PromotionCode, SubscriptionCoupon, CouponDb, RedeemCouponDto, has_coupon_id,
}
use paywall.Coupons.Eligibility.{resolve_for_redemption}
use paywall.Coupons.Eligibility.Cases.{Redeemable, resolve-Redeemable}
use paywall.Coupons.Counting.{is_redemption_of, redemptions_of, Counted, Counted-same, rewrite_none}
use paywall.Subscriptions.Model.{
  Db, Subscription, SubscriptionEvent, SubscriptionEventType, Metadata, coupon, coupon_applied,
}
use paywall.Subscriptions.Store.{has_id, get_subscription, same_key, find_event, create_event}
use paywall.Subscriptions.Redemption.{
  with_coupons, promotion_id, new_redemption, insert_redemption, counted_once, count_coupon,
  count_promotion, coupon_event, redeem, redeemer_of, apply_coupon,
}

-- The coupons' tables after the writes of a redemption.
abbrev pub redeemed : ℕ → ℕ → Coupon → Option PromotionCode → CouponDb → CouponDb
redeemed id customer c p db =
    count_promotion p
      (count_coupon c (insert_redemption (new_redemption db.next_id id customer c p) db))

pub count_promotion_coupons :
    (p : Option PromotionCode) (db : CouponDb)
    → ((count_promotion p db).coupons ≡ db.coupons)
      × ((count_promotion p db).subscription_coupons ≡ db.subscription_coupons)
      × ((count_promotion p db).next_id ≡ db.next_id)
count_promotion_coupons none db = (refl, refl, refl)
count_promotion_coupons (some p) db = (refl, refl, refl)

abbrev pub one_if : Bool → ℕ
one_if true = 1
one_if false = 0

-- A redemption of a coupon of the table.
pub redeemed-Counted :
    (id customer : ℕ) (c : Coupon) (p : Option PromotionCode) (db : CouponDb)
    → find_first (has_coupon_id c.id) db.coupons ≡ some c
    → Counted db
    → Counted (redeemed id customer c p db)
unfolding redemptions_of count_all
redeemed-Counted id customer c p db found inv =
    let (e, e', e'') = count_promotion_coupons p counted in
    Counted-same counted (redeemed id customer c p db) e e' (omega arith) (record {
      counts = λ key d h.
          let (b, found', cases) =
            find_first-update_inv (has_coupon_id key) (has_coupon_id c.id) counted_once db.coupons
              (λ x. refl) h in
          let at = (==_iff b.id key).0 (find_first-true (has_coupon_id key) db.coupons found') in
          elim cases [
            | inl (hit, e₁) ↦
                ap (λ x. x.redemption_count) e₁
                ∙ omega (
                  arith,
                  inv.counts key b found',
                  added key,
                  here key ((==_iff b.id c.id).0 hit) at,
                )
            | inr (miss, e₁) ↦
                ap (λ x. x.redemption_count) e₁
                ∙ omega (arith, inv.counts key b found', added key, there key b at miss)
          ];
      fresh = λ key h. omega (arith, added key, inv.fresh key (omega arith), away key h);
      given = λ key h. rewrite_none c.id key _ db (λ x. refl) (inv.given key (omega arith));
    })
  where
    row : SubscriptionCoupon
    row = new_redemption db.next_id id customer c p

    counted : CouponDb
    counted = count_coupon c (insert_redemption row db)

    added :
        (key : ℕ)
        → count_all (is_redemption_of key) (db.subscription_coupons ++ row ∷ [])
          ≡ count_all (is_redemption_of key) db.subscription_coupons + one_if (c.id == key)
    added key =
        count_all-append (is_redemption_of key) db.subscription_coupons (row ∷ []) ∙ ground arith

    here : (key : ℕ) {k : ℕ} → k ≡ c.id → k ≡ key → one_if (c.id == key) ≡ 1
    here key e e' = ground arith

    there : (key : ℕ) (b : Coupon) → b.id ≡ key → (b.id == c.id) ≡ false → one_if (c.id == key) ≡ 0
    there key b e miss = ground arith

    away : (key : ℕ) → suc db.next_id ≤ key → one_if (c.id == key) ≡ 0
    away key h = elim (Bool-cases (c.id == key)) [
      | inl e ↦ cc (
        inv.given key (omega arith),
        ap (λ k. find_first (has_coupon_id k) db.coupons) ((==_iff c.id key).0 e),
        found,
      )
      | inr e ↦ rw e refl
    ]

no_key : (es : List SubscriptionEvent) → find_first (same_key none) es ≡ none
unfolding find_first
no_key [] = refl
no_key (e ∷ es) = no_key es

-- The event of a coupon has no key, so it is always written.
pub coupon_event_written :
    (id user : ℕ) (type : SubscriptionEventType) (what : Metadata) (db : Db)
    → create_event (coupon_event id user type what) db
      ≡ ok tt (record db { events = db.events ++ coupon_event id user type what ∷ [] })
unfolding create_event find_event
coupon_event_written id user type what db = rw (no_key db.events, create_event, ◌>>=◌) refl

-- The database after a redemption.
abbrev pub after_redeem : ℕ → ℕ → ℕ → Coupon → Option PromotionCode → Db → Db
after_redeem id user customer c p db = record db {
  coupon_db = redeemed id customer c p db.coupon_db;
  events = db.events ++ coupon_event id user coupon_applied (coupon c.id (promotion_id p)) ∷ [];
}

pub redeem_eq :
    (id user customer : ℕ) (c : Coupon) (p : Option PromotionCode) (db : Db)
    → redeem id user customer c p db
      ≡ ok
          (new_redemption db.coupon_db.next_id id customer c p)
          (after_redeem id user customer c p db)
unfolding redeem
redeem_eq id user customer c p db =
    rw
      (
        coupon_event_written id user coupon_applied (coupon c.id (promotion_id p))
            (record db { coupon_db = redeemed id customer c p db.coupon_db }),
        redeem,
        ◌>>=◌,
      )
      refl

pub with_coupons-eq-ok :
    {A : Type 0} (m : Request CouponDb A) (db db' : Db) (a : A)
    → with_coupons m db ≡ ok a db'
    → (c : CouponDb) × (m db.coupon_db ≡ ok a c) × (db' ≡ record db { coupon_db = c })
with_coupons-eq-ok {A} m db db' a h = go (m db.coupon_db) refl h
  where
    go :
        (o : Outcome CouponDb A)
        → m db.coupon_db ≡ o
        → elim o as (λ _. Outcome Db A) [
          | ok a c ↦ ok a (record db { coupon_db = c })
          | err e c ↦ err e (record db { coupon_db = c })
        ]
          ≡ ok a db'
        → (c : CouponDb) × (m db.coupon_db ≡ ok a c) × (db' ≡ record db { coupon_db = c })
    go (ok b c) e h' =
        let (same, same') = ok_injective h' in (c, e ∙ ap (λ x. ok x c) same, sym same')
    go (err x c) e h' = cc

-- `applyCoupon`, where it succeeds: it redeems, once, a coupon that can be redeemed.
pub apply_coupon_cases :
    (now : Date) (id user : ℕ) (dto : RedeemCouponDto) (db db' : Db) (row : SubscriptionCoupon)
    → apply_coupon now id user dto db ≡ ok row db'
    → (s : Subscription) × (c : Coupon) × (p : Option PromotionCode) × (find_first
          (has_id id)
          db.subscriptions
        ≡ some s)
      × Redeemable now s.organization_id (redeemer_of s) db.coupon_db c p
      × (row ≡ new_redemption db.coupon_db.next_id id s.customer_id c p)
      × (db' ≡ after_redeem id user s.customer_id c p db)
unfolding apply_coupon get_subscription
apply_coupon_cases now id user dto db db' row h =
    let (s, found, h₁) =
      or_throw-then (find_first (has_id id) db.subscriptions) not_found
        (λ s.
          with_coupons (resolve_for_redemption now s.organization_id dto (redeemer_of s)) >>= λ r.
          transaction (redeem id user s.customer_id r.0 r.1))
        db h in
    let ((c, p), d, resolved, h₂) =
      >>=-eq-ok (with_coupons (resolve_for_redemption now s.organization_id dto (redeemer_of s)))
        (λ r. transaction (redeem id user s.customer_id r.0 r.1)) db h₁ in
    let (cs, e₁, e₂) =
      with_coupons-eq-ok (resolve_for_redemption now s.organization_id dto (redeemer_of s)) db d
        (c, p) resolved in
    let (kept, can) =
      resolve-Redeemable now s.organization_id dto (redeemer_of s) db.coupon_db cs c p e₁ in
    let back : d ≡ db = e₂ ∙ ap (λ x. record db { coupon_db = x }) kept in
    let done = transaction-eq-ok (redeem id user s.customer_id c p) d h₂ in
    let (e₃, e₄) = ok_injective (
      sym (redeem_eq id user s.customer_id c p db)
      ∙ ap (redeem id user s.customer_id c p) (sym back)
      ∙ done) in
    (s, c, p, found, can, sym e₃, sym e₄)
