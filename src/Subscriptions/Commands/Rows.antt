-- ===== src/Subscriptions/Commands/Rows.antt =====
-- What each request does to the table of subscriptions.
use paywall.Prelude.{
  ℕ, suc, ◌≤◌, ◌≡◌, refl, ◌⊎◌, inl, inr, Bool, Option, none, some, List, [], ◌∷◌, ◌++◌, ◌==◌, arith,
  find_first, update_all, find_first-append, Outcome, ok, err, Request, ◌>>=◌, Bool-cases,
  Option-cases, state_of, Within, Error, or_throw, Within->>=, Within-transaction, Within-guard,
  Within-or_throw, Within-read, Within-return, record_not_found, not_found, guard, return, read,
  write,
}
use paywall.Coupons.{Coupon, PromotionCode, CouponDb, RedeemCouponDto}
use paywall.Coupons.Eligibility.{resolve_for_redemption}
use paywall.Subscriptions.Redemption.{
  on_coupons, with_coupons, promotion_id, new_redemption, insert_redemption, count_coupon,
  count_promotion, coupon_event, redeem, redeemer_of, apply_coupon, remove_coupon,
}
use paywall.Dates.{Date}
use paywall.Subscriptions.Proration.{Scale}
use paywall.Subscriptions.StateMachine.{is_status, trialing}
use paywall.Subscriptions.Model.{
  coupon_applied, coupon, Db, Subscription, SubscriptionEvent, Plan, Price, Trial, SubscriptionItem,
}
use paywall.Subscriptions.Store.{
  has_id, get_subscription, get_price, publish, create_event, fresh_id,
}
use paywall.Subscriptions.Transition.{ProrationInfo, run_transition, run_transition_info}
use paywall.Subscriptions.Lifecycle.{extend_trial}
use paywall.Subscriptions.Changes.{
  ChangeDto, Change, report, record_financial, after_change, schedule_change, change_compute,
  change_now, cancel_scheduled_change,
}
use paywall.Subscriptions.Cancellation.{
  CancelDto, flag_cancel, cancel_later, cancel_compute, after_cancel, cancel_now,
}
use paywall.Subscriptions.Creation.{
  CreateDto, trial_days_of, existing_or, earlier, announce_trial, announce_creation, get_customer,
  get_plan, in_organization, start_trial_row, create_subscription, create_item, create_trial,
  item_row, creation_event, insert_rows, new_row, create_rows, create_new, create,
}

abbrev Rows : Type 0
Rows = List Subscription

pub schedule_change_rows :
    (now : Date) (id user : ℕ) (dto : ChangeDto) (s : Subscription) (db : Db)
    → (state_of (schedule_change now id user dto s db)).subscriptions ≡ db.subscriptions
unfolding schedule_change
schedule_change_rows now id user dto s db = ground arith

pub cancel_scheduled_change_rows :
    (now : Date) (id change_id user : ℕ) (db : Db)
    → (state_of (cancel_scheduled_change now id change_id user db)).subscriptions ≡ db.subscriptions
unfolding cancel_scheduled_change
cancel_scheduled_change_rows now id change_id user db = ground arith

-- A write in place that keeps the ids and the statuses, and lowers no version.
pub record Keeps (f : Subscription → Subscription) : Type 0 where
  pub id : (s : Subscription) → (f s).id ≡ s.id
  pub status : (s : Subscription) → (f s).status ≡ s.status
  pub version : (s : Subscription) → s.version ≤ (f s).version

abbrev pub Touches : ℕ → Rows → Rows → Type 0
Touches id rows rows' =
    (rows' ≡ rows)
    ⊎ ((f : Subscription → Subscription) × (rows' ≡ update_all (has_id id) f rows) × Keeps f)

pub cancel_later_rows :
    (now : Date) (id user : ℕ) (dto : CancelDto) (db : Db)
    → Touches id db.subscriptions (state_of (cancel_later now id user dto db)).subscriptions
unfolding cancel_later
cancel_later_rows now id user dto db =
    elim (Option-cases (find_first (has_id id) db.subscriptions)) [
      | inl missing ↦ inl (ground arith)
      | inr (s, found) ↦ inr (
        flag_cancel dto.why,
        ground arith,
        record { id = λ s. refl; status = λ s. refl; version = λ s. omega arith },
      )
    ]

pub extend_trial_rows :
    (id : ℕ) (ends : Date) (db : Db)
    → Touches id db.subscriptions (state_of (extend_trial id ends db)).subscriptions
unfolding extend_trial
extend_trial_rows id ends db = elim (Option-cases (find_first (has_id id) db.subscriptions)) [
  | inl missing ↦ inl (ground arith)
  | inr (s, found) ↦ elim (Bool-cases (is_status s.status trialing)) [
    | inl trial ↦ inr (
      (λ t. record t { trial_end = some ends; version = suc t.version }),
      ground arith,
      record { id = λ s. refl; status = λ s. refl; version = λ s. omega arith },
    )
    | inr other ↦ inl (ground arith)
  ]
]

-- The rows after a cancellation at once are those after its transition.
module _ (now : Date) (id user : ℕ) (dto : CancelDto) where
  pub cancel_now_rows :
      (db : Db)
      → (state_of (cancel_now now id user dto db)).subscriptions
        ≡ (state_of (run_transition id dto.options user (cancel_compute now dto) db)).subscriptions
  unfolding cancel_now
  cancel_now_rows db = go (run_transition id dto.options user (cancel_compute now dto) db)
    where
      go :
          (o : Outcome Db Subscription)
          → (state_of (elim o as (λ _. Outcome Db Subscription) [
            | ok t d ↦ after_cancel id user t d
            | err e d ↦ err e d
          ])).subscriptions
            ≡ (state_of o).subscriptions
      go (ok t d) = ground arith
      go (err e d) = refl

-- So too for an immediate change and its financial event.
record_financial-rows :
    (s : Subscription) (info : Option ProrationInfo) (db : Db)
    → (report s info db).subscriptions ≡ db.subscriptions
unfolding record_financial
record_financial-rows s none db = refl
record_financial-rows s (some info) db = ground arith

module _ (scale : Scale) (now : Date) (id user : ℕ) (dto : ChangeDto) (s : Subscription) where
  pub change_now_rows :
      (db : Db)
      → (state_of (change_now scale now id user dto s db)).subscriptions
        ≡ (state_of
            (run_transition id dto.options user (change_compute scale now dto) db)).subscriptions
  unfolding change_now run_transition
  change_now_rows db =
      go (run_transition_info id dto.options user (change_compute scale now dto) db)
    where
      go :
          (o : Outcome Db (Subscription × Option ProrationInfo))
          → (state_of (elim o as (λ _. Outcome Db Change) [
            | ok r d ↦ after_change s r d
            | err e d ↦ err e d
          ])).subscriptions
            ≡ (state_of (elim o as (λ _. Outcome Db Subscription) [
              | ok r d ↦ ok r.0 d
              | err e d ↦ err e d
            ])).subscriptions
      go (ok (t, info) d) = record_financial-rows s info d
      go (err e d) = refl

-- A row that is there stays as it is.
abbrev pub Extends : Db → Db → Type 0
Extends db db' =
    (key : ℕ) (s : Subscription)
    → find_first (has_id key) db.subscriptions ≡ some s
    → find_first (has_id key) db'.subscriptions ≡ some s

-- Writes that leave the table of subscriptions alone, or add a row at its end.
Extends-same : (db db' : Db) → db'.subscriptions ≡ db.subscriptions → Extends db db'
Extends-same db db' e key s h = rw e h

Extends-append :
    (db : Db) (row : Subscription)
    → Extends db (record db { subscriptions = db.subscriptions ++ row ∷ [] })
Extends-append db row key s h = rw (find_first-append (has_id key) db.subscriptions (row ∷ []), h)

Extends-refl : (db : Db) → Extends db db
Extends-refl db key s h = h

Extends-trans : (a b c : Db) → Extends a b → Extends b c → Extends a c
Extends-trans a b c f g key s h = g key s (f key s h)

bind :
    {A B : Type 0} (m : Request Db A) (f : A → Request Db B)
    → Within Extends m
    → ((a : A) → Within Extends (f a))
    → Within Extends (m >>= f)
bind m f = Within->>= Extends Extends-refl Extends-trans m f

or_throw-Extends : {A : Type 0} (o : Option A) (e : Error) → Within Extends (or_throw o e)
or_throw-Extends o e = Within-or_throw Extends Extends-refl Extends-trans o e

read-Extends : {A : Type 0} (f : Db → A) → Within Extends (read f)
read-Extends f = Within-read Extends Extends-refl Extends-trans f

return-Extends : {A : Type 0} (a : A) → Within Extends (return a)
return-Extends a = Within-return Extends Extends-refl Extends-trans a

guard-Extends : (b : Bool) (e : Error) → Within Extends (guard b e)
guard-Extends b e = Within-guard Extends Extends-refl Extends-trans b e

write-Extends :
    (f : Db → Db) → ((db : Db) → (f db).subscriptions ≡ db.subscriptions) → Within Extends (write f)
write-Extends f h = record { holds = λ db. Extends-same db (f db) (h db) }

fresh_id-Extends : Within Extends fresh_id
unfolding fresh_id
fresh_id-Extends = record { holds = λ db key s h. h }

create_event-Extends : (e : SubscriptionEvent) → Within Extends (create_event e)
unfolding create_event
create_event-Extends e = record {
  holds = λ db. Extends-same db (state_of (create_event e db)) (ground arith);
}

create_subscription-Extends : (row : Subscription) → Within Extends (create_subscription row)
unfolding create_subscription
create_subscription-Extends row = record { holds = λ db. Extends-append db row }

create_item-Extends : (item : SubscriptionItem) → Within Extends (create_item item)
unfolding create_item
create_item-Extends item = record { holds = λ db key s h. h }

create_trial-Extends : (t : Trial) → Within Extends (create_trial t)
unfolding create_trial
create_trial-Extends e = record {
  holds = λ db. Extends-same db (state_of (create_trial e db)) (ground arith);
}

start_trial_row-Extends :
    (now : Date) (days ip : Option ℕ) (dto : CreateDto) (plan : Plan) (id : ℕ)
    → Within Extends (start_trial_row now days ip dto plan id)
start_trial_row-Extends now none ip dto plan id = return-Extends tt
start_trial_row-Extends now (some days) ip dto plan id =
    bind _ _ fresh_id-Extends λ trial_id. create_trial-Extends _

insert_rows-Extends :
    (now : Date) (user : ℕ) (ip : Option ℕ) (dto : CreateDto) (plan : Plan) (days : Option ℕ)
    (item_id : ℕ) (row : Subscription)
    → Within Extends (insert_rows now user ip dto plan days item_id row)
unfolding insert_rows
insert_rows-Extends now user ip dto plan days item_id row =
    bind _ _ (create_subscription-Extends row) λ _.
      bind _ _ (create_item-Extends (item_row item_id row.id dto)) λ _.
        bind _ _ (start_trial_row-Extends now days ip dto plan row.id) λ _.
          bind _ _ (create_event-Extends (creation_event user dto days row)) λ _. return-Extends row

create_rows-Extends :
    (now : Date) (organization user : ℕ) (ip : Option ℕ) (dto : CreateDto) (plan : Plan)
    (price : Price)
    → Within Extends (create_rows now organization user ip dto plan price)
unfolding create_rows
create_rows-Extends now organization user ip dto plan price = bind _ _ fresh_id-Extends λ id.
    bind _ _ fresh_id-Extends λ item_id.
      insert_rows-Extends now user ip dto plan (trial_days_of dto plan) item_id
        (new_row now id organization dto plan price (trial_days_of dto plan))

get_price-Extends : (id : ℕ) → Within Extends (get_price id)
unfolding get_price
get_price-Extends id = record {
  holds =
      λ db. (or_throw-Extends (find_first (λ p. p.id == id) db.prices) record_not_found).holds db;
}

get_plan-Extends : (id : ℕ) → Within Extends (get_plan id)
unfolding get_plan
get_plan-Extends id = record {
  holds =
      λ db. (or_throw-Extends (find_first (λ p. p.id == id) db.plans) record_not_found).holds db;
}

get_customer-Extends : (id : ℕ) → Within Extends (get_customer id)
unfolding get_customer
get_customer-Extends id = record {
  holds = λ db.
      (or_throw-Extends (find_first (λ c. c.id == id) db.customers) record_not_found).holds db;
}

announce_trial-rows :
    (days : Option ℕ) (s : Subscription) (db : Db)
    → (announce_trial days s db).subscriptions ≡ db.subscriptions
unfolding publish
announce_trial-rows none s db = refl
announce_trial-rows (some d) s db = refl

announce_creation-Extends :
    (user : ℕ) (days : Option ℕ) (row : Subscription)
    → Within Extends (announce_creation user days row)
unfolding announce_creation
announce_creation-Extends user days row = record {
  holds = λ db.
      Extends-same db (state_of (announce_creation user days row db))
        (announce_trial-rows days row _);
}

create_new-Extends :
    (now : Date) (organization user : ℕ) (ip : Option ℕ) (dto : CreateDto)
    → Within Extends (create_new now organization user ip dto)
unfolding create_new
create_new-Extends now organization user ip dto =
    bind _ _ (get_customer-Extends dto.customer_id) λ customer.
      bind _ _ (get_plan-Extends dto.plan_id) λ plan.
        bind _ _ (get_price-Extends dto.price_id) λ price.
          bind _ _ (guard-Extends (in_organization organization customer plan) not_found) λ _.
            bind _ _
              (Within-transaction Extends Extends-refl Extends-trans
                (create_rows now organization user ip dto plan price)
                (create_rows-Extends now organization user ip dto plan price))
              λ row. announce_creation-Extends user (trial_days_of dto plan) row

-- Creating a subscription changes no row that was there.
pub create-Extends :
    (now : Date) (organization user : ℕ) (ip : Option ℕ) (dto : CreateDto)
    → Within Extends (create now organization user ip dto)
unfolding create
create-Extends now organization user ip dto =
    bind _ _ (read-Extends (earlier dto.idempotency_key)) go
  where
    go :
        (o : Option SubscriptionEvent)
        → Within Extends (existing_or o (create_new now organization user ip dto))
    go none = record { holds = (create_new-Extends now organization user ip dto).holds }
    go (some e) = record {
      holds = λ db.
          (or_throw-Extends (find_first (has_id e.subscription_id) db.subscriptions)
              record_not_found).holds
            db;
    }

-- Neither does a redemption, nor its end.
with_coupons-Extends : {A : Type 0} (m : Request CouponDb A) → Within Extends (with_coupons m)
with_coupons-Extends {A} m = record { holds = λ db. go db (m db.coupon_db) }
  where
    go :
        (db : Db) (o : Outcome CouponDb A)
        → Extends db (
            state_of (elim o as (λ _. Outcome Db A) [
              | ok a c ↦ ok a (record db { coupon_db = c })
              | err e c ↦ err e (record db { coupon_db = c })
            ]))
    go db (ok a c) key s h = h
    go db (err e c) key s h = h

redeem-Extends :
    (id user customer : ℕ) (c : Coupon) (p : Option PromotionCode)
    → Within Extends (redeem id user customer c p)
unfolding redeem
redeem-Extends id user customer c p = bind _ _ (read-Extends (λ db. db.coupon_db.next_id)) λ key.
    bind _ _
      (write-Extends (on_coupons (insert_redemption (new_redemption key id customer c p)))
        (λ db. refl))
      λ _. bind _ _ (write-Extends (on_coupons (count_coupon c)) (λ db. refl)) λ _.
        bind _ _ (write-Extends (on_coupons (count_promotion p)) (λ db. refl)) λ _.
          bind _ _
            (create_event-Extends
              (coupon_event id user coupon_applied (coupon c.id (promotion_id p))))
            λ _. return-Extends (new_redemption key id customer c p)

get_subscription-Extends : (id : ℕ) → Within Extends (get_subscription id)
unfolding get_subscription
get_subscription-Extends id = record {
  holds = λ db. (or_throw-Extends (find_first (has_id id) db.subscriptions) not_found).holds db;
}

pub apply_coupon-Extends :
    (now : Date) (id user : ℕ) (dto : RedeemCouponDto)
    → Within Extends (apply_coupon now id user dto)
unfolding apply_coupon
apply_coupon-Extends now id user dto = bind _ _ (get_subscription-Extends id) λ s.
    bind _ _
      (with_coupons-Extends (resolve_for_redemption now s.organization_id dto (redeemer_of s)))
      λ r.
        Within-transaction Extends Extends-refl Extends-trans (redeem id user s.customer_id r.0 r.1)
          (redeem-Extends id user s.customer_id r.0 r.1)

pub remove_coupon_rows :
    (now : Date) (id key user : ℕ) (db : Db)
    → (state_of (remove_coupon now id key user db)).subscriptions ≡ db.subscriptions
unfolding remove_coupon
remove_coupon_rows now id key user db = ground arith
