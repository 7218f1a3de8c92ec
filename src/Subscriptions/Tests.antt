-- ===== src/Subscriptions/Tests.antt =====
-- Example data for the theorems of the subscription engine.
pub mod Rounding
mod Transitions
mod Histories
mod Billing
mod Redemptions
use paywall.Prelude.{ℕ, ◌*◌, Option, none, some, List, [], ◌∷◌, true, false, Outcome, ok, err}
use paywall.Coupons.{Coupon, CouponDb, percentage, once, active as coupon_active}
use paywall.Dates.{Date, month}
use paywall.Subscriptions.StateMachine.{SubscriptionStatus, active}
use paywall.Subscriptions.Model.{Db, Subscription, SubscriptionItem, Price, MutationOptions}

abbrev pub days : ℕ → Date
days n = n * 86400000

-- The result of a request, or a default.
abbrev pub result_or : {A : Type 0} → A → Outcome Db A → A
result_or a (ok b db) = b
result_or a (err e db) = a

-- A subscription in the status, in its first period, January 1970.
abbrev pub row_in : SubscriptionStatus → Subscription
row_in status = record {
  id = 1;
  organization_id = 10;
  customer_id = 4;
  product_id = 20;
  plan_id = 3;
  application_id = 30;
  status = status;
  current_period_start = some 0;
  current_period_end = some (days 31);
  trial_start = none;
  trial_end = none;
  cancel_at_period_end = false;
  canceled_at = none;
  cancellation_reason = none;
  grace_period_end = none;
  quantity = 1;
  version = 1;
}

abbrev pub price_of : ℕ → ℕ → Price
price_of id amount_minor = record {
  id = id;
  currency = 1;
  amount_minor = amount_minor;
  interval = month;
  interval_count = 1;
}

abbrev pub item : SubscriptionItem
item = record { id = 2; subscription_id = 1; price_id = 5; quantity = 1 }

abbrev pub coupon_at : ℕ → Coupon
coupon_at count = record {
  id = 40;
  organization_id = 10;
  code = 8;
  name = none;
  discount_type = percentage;
  amount_off_minor = none;
  percent_off = some 20;
  duration = once;
  duration_in_cycles = none;
  max_redemptions = some 1;
  redemption_count = count;
  product_id = some 20;
  plan_id = none;
  expires_at = none;
  status = coupon_active;
  created_by_id = 9;
}

-- One coupon, with one redemption left.
abbrev pub coupons_in : CouponDb
coupons_in = record {
  coupons = coupon_at 0 ∷ [];
  promotion_codes = [];
  subscription_coupons = [];
  coupon_audit = [];
  next_id = 50;
}

abbrev pub db_in : SubscriptionStatus → Db
db_in status = record {
  subscriptions = row_in status ∷ [];
  items = item ∷ [];
  trials = [];
  changes = [];
  events = [];
  prorations = [];
  prices = price_of 5 1000 ∷ price_of 6 3000 ∷ [];
  plans =
      record {
        id = 3;
        product_id = 20;
        product_organization_id = 10;
        product_application_id = 30;
        trial_eligible = true;
        trial_days = some 14;
      }
      ∷ [];
  customers = record { id = 4; organization_id = 10 } ∷ [];
  publications = [];
  financial_events = [];
  audit = [];
  coupon_db = coupons_in;
  next_id = 100;
}

abbrev pub no_options : MutationOptions
no_options = record { idempotency_key = none; expected_version = none }

abbrev pub keyed : MutationOptions
keyed = record { idempotency_key = some 77; expected_version = none }

abbrev pub at_first_version : MutationOptions
at_first_version = record { idempotency_key = none; expected_version = some 1 }
