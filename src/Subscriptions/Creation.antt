-- ===== src/Subscriptions/Creation.antt =====
-- create of apps/api/src/subscriptions/subscriptions.service.ts.
pub mod Trials
use paywall.Prelude.{
  ℕ, Bool, false, not, ◌&&◌, Option, none, some, [], ◌∷◌, ◌++◌, ◌==◌, get_or, is_some,
  if◌then◌else◌, Request, ◌>>=◌, ◌>>◌, return, guard, read, write, or_throw, transaction,
  find_first, not_found, record_not_found, conflict,
}
use paywall.Dates.{Date, add_days, add_billing_interval}
use paywall.Subscriptions.StateMachine.{trialing, active}
use paywall.Subscriptions.Model.{
  Db, Subscription, SubscriptionItem, Customer, Trial, running, SubscriptionEvent, Plan, Price,
  created, trial_started, no_metadata, is_given, subscription_created, trial_started_event,
  subscription_created_action, Publication, PlatformEventType,
}
use paywall.Subscriptions.Store.{
  has_id, get_price, find_event, create_event, record_audit, publish, fresh_id,
}

-- CreateSubscriptionDto
pub record CreateDto : Type 0 where
  pub idempotency_key : Option ℕ
  pub customer_id : ℕ
  pub plan_id : ℕ
  pub price_id : ℕ
  pub quantity : Option ℕ
  pub start_trial : Bool

-- `Boolean(dto.startTrial && plan.trialEligible && plan.trialDays)`: the days of the trial, if any.
abbrev pub trial_days_of : CreateDto → Plan → Option ℕ
trial_days_of dto plan =
    if dto.start_trial && plan.trial_eligible && is_given plan.trial_days
    then plan.trial_days
    else none

-- Two trials of one customer for one product: the unique constraint.
abbrev pub same_trial : Trial → Trial → Bool
same_trial t u = u.customer_id == t.customer_id && u.product_id == t.product_id

abbrev pub new_row : Date → ℕ → ℕ → CreateDto → Plan → Price → Option ℕ → Subscription
new_row now id organization_id dto plan price days = record {
  id = id;
  organization_id = organization_id;
  customer_id = dto.customer_id;
  product_id = plan.product_id;
  plan_id = dto.plan_id;
  application_id = plan.product_application_id;
  status = if is_some days then trialing else active;
  current_period_start = if is_some days then none else some now;
  current_period_end =
      if is_some days
      then none
      else some (add_billing_interval now price.interval price.interval_count);
  trial_start = if is_some days then some now else none;
  trial_end = if is_some days then some (add_days now (get_or days 0)) else none;
  cancel_at_period_end = false;
  canceled_at = none;
  cancellation_reason = none;
  grace_period_end = none;
  quantity = get_or dto.quantity 1;
  version = 1;
}

-- `tx.subscription.create` and `tx.subscriptionItem.create`
unfoldable pub create_subscription : Subscription → Request Db (Unit {0})
create_subscription row = write (λ db. record db { subscriptions = db.subscriptions ++ row ∷ [] })

unfoldable pub create_item : SubscriptionItem → Request Db (Unit {0})
create_item item = write (λ db. record db { items = db.items ++ item ∷ [] })

-- `tx.trial.create`, with every failure turned into a ConflictException.
unfoldable pub create_trial : Trial → Request Db (Unit {0})
create_trial t = do
  taken ← read (λ db. find_first (same_trial t) db.trials)
  guard (not (is_some taken)) conflict
  write (λ db. record db { trials = db.trials ++ t ∷ [] })

abbrev pub start_trial_row :
    Date → Option ℕ → Option ℕ → CreateDto → Plan → ℕ → Request Db (Unit {0})
start_trial_row now none ip dto plan id = return tt
start_trial_row now (some days) ip dto plan id = do
  trial_id ← fresh_id
  create_trial (record {
    id = trial_id;
    customer_id = dto.customer_id;
    product_id = plan.product_id;
    plan_id = dto.plan_id;
    subscription_id = some id;
    ends_at = add_days now days;
    status = running;
    converted_at = none;
    ip_address = ip;
  })

abbrev pub item_row : ℕ → ℕ → CreateDto → SubscriptionItem
item_row item_id id dto = record {
  id = item_id;
  subscription_id = id;
  price_id = dto.price_id;
  quantity = get_or dto.quantity 1;
}

abbrev pub creation_event : ℕ → CreateDto → Option ℕ → Subscription → SubscriptionEvent
creation_event user_id dto days row = record {
  subscription_id = row.id;
  type = if is_some days then trial_started else created;
  from_status = none;
  to_status = some row.status;
  idempotency_key = dto.idempotency_key;
  metadata = no_metadata;
  created_by_id = user_id;
}

-- The writes of the transaction, once the ids are drawn.
unfoldable pub insert_rows :
    Date → ℕ → Option ℕ → CreateDto → Plan → Option ℕ → ℕ → Subscription → Request Db Subscription
unfolding create_subscription create_item create_trial create_event fresh_id
insert_rows now user_id ip dto plan days item_id row = do
  create_subscription row
  create_item (item_row item_id row.id dto)
  start_trial_row now days ip dto plan row.id
  create_event (creation_event user_id dto days row)
  return row

unfoldable pub create_rows :
    Date → ℕ → ℕ → Option ℕ → CreateDto → Plan → Price → Request Db Subscription
unfolding insert_rows fresh_id
create_rows now organization_id user_id ip dto plan price = do
  id ← fresh_id
  item_id ← fresh_id
  insert_rows now user_id ip dto plan (trial_days_of dto plan) item_id
      (new_row now id organization_id dto plan price (trial_days_of dto plan))

abbrev pub announce : PlatformEventType → Subscription → Publication
announce type s = record {
  type = type;
  subscription_id = s.id;
  organization_id = s.organization_id;
  application_id = s.application_id;
  customer_id = s.customer_id;
}

abbrev pub announce_trial : Option ℕ → Subscription → Db → Db
announce_trial none s db = db
announce_trial (some days) s db = publish (announce trial_started_event s) db

-- The audit entry and the publications behind the transaction.
unfoldable pub announce_creation : ℕ → Option ℕ → Subscription → Request Db Subscription
unfolding record_audit publish
announce_creation user_id days row = do
  write (record_audit subscription_created_action user_id row.id)
  write (publish (announce subscription_created row))
  write (announce_trial days row)
  return row

-- `customer.findUniqueOrThrow` and `plan.findUniqueOrThrow`
unfoldable pub get_customer : ℕ → Request Db Customer
get_customer id db = or_throw (find_first (λ c. c.id == id) db.customers) record_not_found db

unfoldable pub get_plan : ℕ → Request Db Plan
get_plan id db = or_throw (find_first (λ p. p.id == id) db.plans) record_not_found db

abbrev pub in_organization : ℕ → Customer → Plan → Bool
in_organization organization_id customer plan =
    customer.organization_id == organization_id && plan.product_organization_id == organization_id

unfoldable pub create_new : Date → ℕ → ℕ → Option ℕ → CreateDto → Request Db Subscription
unfolding get_customer get_plan get_price create_rows announce_creation
create_new now organization_id user_id ip dto = do
  customer ← get_customer dto.customer_id
  plan ← get_plan dto.plan_id
  price ← get_price dto.price_id
  guard (in_organization organization_id customer plan) not_found
  row ← transaction (create_rows now organization_id user_id ip dto plan price)
  announce_creation user_id (trial_days_of dto plan) row

abbrev pub earlier : Option ℕ → Db → Option SubscriptionEvent
earlier key db = if is_given key then find_event key db else none

-- The subscription of an earlier event, or a new one.
abbrev pub existing_or :
    Option SubscriptionEvent → Request Db Subscription → Request Db Subscription
existing_or none m db = m db
existing_or (some e) m db =
    or_throw (find_first (has_id e.subscription_id) db.subscriptions) record_not_found db

unfoldable pub create : Date → ℕ → ℕ → Option ℕ → CreateDto → Request Db Subscription
unfolding find_event create_new
create now organization_id user_id ip dto = do
  event ← read (earlier dto.idempotency_key)
  existing_or event (create_new now organization_id user_id ip dto)
