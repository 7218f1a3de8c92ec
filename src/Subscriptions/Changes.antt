-- ===== src/Subscriptions/Changes.antt =====
-- applyChange and cancelScheduledChange of apps/api/src/subscriptions/subscriptions.service.ts.
-- `scale` is the rounding of the proration (Subscriptions.Proration).
pub mod Retries
pub mod Charges
use paywall.Prelude.{
  ℕ, Bool, true, false, ◌*◌, ◌&&◌, ◌||◌, Option, none, some, [], ◌∷◌, ◌++◌, ◌==◌, leb, get_or,
  is_some, if◌then◌else◌, Request, ◌>>=◌, ◌>>◌, return, guard, read, write, find_first, not_found,
  or_throw,
}
use paywall.Prelude.Int.{ℤ, pos, negsuc, abs}
use paywall.Dates.{Date, add_billing_interval}
use paywall.Subscriptions.StateMachine.{active}
use paywall.Subscriptions.Proration.{Scale, ProrationResult, calculate_proration}
use paywall.Subscriptions.Model.{
  Db, Subscription, SubscriptionItem, Price, SubscriptionChange, SubscriptionChangeType, upgrade,
  downgrade, interval_change, seat_change, pending, canceled_change, SubscriptionEventType,
  upgraded, downgraded, interval_changed, seats_changed, scheduled_change_created,
  scheduled_change_canceled, change, proration, ProrationRecord, MutationOptions, ProrationReason,
  upgrade_reason, downgrade_reason, seat_increase, seat_decrease, interval_change_reason,
  FinancialEvent, subscription_change_scheduled_action, subscription_change_canceled_action,
}
use paywall.Subscriptions.Store.{
  get_subscription, get_item, update_item, get_price, update_change, create_event, record_audit,
  fresh_id,
}
use paywall.Subscriptions.Transition.{
  no_update, ProrationInfo, TransitionResult, Compute, run_transition_info,
}
use paywall.Subscriptions.Renewal.{is_pending}

-- CreateSubscriptionChangeDto
pub record ChangeDto : Type 0 where
  pub options : MutationOptions
  pub type : SubscriptionChangeType
  pub target_plan_id : Option ℕ
  pub target_price_id : Option ℕ
  pub target_quantity : Option ℕ
  pub immediate : Bool

unfoldable pub proration_reason_for : SubscriptionChangeType → ℕ → ℕ → ProrationReason
proration_reason_for upgrade old_quantity new_quantity = upgrade_reason
proration_reason_for downgrade old_quantity new_quantity = downgrade_reason
proration_reason_for seat_change old_quantity new_quantity =
    if leb old_quantity new_quantity then seat_increase else seat_decrease
proration_reason_for interval_change old_quantity new_quantity = interval_change_reason
proration_reason_for _ old_quantity new_quantity = upgrade_reason

unfoldable pub event_type_for : SubscriptionChangeType → SubscriptionEventType
event_type_for upgrade = upgraded
event_type_for downgrade = downgraded
event_type_for interval_change = interval_changed
event_type_for seat_change = seats_changed
event_type_for _ = upgraded

abbrev pub new_price_of : Option ℕ → Price → Request Db Price
new_price_of none current = return current
new_price_of (some price_id) current = get_price price_id

-- `if (dto.targetPriceId || dto.targetQuantity !== undefined || dto.targetPlanId)`
abbrev moves_item : ChangeDto → Bool
moves_item dto =
    is_some dto.target_price_id || is_some dto.target_quantity || is_some dto.target_plan_id

abbrev move_item : Bool → SubscriptionItem → Price → ℕ → Db → Db
move_item true item price quantity db =
    update_item item.id (λ i. record i { price_id = price.id; quantity = quantity }) db
move_item false item price quantity db = db

-- The period that is prorated: the row's, or one that starts now.
abbrev pub period_start_of : Date → Subscription → Date
period_start_of now current = get_or current.current_period_start now

abbrev pub period_end_of : Date → Subscription → Price → Date
period_end_of now current new_price =
    get_or current.current_period_end (
      add_billing_interval (period_start_of now current) new_price.interval
        new_price.interval_count)

abbrev pub prorate :
    Scale → Date → ChangeDto → Subscription → SubscriptionItem → Price → Price → ProrationResult
prorate scale now dto current item price new_price = calculate_proration scale (record {
  period_start = period_start_of now current;
  period_end = period_end_of now current new_price;
  now = now;
  old_amount_minor = price.amount_minor * item.quantity;
  new_amount_minor = new_price.amount_minor * get_or dto.target_quantity current.quantity;
})

abbrev pub proration_row :
    Date
    → ChangeDto
    → Subscription
    → SubscriptionItem
    → Price
    → ProrationResult
    → ℕ
    → ProrationRecord
proration_row now dto current item new_price result id = record {
  id = id;
  subscription_id = current.id;
  reason =
      proration_reason_for dto.type item.quantity (get_or dto.target_quantity current.quantity);
  credit_minor = result.credit_minor;
  charge_minor = result.charge_minor;
  net_minor = result.net_minor;
  currency = new_price.currency;
  period_start = period_start_of now current;
  period_end = period_end_of now current new_price;
}

abbrev pub change_result : ChangeDto → Subscription → ProrationRecord → TransitionResult
change_result dto current row = record {
  to_status = active;
  event_type = event_type_for dto.type;
  update = record no_update {
    plan_id = some (get_or dto.target_plan_id current.plan_id);
    quantity = some (get_or dto.target_quantity current.quantity);
  };
  metadata = proration row.net_minor row.currency;
  info = some (record { id = row.id; net_minor = row.net_minor; currency = row.currency });
}

-- The writes of the computation, once the rows are read.
abbrev pub book_change :
    ChangeDto
    → Subscription
    → SubscriptionItem
    → Price
    → (ℕ → ProrationRecord)
    → Request Db TransitionResult
book_change dto current item new_price row_of = do
  record_id ← fresh_id
  write (λ db. record db { prorations = db.prorations ++ row_of record_id ∷ [] })
  write (move_item (moves_item dto) item new_price (get_or dto.target_quantity current.quantity))
  return (change_result dto current (row_of record_id))

unfoldable pub change_compute : Scale → Date → ChangeDto → Compute
unfolding get_item get_price update_item fresh_id
change_compute scale now dto current = do
  item ← get_item current.id
  price ← get_price item.price_id
  new_price ← new_price_of dto.target_price_id price
  book_change dto current item new_price (
      proration_row now dto current item new_price
        (prorate scale now dto current item price new_price))

-- `info.netMinor >= 0`
abbrev pub is_nonneg : ℤ → Bool
is_nonneg (pos n) = true
is_nonneg (negsuc n) = false

-- FinancialEventsService.record, for the key of a proration record: one event to a key.
abbrev pub has_proration : ℕ → FinancialEvent → Bool
has_proration key e = e.idempotency_key == key

abbrev pub financial_row : Subscription → ProrationInfo → FinancialEvent
financial_row s info = record {
  organization_id = s.organization_id;
  is_charge = is_nonneg info.net_minor;
  proration_record_id = info.id;
  subscription_id = s.id;
  net_minor = info.net_minor;
  amount_minor = abs info.net_minor;
  currency = info.currency;
  idempotency_key = info.id;
}

unfoldable pub record_financial : Subscription → ProrationInfo → Db → Db
record_financial s info db =
    if is_some (find_first (has_proration info.id) db.financial_events)
    then db
    else record db { financial_events = db.financial_events ++ financial_row s info ∷ [] }

abbrev pub report : Subscription → Option ProrationInfo → Db → Db
report s none db = db
report s (some info) db = record_financial s info db

-- What applyChange returns.
pub data Change : Type 0 where
  scheduled : SubscriptionChange → Change
  changed : Subscription → Change

unfoldable pub schedule_change : Date → ℕ → ℕ → ChangeDto → Subscription → Request Db Change
unfolding create_event record_audit fresh_id
schedule_change now id user_id dto s = do
  change_id ← fresh_id
  let row : SubscriptionChange = record {
    id = change_id;
    subscription_id = id;
    type = dto.type;
    status = pending;
    target_plan_id = dto.target_plan_id;
    target_price_id = dto.target_price_id;
    target_quantity = dto.target_quantity;
    effective_at = get_or s.current_period_end now;
    applied_at = none;
    canceled_at = none;
    created_by_id = user_id;
  }
  write (λ db. record db { changes = db.changes ++ row ∷ [] })
  create_event (record {
    subscription_id = id;
    type = scheduled_change_created;
    from_status = none;
    to_status = none;
    idempotency_key = dto.options.idempotency_key;
    metadata = change change_id;
    created_by_id = user_id;
  })
  write (record_audit subscription_change_scheduled_action user_id id)
  return (scheduled row)

-- The financial event behind the transition.
abbrev pub after_change : Subscription → Subscription × Option ProrationInfo → Request Db Change
after_change s (t, info) = do write (report s info); return (changed t)

unfoldable pub change_now : Scale → Date → ℕ → ℕ → ChangeDto → Subscription → Request Db Change
unfolding change_compute record_financial run_transition_info
change_now scale now id user_id dto s = do
  result ← run_transition_info id dto.options user_id (change_compute scale now dto)
  after_change s result

unfoldable pub apply_change : Scale → Date → ℕ → ℕ → ChangeDto → Request Db Change
unfolding get_subscription schedule_change change_now
apply_change scale now id user_id dto = do
  s ← get_subscription id
  if dto.immediate
      then change_now scale now id user_id dto s
      else schedule_change now id user_id dto s

-- The guard of cancelScheduledChange.
abbrev is_open : ℕ → SubscriptionChange → Bool
is_open id c = c.subscription_id == id && is_pending c.status

unfoldable pub cancel_scheduled_change : Date → ℕ → ℕ → ℕ → Request Db SubscriptionChange
unfolding update_change create_event get_subscription record_audit
cancel_scheduled_change now id change_id user_id = do
  found ← read (λ db. find_first (λ c. c.id == change_id) db.changes)
  c ← or_throw found not_found
  guard (is_open id c) not_found
  write
      (update_change change_id (λ d. record d { status = canceled_change; canceled_at = some now }))
  create_event (record {
    subscription_id = id;
    type = scheduled_change_canceled;
    from_status = none;
    to_status = none;
    idempotency_key = none;
    metadata = change change_id;
    created_by_id = user_id;
  })
  s ← get_subscription id
  write (record_audit subscription_change_canceled_action user_id id)
  return (record c { status = canceled_change; canceled_at = some now })
