-- ===== src/Subscriptions/Renewal.antt =====
-- renew of apps/api/src/subscriptions/subscriptions.service.ts.
pub mod Periods
use paywall.Prelude.{
  ℕ, Bool, true, false, not, ◌&&◌, ◌||◌, Option, none, some, ◌==◌, leb, get_or, is_some,
  if◌then◌else◌, Request, ◌>>=◌, ◌>>◌, return, read, write, find_first,
}
use paywall.Dates.{Date, add_billing_interval}
use paywall.Subscriptions.StateMachine.{active, canceled}
use paywall.Subscriptions.Model.{
  Db, Subscription, SubscriptionItem, Price, SubscriptionChange, SubscriptionChangeType,
  cancel_at_period_end, SubscriptionChangeStatus, pending, applied, renewed, canceled_event,
  scheduled_change_applied, Metadata, no_metadata, change, MutationOptions,
}
use paywall.Subscriptions.Store.{get_item, update_item, get_price, update_change}
use paywall.Subscriptions.Transition.{no_update, TransitionResult, Compute, run_transition}

abbrev pub is_pending : SubscriptionChangeStatus → Bool
is_pending pending = true
is_pending _ = false

abbrev pub is_cancel : SubscriptionChangeType → Bool
is_cancel cancel_at_period_end = true
is_cancel _ = false

-- A PENDING change of the subscription whose `effectiveAt` has come.
abbrev pub is_due : Date → ℕ → SubscriptionChange → Bool
is_due now id c = c.subscription_id == id && is_pending c.status && leb c.effective_at now

unfoldable pub due_cancel : Date → ℕ → Db → Option SubscriptionChange
due_cancel now id db = find_first (λ c. is_due now id c && is_cancel c.type) db.changes

unfoldable pub due_change : Date → ℕ → Db → Option SubscriptionChange
due_change now id db = find_first (is_due now id) db.changes

abbrev pub mark_applied : Date → Option SubscriptionChange → Db → Db
mark_applied now none db = db
mark_applied now (some c) db =
    update_change c.id (λ d. record d { status = applied; applied_at = some now }) db

unfoldable pub renew_cancel : Date → Option SubscriptionChange → Compute
unfolding update_change
renew_cancel now due s = do
  write (mark_applied now due)
  return (record {
    to_status = canceled;
    event_type = canceled_event;
    update = record no_update { canceled_at = some (some now) };
    metadata = no_metadata;
    info = none;
  })

-- What a due change asks for, against what the subscription has.
abbrev pub target_plan : Option SubscriptionChange → ℕ → ℕ
target_plan none plan_id = plan_id
target_plan (some c) plan_id = get_or c.target_plan_id plan_id

abbrev pub target_price : Option SubscriptionChange → Option ℕ
target_price none = none
target_price (some c) = c.target_price_id

abbrev pub target_quantity : Option SubscriptionChange → ℕ → ℕ
target_quantity none quantity = quantity
target_quantity (some c) quantity = get_or c.target_quantity quantity

abbrev move_quantity : Bool → ℕ → ℕ → Db → Db
move_quantity true item_id quantity db =
    update_item item_id (λ i. record i { quantity = quantity }) db
move_quantity false item_id quantity db = db

-- The item follows a new price, or only a new quantity.
abbrev move_item : Option ℕ → ℕ → Bool → SubscriptionItem → Db → Db
move_item none quantity changed item db = move_quantity changed item.id quantity db
move_item (some price_id) quantity changed item db =
    if price_id == item.price_id
    then move_quantity changed item.id quantity db
    else update_item item.id (λ i. record i { price_id = price_id; quantity = quantity }) db

abbrev price_of : Option ℕ → Price → Request Db Price
price_of none current = return current
price_of (some price_id) current = get_price price_id

abbrev change_metadata : Option SubscriptionChange → Metadata
change_metadata none = no_metadata
change_metadata (some c) = change c.id

-- Applies a due change, moves the item along, and yields the price of the new period.
unfoldable pub settle_item : Date → Option SubscriptionChange → Subscription → Request Db Price
unfolding update_change get_item get_price update_item
settle_item now due s = do
  write (mark_applied now due)
  item ← get_item s.id
  current ← get_price item.price_id
  let quantity = target_quantity due s.quantity
  write (move_item (target_price due) quantity (not (quantity == s.quantity)) item)
  price_of (target_price due) current

abbrev pub renewal_result :
    Date → Option SubscriptionChange → Subscription → Price → TransitionResult
renewal_result now due s price =
    let period_start = get_or s.current_period_end now in
    record {
      to_status = active;
      event_type = if is_some due then scheduled_change_applied else renewed;
      update = record no_update {
        plan_id = some (target_plan due s.plan_id);
        quantity = some (target_quantity due s.quantity);
        current_period_start = some (some period_start);
        current_period_end =
            some (some (add_billing_interval period_start price.interval price.interval_count));
      };
      metadata = change_metadata due;
      info = none;
    }

unfoldable pub renew_period : Date → Compute
unfolding due_change settle_item
renew_period now s = do
  due ← read (due_change now s.id)
  price ← settle_item now due s
  return (renewal_result now due s price)

unfoldable pub renew_compute : Date → Compute
unfolding due_cancel renew_cancel renew_period
renew_compute now s = do
  due ← read (due_cancel now s.id)
  if is_some due || s.cancel_at_period_end then renew_cancel now due s else renew_period now s

unfoldable pub renew : Date → ℕ → ℕ → MutationOptions → Request Db Subscription
unfolding renew_compute run_transition
renew now id user_id options = run_transition id options user_id (renew_compute now)
