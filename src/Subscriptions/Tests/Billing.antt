-- ===== src/Subscriptions/Tests/Billing.antt =====
-- The theorems on renewals, changes, cancellations and creations, applied.
use paywall.Prelude.{
  ◌↔◌, Every, Member, ◌+◌, ◌≡◌, ◌≤◌, ◌<◌, ◌⊎◌, refl, true, false, none, some, ◌∷◌, [], arith,
  unique_violation, conflict, top, ok, err, state_of, find_first, update_all, length,
}
use paywall.Prelude.Int.{pos_part, neg_part}
use paywall.Dates.{Date}
use paywall.Subscriptions.StateMachine.{active, canceled}
use paywall.Subscriptions.Proration.{
  ProrationInput, ProrationResult, calculate_proration, calculate_proration_bounds,
  calculate_proration_whole, calculate_proration_decreases,
}
use paywall.Subscriptions.Model.{
  Db, Subscription, ProrationRecord, FinancialEvent, SubscriptionChange, upgrade,
  cancel_at_period_end, pending, running,
}
use paywall.Subscriptions.Store.{find_event}
use paywall.Subscriptions.Lifecycle.{resume}
use paywall.Subscriptions.Renewal.{due_change, due_cancel, target_plan, target_quantity, renew}
use paywall.Subscriptions.Renewal.Periods.{
  IntervalsPositive, DueCancel, renew_contiguous, renew_cancels,
}
use paywall.Subscriptions.Changes.{ChangeDto, Change, scheduled, apply_change}
use paywall.Subscriptions.Changes.Retries.{apply_change_retry}
use paywall.Subscriptions.Changes.Charges.{apply_change_books}
use paywall.Subscriptions.Cancellation.{CancelDto, cancel_later}
use paywall.Subscriptions.Cancellation.Repeated.{cancel_later_repeated}
use paywall.Subscriptions.Cancellation.Undone.{renew-resume_cancels}
use paywall.Subscriptions.Creation.{CreateDto, create}
use paywall.Subscriptions.Creation.Trials.{create_second_trial}
use paywall.Subscriptions.Tests.{days, result_or, row_in, db_in, item, price_of, no_options, keyed}
use paywall.Subscriptions.Tests.Rounding.{nearest, nearest-IsRounding}

abbrev input : ProrationInput
input = record {
  period_start = days 0;
  period_end = days 30;
  now = days 10;
  old_amount_minor = 1000;
  new_amount_minor = 3000;
}

calculate_proration_bounds_example :
    let r = calculate_proration nearest input in
    (r.credit_minor ≤ 1000)
    × (r.charge_minor ≤ 3000)
    × (pos_part r.net_minor + r.credit_minor ≡ neg_part r.net_minor + r.charge_minor)
    × ((3000 < 1000) ⊎ (neg_part r.net_minor ≡ 0))
    × ((1000 < 3000) ⊎ (pos_part r.net_minor ≡ 0))
calculate_proration_bounds_example = calculate_proration_bounds nearest nearest-IsRounding input

calculate_proration_whole_example :
    let r = calculate_proration nearest (record input { now = days 0 }) in
    (r.credit_minor ≡ 1000) × (r.charge_minor ≡ 3000)
calculate_proration_whole_example =
    calculate_proration_whole nearest nearest-IsRounding (record input { now = days 0 })
      (omega arith) (omega arith)

calculate_proration_decreases_example :
    let r = calculate_proration nearest input in
    let r' = calculate_proration nearest (record input { now = days 20 }) in
    (r'.credit_minor ≤ r.credit_minor) × (r'.charge_minor ≤ r.charge_minor)
calculate_proration_decreases_example =
    calculate_proration_decreases nearest nearest-IsRounding input (days 20) (omega arith)

db_in-IntervalsPositive : IntervalsPositive (db_in active)
unfolding find_first
db_in-IntervalsPositive key p h = ground arith

abbrev renewed_row : Subscription
unfolding renew find_first
renewed_row = result_or (row_in active) (renew (days 32) 1 9 no_options (db_in active))

abbrev after_renewal : Db
unfolding renew find_first
after_renewal = state_of (renew (days 32) 1 9 no_options (db_in active))

renew_contiguous_example :
    let due = due_change (days 32) 1 (db_in active) in
    (end : Date) × (renewed_row.status ≡ active)
    × (renewed_row.current_period_start ≡ some (days 31))
    × (renewed_row.current_period_end ≡ some end)
    × (days 31 < end)
    × (renewed_row.plan_id ≡ target_plan due 3)
    × (renewed_row.quantity ≡ target_quantity due 1)
unfolding renew find_first
renew_contiguous_example =
    renew_contiguous (days 32) 1 9 no_options (db_in active) (row_in active) renewed_row
      after_renewal refl db_in-IntervalsPositive refl refl refl

-- A subscription whose cancellation at the end of the period is scheduled.
abbrev flagged : Subscription
flagged = record (row_in active) { cancel_at_period_end = true }

abbrev cancellation : SubscriptionChange
cancellation = record {
  id = 50;
  subscription_id = 1;
  type = cancel_at_period_end;
  status = pending;
  target_plan_id = none;
  target_price_id = none;
  target_quantity = none;
  effective_at = days 31;
  applied_at = none;
  canceled_at = none;
  created_by_id = 9;
}

abbrev flagged_db : Db
flagged_db = record (db_in active) { subscriptions = flagged ∷ []; changes = cancellation ∷ [] }

abbrev ended_row : Subscription
unfolding renew find_first update_all
ended_row = result_or flagged (renew (days 32) 1 9 no_options flagged_db)

abbrev after_end : Db
unfolding renew find_first update_all
after_end = state_of (renew (days 32) 1 9 no_options flagged_db)

renew_cancels_example :
    (((true ≡ true)
        ⊎ ((c : SubscriptionChange) × Member c (cancellation ∷ []) × DueCancel (days 32) 1 c))
      × (ended_row.status ≡ canceled)
      × (ended_row.canceled_at ≡ some (days 32))
      × (ended_row.current_period_end ≡ some (days 31))
      × (ended_row.plan_id ≡ 3))
    ⊎ ((true ≡ false)
        × Every (λ c. ¬ DueCancel (days 32) 1 c) (cancellation ∷ [])
        × (ended_row.status ≡ active)
        × (ended_row.canceled_at ≡ none))
unfolding renew find_first update_all
renew_cancels_example =
    renew_cancels (days 32) 1 9 no_options flagged_db flagged ended_row after_end refl refl refl

abbrev resumed_row : Subscription
unfolding resume find_first update_all
resumed_row = result_or flagged (resume 1 9 no_options flagged_db)

abbrev after_resume : Db
unfolding resume find_first update_all
after_resume = state_of (resume 1 9 no_options flagged_db)

abbrev undone_row : Subscription
unfolding renew resume find_first update_all
undone_row = result_or flagged (renew (days 32) 1 9 no_options after_resume)

abbrev after_undone : Db
unfolding renew resume find_first update_all
after_undone = state_of (renew (days 32) 1 9 no_options after_resume)

renew-resume_cancels_example :
    (resumed_row.cancel_at_period_end ≡ false) × (undone_row.status ≡ canceled)
unfolding renew resume due_cancel find_first update_all
renew-resume_cancels_example =
    renew-resume_cancels (days 32) 1 9 no_options no_options flagged_db flagged cancellation
      resumed_row after_resume undone_row after_undone refl refl refl refl refl refl

abbrev cancel_dto : CancelDto
cancel_dto = record { options = keyed; at_period_end = true; why = none }

abbrev after_cancel_later : Db
unfolding cancel_later find_first update_all
after_cancel_later = state_of (cancel_later (days 5) 1 9 cancel_dto (db_in active))

cancel_later_repeated_example :
    (cancel_later (days 6) 1 9 cancel_dto after_cancel_later
      ≡ err unique_violation (state_of (cancel_later (days 6) 1 9 cancel_dto after_cancel_later)))
    × (length (state_of (cancel_later (days 6) 1 9 cancel_dto after_cancel_later)).changes
        ≡ length after_cancel_later.changes + 1)
unfolding cancel_later find_first update_all
cancel_later_repeated_example =
    cancel_later_repeated (days 5) (days 6) 1 9 cancel_dto (db_in active)
      (result_or (row_in active) (cancel_later (days 5) 1 9 cancel_dto (db_in active)))
      after_cancel_later refl refl

abbrev change_dto : ChangeDto
change_dto = record {
  options = keyed;
  type = upgrade;
  target_plan_id = none;
  target_price_id = some 6;
  target_quantity = none;
  immediate = true;
}

abbrev the_change : Change
unfolding apply_change find_first update_all
the_change =
    result_or (scheduled cancellation)
      (apply_change nearest (days 10) 1 9 change_dto (db_in active))

abbrev after_change : Db
unfolding apply_change find_first update_all
after_change = state_of (apply_change nearest (days 10) 1 9 change_dto (db_in active))

apply_change_retry_example :
    apply_change nearest (days 11) 1 9 change_dto after_change ≡ ok the_change after_change
unfolding apply_change find_first update_all
apply_change_retry_example =
    apply_change_retry nearest (days 10) (days 11) 1 9 change_dto (db_in active) the_change
      after_change refl refl refl

abbrev prorated : ProrationResult
prorated = calculate_proration nearest (record {
  period_start = 0;
  period_end = days 31;
  now = days 10;
  old_amount_minor = 1000;
  new_amount_minor = 3000;
})

apply_change_books_example :
    (row : ProrationRecord) × (event : FinancialEvent) × (after_change.prorations ≡ row ∷ [])
    × (row.subscription_id ≡ 1)
    × (row.credit_minor ≡ prorated.credit_minor)
    × (row.charge_minor ≡ prorated.charge_minor)
    × (row.net_minor ≡ prorated.net_minor)
    × (row.currency ≡ 1)
    × (after_change.financial_events ≡ event ∷ [])
    × (event.idempotency_key ≡ row.id)
    × (event.net_minor ≡ prorated.net_minor)
    × (event.amount_minor ≡ pos_part prorated.net_minor + neg_part prorated.net_minor)
    × (event.currency ≡ 1)
    × ((event.is_charge ≡ true) ↔ (neg_part prorated.net_minor ≡ 0))
unfolding apply_change find_first update_all
apply_change_books_example =
    apply_change_books nearest (days 10) 1 9 change_dto (db_in active) (row_in active) item
      (price_of 5 1000) (price_of 6 3000) refl refl refl the_change after_change refl refl refl refl
      refl

abbrev create_dto : CreateDto
create_dto = record {
  idempotency_key = some 88;
  customer_id = 4;
  plan_id = 3;
  price_id = 5;
  quantity = none;
  start_trial = true;
}

abbrev tried_db : Db
tried_db = record (db_in active) {
  trials =
      record {
        id = 60;
        customer_id = 4;
        product_id = 20;
        plan_id = 3;
        subscription_id = none;
        ends_at = days 14;
        status = running;
        converted_at = none;
        ip_address = none;
      }
      ∷ [];
}

create_second_trial_example : create (days 1) 10 9 none create_dto tried_db ≡ err conflict tried_db
unfolding find_first find_event
create_second_trial_example =
    create_second_trial (days 1) 10 9 none create_dto tried_db _ _ _ _ 13 refl refl refl refl refl
      refl refl refl refl top refl refl
