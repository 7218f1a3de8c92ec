-- ===== src/Subscriptions/Lifecycle.antt =====
-- The lifecycle operations of apps/api/src/subscriptions/subscriptions.service.ts that only choose a
-- status, an event and an update (activate, resume, pause, markPastDue, enterGracePeriod, expire,
-- suspend, reactivate, and cancel at once), and extendTrial. `now` is the moment of the request.
pub mod Frames
use paywall.Prelude.{
  ℕ, suc, Bool, true, false, Option, none, some, get_or, if◌then◌else◌, Request, ◌>>=◌, ◌>>◌,
  return, read, write, guard, conflict,
}
use paywall.Dates.{Date, add_days, add_billing_interval}
use paywall.Subscriptions.StateMachine.{
  SubscriptionStatus, trialing, active, past_due, grace_period, paused, expired, suspended,
  is_status,
}
use paywall.Subscriptions.Model.{
  Db, Subscription, Trial, converted, lapsed, SubscriptionEventType, trial_converted, trial_expired,
  activated, paused_event, resumed, expired_event, suspended_event, reactivated, payment_failed,
  grace_period_started, Metadata, no_metadata, reason, MutationOptions,
}
use paywall.Subscriptions.Store.{
  get_subscription, update_subscription, get_item, get_price, find_trial, update_trial,
}
use paywall.Subscriptions.Transition.{SubscriptionUpdate, no_update, Compute, run_transition}

-- `async () => ({ toStatus, eventType, data, metadata })`
abbrev pub plain :
    SubscriptionStatus → SubscriptionEventType → SubscriptionUpdate → Metadata → Compute
plain to_status event_type update metadata s = return (record {
  to_status = to_status;
  event_type = event_type;
  update = update;
  metadata = metadata;
  info = none;
})

-- `if (sub.status === "TRIALING" && sub.trial)`: the write to the row of the trial.
abbrev close_trial : Bool → Option Trial → (Trial → Trial) → Db → Db
close_trial true (some trial) f db = update_trial trial.id f db
close_trial true none f db = db
close_trial false trial f db = db

unfoldable pub activate_compute : Date → Compute
unfolding get_item get_price find_trial update_trial
activate_compute now s = do
  let trial_ends = is_status s.status trialing
  trial ← read (find_trial s.id)
  item ← get_item s.id
  price ← get_price item.price_id
  write
      (close_trial trial_ends trial (λ t. record t { status = converted; converted_at = some now }))
  return (record {
    to_status = active;
    event_type = if trial_ends then trial_converted else activated;
    update = record no_update {
      current_period_start = some (some now);
      current_period_end =
          some (some (add_billing_interval now price.interval price.interval_count));
      trial_end = if trial_ends then some (some now) else none;
    };
    metadata = no_metadata;
    info = none;
  })

unfoldable pub activate : Date → ℕ → ℕ → MutationOptions → Request Db Subscription
unfolding activate_compute run_transition
activate now id user_id options = run_transition id options user_id (activate_compute now)

abbrev pub resume_compute : Compute
resume_compute =
    plain active resumed
      (record no_update {
        cancel_at_period_end = some false;
        canceled_at = some none;
        cancellation_reason = some none;
      })
      no_metadata

unfoldable pub resume : ℕ → ℕ → MutationOptions → Request Db Subscription
unfolding run_transition
resume id user_id options = run_transition id options user_id resume_compute

abbrev pub pause_compute : Compute
pause_compute = plain paused paused_event no_update no_metadata

unfoldable pub pause : ℕ → ℕ → MutationOptions → Request Db Subscription
unfolding run_transition
pause id user_id options = run_transition id options user_id pause_compute

abbrev pub past_due_compute : Compute
past_due_compute = plain past_due payment_failed no_update no_metadata

unfoldable pub mark_past_due : ℕ → ℕ → MutationOptions → Request Db Subscription
unfolding run_transition
mark_past_due id user_id options = run_transition id options user_id past_due_compute

abbrev pub grace_period_compute : Date → Option ℕ → Compute
grace_period_compute now grace_days =
    plain grace_period grace_period_started
      (record no_update { grace_period_end = some (some (add_days now (get_or grace_days 3))) })
      no_metadata

unfoldable pub enter_grace_period :
    Date → ℕ → ℕ → MutationOptions → Option ℕ → Request Db Subscription
unfolding run_transition
enter_grace_period now id user_id options grace_days =
    run_transition id options user_id (grace_period_compute now grace_days)

unfoldable pub expire_compute : Compute
unfolding find_trial update_trial
expire_compute s = do
  let trial_ends = is_status s.status trialing
  trial ← read (find_trial s.id)
  write (close_trial trial_ends trial (λ t. record t { status = lapsed }))
  return (record {
    to_status = expired;
    event_type = if trial_ends then trial_expired else expired_event;
    update = no_update;
    metadata = no_metadata;
    info = none;
  })

unfoldable pub expire : ℕ → ℕ → MutationOptions → Request Db Subscription
unfolding expire_compute run_transition
expire id user_id options = run_transition id options user_id expire_compute

abbrev pub suspend_compute : Option ℕ → Compute
suspend_compute why = plain suspended suspended_event no_update (reason why)

unfoldable pub suspend : ℕ → ℕ → MutationOptions → Option ℕ → Request Db Subscription
unfolding run_transition
suspend id user_id options why = run_transition id options user_id (suspend_compute why)

abbrev pub reactivate_compute : Compute
reactivate_compute = plain active reactivated no_update no_metadata

unfoldable pub reactivate : ℕ → ℕ → MutationOptions → Request Db Subscription
unfolding run_transition
reactivate id user_id options = run_transition id options user_id reactivate_compute

abbrev move_trial : Option Trial → Date → Db → Db
move_trial none ends db = db
move_trial (some trial) ends db = update_trial trial.id (λ t. record t { ends_at = ends }) db

unfoldable pub extend_trial : ℕ → Date → Request Db Subscription
unfolding get_subscription update_subscription find_trial update_trial
extend_trial id new_trial_end = do
  s ← get_subscription id
  guard (is_status s.status trialing) conflict
  trial ← read (find_trial id)
  write (
      update_subscription id
        (λ t. record t { trial_end = some new_trial_end; version = suc t.version }))
  write (move_trial trial new_trial_end)
  return (record s { trial_end = some new_trial_end; version = suc s.version })
