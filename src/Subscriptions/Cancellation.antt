-- ===== src/Subscriptions/Cancellation.antt =====
-- cancel of apps/api/src/subscriptions/subscriptions.service.ts: at once, or at the period's end.
pub mod Undone
pub mod Repeated
use paywall.Prelude.{
  ℕ, suc, Bool, true, Option, none, some, [], ◌∷◌, ◌++◌, get_or, if◌then◌else◌, Request, ◌>>=◌,
  ◌>>◌, return, write,
}
use paywall.Dates.{Date}
use paywall.Subscriptions.StateMachine.{canceled}
use paywall.Subscriptions.Model.{
  Db, Subscription, SubscriptionEvent, SubscriptionChange, cancel_at_period_end, pending,
  cancel_scheduled, canceled_event, reason, MutationOptions, subscription_canceled_action,
}
use paywall.Subscriptions.Store.{
  get_subscription, update_subscription, create_event, record_audit, fresh_id,
}
use paywall.Subscriptions.Transition.{no_update, run_transition, Compute}
use paywall.Subscriptions.Lifecycle.{plain}

-- CancelSubscriptionDto; a reason that is not given leaves the column as it is.
pub record CancelDto : Type 0 where
  pub options : MutationOptions
  pub at_period_end : Bool
  pub why : Option ℕ

abbrev pub keep_reason : Option ℕ → Option ℕ → Option ℕ
keep_reason none old = old
keep_reason (some why) old = some why

abbrev pub give_reason : Option ℕ → Option (Option ℕ)
give_reason none = none
give_reason (some why) = some (some why)

abbrev pub flag_cancel : Option ℕ → Subscription → Subscription
flag_cancel why s = record s {
  cancel_at_period_end = true;
  cancellation_reason = keep_reason why s.cancellation_reason;
  version = suc s.version;
}

abbrev pub scheduled_event : ℕ → ℕ → CancelDto → SubscriptionEvent
scheduled_event id user_id dto = record {
  subscription_id = id;
  type = cancel_scheduled;
  from_status = none;
  to_status = none;
  idempotency_key = dto.options.idempotency_key;
  metadata = reason dto.why;
  created_by_id = user_id;
}

abbrev pub scheduled_row : Date → ℕ → ℕ → ℕ → Subscription → SubscriptionChange
scheduled_row now change_id id user_id s = record {
  id = change_id;
  subscription_id = id;
  type = cancel_at_period_end;
  status = pending;
  target_plan_id = none;
  target_price_id = none;
  target_quantity = none;
  effective_at = get_or s.current_period_end now;
  applied_at = none;
  canceled_at = none;
  created_by_id = user_id;
}

unfoldable pub cancel_later : Date → ℕ → ℕ → CancelDto → Request Db Subscription
unfolding get_subscription update_subscription create_event record_audit fresh_id
cancel_later now id user_id dto = do
  s ← get_subscription id
  write (update_subscription id (flag_cancel dto.why))
  change_id ← fresh_id
  write (λ db. record db { changes = db.changes ++ scheduled_row now change_id id user_id s ∷ [] })
  create_event (scheduled_event id user_id dto)
  write (record_audit subscription_canceled_action user_id id)
  return (flag_cancel dto.why s)

abbrev pub cancel_compute : Date → CancelDto → Compute
cancel_compute now dto =
    plain canceled canceled_event
      (record no_update {
        canceled_at = some (some now);
        cancellation_reason = give_reason dto.why;
      })
      (reason dto.why)

-- The audit entry behind the transition.
abbrev pub after_cancel : ℕ → ℕ → Subscription → Request Db Subscription
after_cancel id user_id t = do
  s ← get_subscription id
  write (record_audit subscription_canceled_action user_id id)
  return t

unfoldable pub cancel_now : Date → ℕ → ℕ → CancelDto → Request Db Subscription
unfolding get_subscription record_audit run_transition
cancel_now now id user_id dto = do
  t ← run_transition id dto.options user_id (cancel_compute now dto)
  after_cancel id user_id t

unfoldable pub cancel : Date → ℕ → ℕ → CancelDto → Request Db Subscription
unfolding cancel_later cancel_now
cancel now id user_id dto =
    if dto.at_period_end then cancel_later now id user_id dto else cancel_now now id user_id dto
