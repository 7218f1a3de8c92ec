-- ===== src/Subscriptions/Transition.antt =====
-- `runTransition` of apps/api/src/subscriptions/subscriptions.service.ts, which every lifecycle
-- operation goes through.
pub mod Cases
pub mod Legality
pub mod Retries
use paywall.Prelude.{
  ℕ, suc, ◌+◌, Bool, true, false, not, ◌&&◌, Option, none, some, List, ◌==◌, get_or, is_some,
  if◌then◌else◌, Request, ◌>>=◌, ◌>>◌, return, guard, read, write, transaction, conflict, Outcome,
  ok, err,
}
use paywall.Prelude.Int.{ℤ}
use paywall.Dates.{Date}
use paywall.Subscriptions.StateMachine.{SubscriptionStatus, assert_transition}
use paywall.Subscriptions.Model.{
  Db, Subscription, SubscriptionEvent, SubscriptionEventType, trial_converted, trial_expired,
  activated, renewed, canceled_event, expired_event, PlatformEventType, subscription_activated,
  subscription_renewed, subscription_cancelled, subscription_expired, trial_ended, Metadata,
  no_metadata, MutationOptions, is_given,
}
use paywall.Subscriptions.Store.{
  get_subscription, update_subscription, find_event, create_event, publish,
}

-- Prisma.SubscriptionUpdateInput, as far as it is used: `none` leaves a column as it is.
pub record SubscriptionUpdate : Type 0 where
  pub plan_id : Option ℕ
  pub quantity : Option ℕ
  pub current_period_start : Option (Option Date)
  pub current_period_end : Option (Option Date)
  pub trial_end : Option (Option Date)
  pub cancel_at_period_end : Option Bool
  pub canceled_at : Option (Option Date)
  pub cancellation_reason : Option (Option ℕ)
  pub grace_period_end : Option (Option Date)

abbrev pub no_update : SubscriptionUpdate
no_update = record {
  plan_id = none;
  quantity = none;
  current_period_start = none;
  current_period_end = none;
  trial_end = none;
  cancel_at_period_end = none;
  canceled_at = none;
  cancellation_reason = none;
  grace_period_end = none;
}

-- `prorationInfo`, the variable of `applyChange` that its computation assigns.
pub record ProrationInfo : Type 0 where
  pub id : ℕ
  pub net_minor : ℤ
  pub currency : ℕ

pub record TransitionResult : Type 0 where
  pub to_status : SubscriptionStatus
  pub event_type : SubscriptionEventType
  pub update : SubscriptionUpdate
  pub metadata : Metadata
  pub info : Option ProrationInfo

-- The row that `{ ...data, status: toStatus, version: { increment: 1 } }` leaves.
unfoldable pub apply_update : SubscriptionUpdate → SubscriptionStatus → Subscription → Subscription
apply_update u to_status s = record s {
  plan_id = get_or u.plan_id s.plan_id;
  quantity = get_or u.quantity s.quantity;
  current_period_start = get_or u.current_period_start s.current_period_start;
  current_period_end = get_or u.current_period_end s.current_period_end;
  trial_end = get_or u.trial_end s.trial_end;
  cancel_at_period_end = get_or u.cancel_at_period_end s.cancel_at_period_end;
  canceled_at = get_or u.canceled_at s.canceled_at;
  cancellation_reason = get_or u.cancellation_reason s.cancellation_reason;
  grace_period_end = get_or u.grace_period_end s.grace_period_end;
  status = to_status;
  version = suc s.version;
}

-- SUBSCRIPTION_EVENT_TO_PLATFORM_EVENT
unfoldable pub platform_event : SubscriptionEventType → Option PlatformEventType
platform_event activated = some subscription_activated
platform_event renewed = some subscription_renewed
platform_event canceled_event = some subscription_cancelled
platform_event expired_event = some subscription_expired
platform_event trial_converted = some subscription_activated
platform_event trial_expired = some trial_ended
platform_event _ = none

-- `options.expectedVersion === undefined || subscription.version === options.expectedVersion`
abbrev pub version_fits : MutationOptions → Subscription → Bool
version_fits options s = elim options.expected_version [
  | none ↦ true
  | some version ↦ s.version == version
]

-- An earlier request has used the key.
abbrev pub is_replay : MutationOptions → Db → Bool
is_replay options db =
    is_given options.idempotency_key && is_some (find_event options.idempotency_key db)

-- The event of a transition.
abbrev pub transition_event :
    ℕ → Subscription → MutationOptions → ℕ → TransitionResult → SubscriptionEvent
transition_event id s options user_id r = record {
  subscription_id = id;
  type = r.event_type;
  from_status = some s.status;
  to_status = some r.to_status;
  idempotency_key = options.idempotency_key;
  metadata = r.metadata;
  created_by_id = user_id;
}

abbrev pub Compute : Type 0
Compute = Subscription → Request Db TransitionResult

-- The writes of a transition that is not a replay, up to the commit.
unfoldable pub commit_transition :
    ℕ
    → MutationOptions
    → ℕ
    → Compute
    → Subscription
    → Request Db (Subscription × Option TransitionResult)
unfolding assert_transition apply_update update_subscription create_event
commit_transition id options user_id compute s = do
  guard (version_fits options s) conflict
  r ← compute s
  assert_transition s.status r.to_status
  write (update_subscription id (apply_update r.update r.to_status))
  create_event (transition_event id s options user_id r)
  return (apply_update r.update r.to_status s, some r)

unfoldable pub transition_body :
    ℕ → MutationOptions → ℕ → Compute → Request Db (Subscription × Option TransitionResult)
unfolding get_subscription find_event commit_transition
transition_body id options user_id compute = do
  s ← get_subscription id
  replay ← read (is_replay options)
  if replay then return (s, none) else commit_transition id options user_id compute s

unfoldable pub publish_type : Option PlatformEventType → Subscription → Db → Db
unfolding publish
publish_type none s db = db
publish_type (some type) s db =
    publish
      (record {
        type = type;
        subscription_id = s.id;
        organization_id = s.organization_id;
        application_id = s.application_id;
        customer_id = s.customer_id;
      })
      db

-- The publication after the commit; a replay has no event to publish.
unfoldable pub publish_transition : Option TransitionResult → Subscription → Db → Db
unfolding platform_event publish_type
publish_transition none s db = db
publish_transition (some r) s db = publish_type (platform_event r.event_type) s db

info_of : Option TransitionResult → Option ProrationInfo
info_of none = none
info_of (some r) = r.info

unfoldable pub run_transition_info :
    ℕ → MutationOptions → ℕ → Compute → Request Db (Subscription × Option ProrationInfo)
unfolding transition_body publish_transition info_of
run_transition_info id options user_id compute = do
  (s, result) ← transaction (transition_body id options user_id compute)
  write (publish_transition result s)
  return (s, info_of result)

unfoldable pub run_transition : ℕ → MutationOptions → ℕ → Compute → Request Db Subscription
unfolding run_transition_info
run_transition id options user_id compute = do
  (s, info) ← run_transition_info id options user_id compute
  return s
