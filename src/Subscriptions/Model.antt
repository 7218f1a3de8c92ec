-- ===== src/Subscriptions/Model.antt =====
-- The rows that the subscription engine reads and writes (apps/api/prisma/schema.prisma), the
-- options of its requests (apps/api/src/subscriptions/dto), and the database as a record of tables.
-- An id, a user, a text or a JSON value that is only stored and compared is a number.
use paywall.Prelude.{ℕ, Bool, false, not, Option, none, some, List, ◌==◌}
use paywall.Prelude.Int.{ℤ}
use paywall.Coupons.{CouponDb}
use paywall.Dates.{Date, BillingInterval}
use paywall.Subscriptions.StateMachine.{SubscriptionStatus}

pub record Subscription : Type 0 where
  pub id : ℕ
  pub organization_id : ℕ
  pub customer_id : ℕ
  pub product_id : ℕ
  pub plan_id : ℕ
  pub application_id : ℕ
  pub status : SubscriptionStatus
  pub current_period_start : Option Date
  pub current_period_end : Option Date
  pub trial_start : Option Date
  pub trial_end : Option Date
  pub cancel_at_period_end : Bool
  pub canceled_at : Option Date
  pub cancellation_reason : Option ℕ
  pub grace_period_end : Option Date
  pub quantity : ℕ
  pub version : ℕ

pub record SubscriptionItem : Type 0 where
  pub id : ℕ
  pub subscription_id : ℕ
  pub price_id : ℕ
  pub quantity : ℕ

pub data TrialStatus : Type 0 where
  running converted called_off lapsed : TrialStatus

pub record Trial : Type 0 where
  pub id : ℕ
  pub customer_id : ℕ
  pub product_id : ℕ
  pub plan_id : ℕ
  pub subscription_id : Option ℕ
  pub ends_at : Date
  pub status : TrialStatus
  pub converted_at : Option Date
  pub ip_address : Option ℕ

pub data SubscriptionChangeType : Type 0 where
  upgrade downgrade interval_change seat_change cancel_at_period_end pause : SubscriptionChangeType

pub data SubscriptionChangeStatus : Type 0 where
  pending applied canceled_change : SubscriptionChangeStatus

pub record SubscriptionChange : Type 0 where
  pub id : ℕ
  pub subscription_id : ℕ
  pub type : SubscriptionChangeType
  pub status : SubscriptionChangeStatus
  pub target_plan_id : Option ℕ
  pub target_price_id : Option ℕ
  pub target_quantity : Option ℕ
  pub effective_at : Date
  pub applied_at : Option Date
  pub canceled_at : Option Date
  pub created_by_id : ℕ

-- The event types that the engine writes.
pub data SubscriptionEventType : Type 0 where
  created trial_started trial_converted trial_expired activated renewed upgraded downgraded
        interval_changed seats_changed paused_event resumed cancel_scheduled canceled_event
        expired_event suspended_event reactivated payment_failed grace_period_started
        scheduled_change_created scheduled_change_applied scheduled_change_canceled coupon_applied
        coupon_removed :
      SubscriptionEventType

pub data Metadata : Type 0 where
  no_metadata : Metadata
  reason : Option ℕ → Metadata
  change : ℕ → Metadata
  proration : ℤ → ℕ → Metadata
  coupon : ℕ → Option ℕ → Metadata
  subscription_coupon : ℕ → Metadata

pub record SubscriptionEvent : Type 0 where
  pub subscription_id : ℕ
  pub type : SubscriptionEventType
  pub from_status : Option SubscriptionStatus
  pub to_status : Option SubscriptionStatus
  pub idempotency_key : Option ℕ
  pub metadata : Metadata
  pub created_by_id : ℕ

pub data ProrationReason : Type 0 where
  upgrade_reason downgrade_reason seat_increase seat_decrease interval_change_reason :
      ProrationReason

pub record ProrationRecord : Type 0 where
  pub id : ℕ
  pub subscription_id : ℕ
  pub reason : ProrationReason
  pub credit_minor : ℕ
  pub charge_minor : ℕ
  pub net_minor : ℤ
  pub currency : ℕ
  pub period_start : Date
  pub period_end : Date

pub record Price : Type 0 where
  pub id : ℕ
  pub currency : ℕ
  pub amount_minor : ℕ
  pub interval : BillingInterval
  pub interval_count : ℕ

-- A plan, with the columns of its product that are read.
pub record Plan : Type 0 where
  pub id : ℕ
  pub product_id : ℕ
  pub product_organization_id : ℕ
  pub product_application_id : ℕ
  pub trial_eligible : Bool
  pub trial_days : Option ℕ

pub record Customer : Type 0 where
  pub id : ℕ
  pub organization_id : ℕ

pub data PlatformEventType : Type 0 where
  subscription_created subscription_activated subscription_renewed subscription_cancelled
        subscription_expired trial_started_event trial_ended :
      PlatformEventType

-- What is handed to PlatformEventsService.publish.
pub record Publication : Type 0 where
  pub type : PlatformEventType
  pub subscription_id : ℕ
  pub organization_id : ℕ
  pub application_id : ℕ
  pub customer_id : ℕ

-- What is handed to FinancialEventsService.record; the key is `proration:<id of the record>`.
pub record FinancialEvent : Type 0 where
  pub organization_id : ℕ
  pub is_charge : Bool
  pub proration_record_id : ℕ
  pub subscription_id : ℕ
  pub net_minor : ℤ
  pub amount_minor : ℕ
  pub currency : ℕ
  pub idempotency_key : ℕ

pub data AuditAction : Type 0 where
  subscription_created_action subscription_canceled_action subscription_change_scheduled_action
        subscription_change_canceled_action :
      AuditAction

pub record AuditEntry : Type 0 where
  pub action : AuditAction
  pub user_id : ℕ
  pub subscription_id : ℕ

pub record Db : Type 0 where
  pub subscriptions : List Subscription
  pub items : List SubscriptionItem
  pub trials : List Trial
  pub changes : List SubscriptionChange
  pub events : List SubscriptionEvent
  pub prorations : List ProrationRecord
  pub prices : List Price
  pub plans : List Plan
  pub customers : List Customer
  pub publications : List Publication
  pub financial_events : List FinancialEvent
  pub audit : List AuditEntry
  pub coupon_db : CouponDb
  pub next_id : ℕ

-- MutationOptionsDto
pub record MutationOptions : Type 0 where
  pub idempotency_key : Option ℕ
  pub expected_version : Option ℕ

-- `if (options.idempotencyKey)`: the empty text, numbered 0, counts as no key.
abbrev pub is_given : Option ℕ → Bool
is_given none = false
is_given (some key) = not (key == 0)
