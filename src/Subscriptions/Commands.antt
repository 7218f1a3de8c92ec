-- ===== src/Subscriptions/Commands.antt =====
-- The requests that apps/api/src/subscriptions/subscriptions.controller.ts and the admin surface hand
-- to the service, as one type, and the database after a sequence of them.
pub mod Rows
pub mod Histories
use paywall.Prelude.{ℕ, Option, Bool, List, [], ◌∷◌, state_of}
use paywall.Coupons.{RedeemCouponDto}
use paywall.Dates.{Date}
use paywall.Subscriptions.Proration.{Scale}
use paywall.Subscriptions.Model.{Db, MutationOptions}
use paywall.Subscriptions.Lifecycle.{
  activate, resume, pause, mark_past_due, enter_grace_period, expire, suspend, reactivate,
  extend_trial,
}
use paywall.Subscriptions.Renewal.{renew}
use paywall.Subscriptions.Changes.{ChangeDto, apply_change, cancel_scheduled_change}
use paywall.Subscriptions.Cancellation.{CancelDto, cancel}
use paywall.Subscriptions.Redemption.{apply_coupon, remove_coupon}
use paywall.Subscriptions.Creation.{CreateDto, create}

pub data Command : Type 0 where
  creates : ℕ → Option ℕ → CreateDto → Command
  activates renews resumes pauses marks_past_due expires reactivates : ℕ → MutationOptions → Command
  enters_grace_period suspends : ℕ → MutationOptions → Option ℕ → Command
  cancels : ℕ → CancelDto → Command
  changes : ℕ → ChangeDto → Command
  cancels_change : ℕ → ℕ → Command
  extends_trial : ℕ → Date → Command
  applies_coupon : ℕ → RedeemCouponDto → Command
  removes_coupon : ℕ → ℕ → Command

-- `now` and the acting user come with each request.
unfoldable pub step : Scale → Date × ℕ × Command → Db → Db
step scale (now, user, creates organization ip dto) db =
    state_of (create now organization user ip dto db)
step scale (now, user, activates id options) db = state_of (activate now id user options db)
step scale (now, user, renews id options) db = state_of (renew now id user options db)
step scale (now, user, resumes id options) db = state_of (resume id user options db)
step scale (now, user, pauses id options) db = state_of (pause id user options db)
step scale (now, user, marks_past_due id options) db = state_of (mark_past_due id user options db)
step scale (now, user, expires id options) db = state_of (expire id user options db)
step scale (now, user, reactivates id options) db = state_of (reactivate id user options db)
step scale (now, user, enters_grace_period id options days) db =
    state_of (enter_grace_period now id user options days db)
step scale (now, user, suspends id options why) db = state_of (suspend id user options why db)
step scale (now, user, cancels id dto) db = state_of (cancel now id user dto db)
step scale (now, user, changes id dto) db = state_of (apply_change scale now id user dto db)
step scale (now, user, cancels_change id change_id) db =
    state_of (cancel_scheduled_change now id change_id user db)
step scale (now, user, extends_trial id ends) db = state_of (extend_trial id ends db)
step scale (now, user, applies_coupon id dto) db = state_of (apply_coupon now id user dto db)
step scale (now, user, removes_coupon id coupon_id) db =
    state_of (remove_coupon now id coupon_id user db)

unfoldable pub run : Scale → List (Date × ℕ × Command) → Db → Db
unfolding step
run scale [] db = db
run scale (c ∷ cs) db = run scale cs (step scale c db)
