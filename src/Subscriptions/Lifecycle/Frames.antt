-- ===== src/Subscriptions/Lifecycle/Frames.antt =====
-- What the computations of the lifecycle operations write themselves.
use paywall.Prelude.{◌≡◌, ap, ◌∙◌, Option, arith, ok, ok_injective, sym}
use paywall.Dates.{Date}
use paywall.Subscriptions.Model.{Db, Subscription, SubscriptionChange}
use paywall.Subscriptions.Proration.{Scale}
use paywall.Subscriptions.Transition.{Compute, TransitionResult}
use paywall.Subscriptions.Transition.Legality.{Frames}
use paywall.Subscriptions.Lifecycle.{activate_compute, expire_compute}
use paywall.Subscriptions.Renewal.{renew_cancel, renew_period, renew_compute}
use paywall.Subscriptions.Changes.{ChangeDto, change_compute}

-- A computation that writes nothing at all.
pub pure-Frames :
    (compute : Compute)
    → ((s : Subscription) (db : Db) → (r : TransitionResult) × (compute s db ≡ ok r db))
    → Frames compute
pure-Frames compute pure s db r mid h =
    let (r', e) = pure s db in
    let same : mid ≡ db = ok_after (sym h ∙ e) in
    (ap (λ d. d.subscriptions) same, ap (λ d. d.events) same)
  where
    ok_after : {a b : TransitionResult} {d d' : Db} → ok a d ≡ ok b d' → d ≡ d'
    ok_after q = (ok_injective q).1

pub activate_compute-Frames : (now : Date) → Frames (activate_compute now)
unfolding activate_compute
activate_compute-Frames now s db r mid h = ground arith

pub expire_compute-Frames : Frames expire_compute
unfolding expire_compute
expire_compute-Frames s db r mid h = ground arith

renew_cancel-Frames : (now : Date) (due : Option SubscriptionChange) → Frames (renew_cancel now due)
unfolding renew_cancel
renew_cancel-Frames now due s db r mid h = ground arith

renew_period-Frames : (now : Date) → Frames (renew_period now)
unfolding renew_period
renew_period-Frames now s db r mid h = ground arith

pub renew_compute-Frames : (now : Date) → Frames (renew_compute now)
unfolding renew_compute
renew_compute-Frames now s db r mid h = ground arith

pub change_compute-Frames :
    (scale : Scale) (now : Date) (dto : ChangeDto) → Frames (change_compute scale now dto)
unfolding change_compute
change_compute-Frames scale now dto s db r mid h = ground arith
