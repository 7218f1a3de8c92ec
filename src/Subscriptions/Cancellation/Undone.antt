-- ===== src/Subscriptions/Cancellation/Undone.antt =====
-- A cancellation at the period's end that resume takes back, and the renewal that follows.
use paywall.Prelude.{
  ℕ, ◌≡◌, refl, sym, ap, ◌∙◌, inl, inr, false, Option, none, some, find_first, ok, ok_injective,
  some_eq,
}
use paywall.Dates.{Date}
use paywall.Subscriptions.StateMachine.{canceled}
use paywall.Subscriptions.Model.{
  Db, Subscription, SubscriptionChange, PlatformEventType, MutationOptions, is_given,
}
use paywall.Subscriptions.Store.{has_id}
use paywall.Subscriptions.Transition.{
  TransitionResult, apply_update, platform_event, publish_type, publish_transition,
}
use paywall.Subscriptions.Transition.Cases.{run_transition_cases}
use paywall.Subscriptions.Transition.Legality.{committed_row}
use paywall.Subscriptions.Lifecycle.{resume_compute, resume}
use paywall.Subscriptions.Lifecycle.Frames.{pure-Frames}
use paywall.Subscriptions.Renewal.{due_cancel, renew}
use paywall.Subscriptions.Renewal.Periods.{renew_due}

publish_transition-changes :
    (result : Option TransitionResult) (s : Subscription) (db : Db)
    → (publish_transition result s db).changes ≡ db.changes
unfolding publish_transition
publish_transition-changes none s db = refl
publish_transition-changes (some r) s db = go (platform_event r.event_type)
  where
    go : (p : Option PlatformEventType) → (publish_type p s db).changes ≡ db.changes
    go none = refl
    go (some q) = refl

-- resume clears the flag and leaves the scheduled changes as they were.
resume_effect :
    (id user : ℕ) (options : MutationOptions) (db : Db) (s t : Subscription) (db' : Db)
    → is_given options.idempotency_key ≡ false
    → find_first (has_id id) db.subscriptions ≡ some s
    → resume id user options db ≡ ok t db'
    → (t.cancel_at_period_end ≡ false)
      × (t.id ≡ s.id)
      × (db'.changes ≡ db.changes)
      × (find_first (has_id id) db'.subscriptions ≡ some t)
unfolding resume apply_update
resume_effect id user options db s t db' no_key found h =
    let (s', found', cases) = run_transition_cases id options user resume_compute db h in
    elim cases [
      | inl (replay, _, _) ↦ cc (rw no_key at replay)
      | inr c ↦
          let (e, same_db) = ok_injective c.computed in
          let same : s' ≡ s = some_eq (sym found' ∙ found) in
          let row = c.row ∙ (λ i. apply_update (sym e i).update (sym e i).to_status (same i)) in
          (
            ap (λ x. x.cancel_at_period_end) row,
            ap (λ x. x.id) row,
            ap (λ d. d.changes) c.result
                ∙ publish_transition-changes (some c.r) t _
                ∙ ap (λ d. d.changes) (sym same_db),
            committed_row id options user resume_compute
                (pure-Frames resume_compute (λ x d. (_, refl))) c found',
          )
    ]

-- If a subscription with a due PENDING cancellation is resumed without a key, its flag is cleared,
-- but a renewal without a key that then succeeds still leaves it CANCELED.
pub renew-resume_cancels :
    (now : Date) (id user : ℕ) (options later : MutationOptions) (db : Db) (s : Subscription)
    (c : SubscriptionChange) (t : Subscription) (db' : Db) (u : Subscription) (db'' : Db)
    → is_given options.idempotency_key ≡ false
    → is_given later.idempotency_key ≡ false
    → find_first (has_id id) db.subscriptions ≡ some s
    → due_cancel now s.id db ≡ some c
    → resume id user options db ≡ ok t db'
    → renew now id user later db' ≡ ok u db''
    → (t.cancel_at_period_end ≡ false) × (u.status ≡ canceled)
unfolding due_cancel
renew-resume_cancels now id user options later db s c t db' u db'' no_key no_key' found due resumed
      renewed =
    let (cleared, same_id, same_changes, found') =
      resume_effect id user options db s t db' no_key found resumed in
    let due' : due_cancel now t.id db' ≡ some c = rw (same_id, same_changes) due in
    (cleared, (renew_due now id user later db' t u db'' no_key' found' (rw due') renewed).0)
