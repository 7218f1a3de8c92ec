-- ===== src/Subscriptions/Commands/Histories.antt =====
-- What holds of a row of the subscriptions through every history of requests, those that throw included.
use paywall.Prelude.{
  ℕ, ◌≤◌, ◌≡◌, refl, sym, ◌∙◌, inl, inr, some, List, [], ◌∷◌, ◌==◌, ==_iff, arith, if◌then◌else◌,
  find_first, find_first-update_self, find_first-update_other, Outcome, ok, err, Bool-cases,
  Option-cases, state_of, some_eq, ◌>>=◌,
}
use paywall.Dates.{Date}
use paywall.Subscriptions.Proration.{Scale}
use paywall.Subscriptions.StateMachine.{
  SubscriptionStatus, Reaches, here, next, expired, expired_final,
}
use paywall.Subscriptions.Model.{Db, Subscription, MutationOptions}
use paywall.Subscriptions.Store.{has_id, get_subscription}
use paywall.Subscriptions.Transition.{Compute, run_transition}
use paywall.Subscriptions.Transition.Cases.{run_transition_atomic, run_transition_cases}
use paywall.Subscriptions.Transition.Legality.{Frames, Stepped, committed_Stepped, committed_lookup}
use paywall.Subscriptions.Lifecycle.{
  activate_compute, expire_compute, resume_compute, pause_compute, past_due_compute,
  grace_period_compute, suspend_compute, reactivate_compute, activate, resume, pause, mark_past_due,
  enter_grace_period, expire, suspend, reactivate,
}
use paywall.Subscriptions.Lifecycle.Frames.{
  pure-Frames, activate_compute-Frames, expire_compute-Frames, renew_compute-Frames,
  change_compute-Frames,
}
use paywall.Subscriptions.Renewal.{renew, renew_compute}
use paywall.Subscriptions.Changes.{ChangeDto, change_compute, apply_change}
use paywall.Subscriptions.Cancellation.{CancelDto, cancel_compute, cancel}
use paywall.Subscriptions.Commands.{
  Command, creates, activates, renews, resumes, pauses, marks_past_due, expires, reactivates,
  enters_grace_period, suspends, cancels, changes, cancels_change, extends_trial, applies_coupon,
  removes_coupon, step, run,
}
use paywall.Subscriptions.Commands.Rows.{
  Touches, schedule_change_rows, cancel_scheduled_change_rows, cancel_later_rows, extend_trial_rows,
  cancel_now_rows, change_now_rows, create-Extends, apply_coupon-Extends, remove_coupon_rows,
}

-- Along a row: its status has moved by a chain of allowed transitions, its version has not fallen.
pub record Moved (s t : Subscription) : Type 0 where
  pub reaches : Reaches s.status t.status
  pub version : s.version ≤ t.version

-- The row of `key` is still there, and has moved.
abbrev Advances : ℕ → List Subscription → List Subscription → Type 0
Advances key rows rows' =
    (s : Subscription)
    → find_first (has_id key) rows ≡ some s
    → (t : Subscription) × (find_first (has_id key) rows' ≡ some t) × Moved s t

stay : (s : Subscription) → Moved s s
stay s = record { reaches = here; version = omega arith }

Advances-same : (key : ℕ) (rows rows' : List Subscription) → rows' ≡ rows → Advances key rows rows'
Advances-same key rows rows' e s found = (s, rw e found, stay s)

Stepped-Moved : (s t : Subscription) → Stepped s t → Moved s t
Stepped-Moved s t h = record { reaches = next here h.allowed; version = omega arith }

transition-Advances :
    (key id : ℕ) (options : MutationOptions) (user : ℕ) (compute : Compute)
    → Frames compute
    → (db : Db)
    → Advances key db.subscriptions
        (state_of (run_transition id options user compute db)).subscriptions
transition-Advances key id options user compute frames db s found =
    go (run_transition id options user compute db) refl
  where
    go :
        (o : Outcome Db Subscription)
        → run_transition id options user compute db ≡ o
        → (t : Subscription) × (find_first (has_id key) (state_of o).subscriptions ≡ some t)
          × Moved s t
    go (err e db') h =
        (s, rw (run_transition_atomic id options user compute db db' e h) found, stay s)
    go (ok t db') h =
        let (s', found', cases) = run_transition_cases id options user compute db h in
        elim cases [
          | inl (_, _, same) ↦ (s, rw same found, stay s)
          | inr c ↦
              let lookup = committed_lookup id options user compute frames c key found' in
              elim (Bool-cases (key == id)) [
                | inl e ↦
                    let k = (==_iff key id).0 e in
                    let same : s ≡ s' = some_eq (sym found ∙ rw k found') in
                    (
                      t,
                      rw (lookup, e),
                      rw same
                          (Stepped-Moved s' t (committed_Stepped id options user compute frames c)),
                    )
                | inr ne ↦ (s, rw (lookup, ne) found, stay s)
              ]
        ]

touch-Advances :
    (key id : ℕ) (rows rows' : List Subscription) → Touches id rows rows' → Advances key rows rows'
touch-Advances key id rows rows' (inl same) s found = (s, rw same found, stay s)
touch-Advances key id rows rows' (inr (f, e, keeps)) s found = elim (Bool-cases (key == id)) [
  | inl same ↦ (
    f s,
    rw (e, ← (==_iff key id).0 same)
        (rw (find_first-update_self (has_id key) f rows (λ x h. rw (keeps.id x) h), found)),
    record { reaches = rw (keeps.status s) here; version = keeps.version s },
  )
  | inr other ↦ (
    s,
    rw
        (
          e,
          find_first-update_other (has_id id) (has_id key) f rows
              (λ x h. (ground arith, ground (arith, keeps.id x))),
        )
        found,
    stay s,
  )
]

cancel-Advances :
    (key : ℕ) (now : Date) (id user : ℕ) (dto : CancelDto) (db : Db)
    → Advances key db.subscriptions (state_of (cancel now id user dto db)).subscriptions
unfolding cancel
cancel-Advances key now id user dto db = elim (Bool-cases dto.at_period_end) [
  | inl e ↦ rw (e, cancel) (touch-Advances key id _ _ (cancel_later_rows now id user dto db))
  | inr e ↦
      rw (e, cancel)
        (rw (cancel_now_rows now id user dto db) (
          transition-Advances key id dto.options user (cancel_compute now dto)
            (pure-Frames (cancel_compute now dto) (λ s db. (_, refl))) db))
]

change-Advances :
    (key : ℕ) (scale : Scale) (now : Date) (id user : ℕ) (dto : ChangeDto) (db : Db)
    → Advances key db.subscriptions (state_of (apply_change scale now id user dto db)).subscriptions
unfolding apply_change
change-Advances key scale now id user dto db =
    elim (Option-cases (find_first (has_id id) db.subscriptions)) [
      | inl missing ↦
          rw (missing, apply_change, get_subscription, state_of, ◌>>=◌) (Advances-same key _ _ refl)
      | inr (s, found) ↦ elim (Bool-cases dto.immediate) [
        | inl at_once ↦
            rw (found, at_once, apply_change, get_subscription, state_of, ◌>>=◌, if◌then◌else◌)
              (rw (change_now_rows scale now id user dto s db) (
                transition-Advances key id dto.options user (change_compute scale now dto)
                  (change_compute-Frames scale now dto) db))
        | inr later ↦
            rw (found, later, apply_change, get_subscription, state_of, ◌>>=◌, if◌then◌else◌)
              (Advances-same key _ _ (schedule_change_rows now id user dto s db))
      ]
    ]

step-Advances :
    (scale : Scale) (c : Date × ℕ × Command) (key : ℕ) (db : Db)
    → Advances key db.subscriptions (step scale c db).subscriptions
unfolding step activate renew resume pause mark_past_due expire reactivate enter_grace_period
    suspend
step-Advances scale (now, user, creates organization ip dto) key db =
    λ s found. (s, (create-Extends now organization user ip dto).holds db key s found, stay s)
step-Advances scale (now, user, activates id options) key db =
    transition-Advances key id options user (activate_compute now) (activate_compute-Frames now) db
step-Advances scale (now, user, renews id options) key db =
    transition-Advances key id options user (renew_compute now) (renew_compute-Frames now) db
step-Advances scale (now, user, resumes id options) key db =
    transition-Advances key id options user resume_compute
      (pure-Frames resume_compute (λ s db. (_, refl))) db
step-Advances scale (now, user, pauses id options) key db =
    transition-Advances key id options user pause_compute
      (pure-Frames pause_compute (λ s db. (_, refl))) db
step-Advances scale (now, user, marks_past_due id options) key db =
    transition-Advances key id options user past_due_compute
      (pure-Frames past_due_compute (λ s db. (_, refl))) db
step-Advances scale (now, user, expires id options) key db =
    transition-Advances key id options user expire_compute expire_compute-Frames db
step-Advances scale (now, user, reactivates id options) key db =
    transition-Advances key id options user reactivate_compute
      (pure-Frames reactivate_compute (λ s db. (_, refl))) db
step-Advances scale (now, user, enters_grace_period id options days) key db =
    transition-Advances key id options user (grace_period_compute now days)
      (pure-Frames (grace_period_compute now days) (λ s db. (_, refl))) db
step-Advances scale (now, user, suspends id options why) key db =
    transition-Advances key id options user (suspend_compute why)
      (pure-Frames (suspend_compute why) (λ s db. (_, refl))) db
step-Advances scale (now, user, cancels id dto) key db = cancel-Advances key now id user dto db
step-Advances scale (now, user, changes id dto) key db =
    change-Advances key scale now id user dto db
step-Advances scale (now, user, cancels_change id change_id) key db =
    Advances-same key _ _ (cancel_scheduled_change_rows now id change_id user db)
step-Advances scale (now, user, extends_trial id ends) key db =
    touch-Advances key id _ _ (extend_trial_rows id ends db)
step-Advances scale (now, user, applies_coupon id dto) key db =
    λ s found. (s, (apply_coupon-Extends now id user dto).holds db key s found, stay s)
step-Advances scale (now, user, removes_coupon id coupon_id) key db =
    Advances-same key _ _ (remove_coupon_rows now id coupon_id user db)

Reaches-trans : {a b c : SubscriptionStatus} → Reaches a b → Reaches b c → Reaches a c
Reaches-trans r here = r
Reaches-trans r (next q e) = next (Reaches-trans r q) e

-- Through any sequence of requests to the subscription service, whichever of them throw, a
-- subscription that the table holds is still found under its id, its status has moved by a chain of
-- allowed transitions, and its version has not fallen.
pub run-Moved :
    (scale : Scale) (cs : List (Date × ℕ × Command)) (key : ℕ) (db : Db) (s : Subscription)
    → find_first (has_id key) db.subscriptions ≡ some s
    → (t : Subscription) × (find_first (has_id key) (run scale cs db).subscriptions ≡ some t)
      × Moved s t
unfolding run
run-Moved scale [] key db s found = (s, found, stay s)
run-Moved scale (c ∷ cs) key db s found =
    let (t, found', moved) = step-Advances scale c key db s found in
    let (u, found'', moved') = run-Moved scale cs key (step scale c db) t found' in
    (
      u,
      found'',
      record { reaches = Reaches-trans moved.reaches moved'.reaches; version = omega arith },
    )

-- An expired subscription stays expired, whatever requests follow.
pub run-expired :
    (scale : Scale) (cs : List (Date × ℕ × Command)) (key : ℕ) (db : Db) (s : Subscription)
    → find_first (has_id key) db.subscriptions ≡ some s
    → s.status ≡ expired
    → (t : Subscription) × (find_first (has_id key) (run scale cs db).subscriptions ≡ some t)
      × (t.status ≡ expired)
run-expired scale cs key db s found e =
    let (t, found', moved) = run-Moved scale cs key db s found in
    (t, found', expired_final t.status (rw e at moved.reaches))
