-- ===== src/Subscriptions/Tests/Transitions.antt =====
-- The theorems on the transitions, applied.
use paywall.Prelude.{
  ◌≡◌, refl, ◌⊎◌, ◌↔◌, true, some, ◌∷◌, [], ◌++◌, conflict, ok, err, state_of, find_first, ◌==◌,
  if◌then◌else◌,
}
use paywall.Subscriptions.StateMachine.{
  active, paused, is_transition_allowed, is_transition_allowed_iff,
}
use paywall.Subscriptions.Model.{Db, Subscription, SubscriptionEvent}
use paywall.Subscriptions.Store.{has_id}
use paywall.Subscriptions.Transition.{is_replay, run_transition}
use paywall.Subscriptions.Transition.Legality.{Stepped, Recorded, run_transition_legal}
use paywall.Subscriptions.Transition.Retries.{run_transition_retry, run_transition_race}
use paywall.Subscriptions.Lifecycle.{pause_compute, resume_compute}
use paywall.Subscriptions.Lifecycle.Frames.{pure-Frames}
use paywall.Subscriptions.Tests.{result_or, row_in, db_in, keyed, at_first_version}

abbrev paused_row : Subscription
unfolding run_transition
paused_row = result_or (row_in active) (run_transition 1 keyed 9 pause_compute (db_in active))

abbrev after_pause : Db
unfolding run_transition
after_pause = state_of (run_transition 1 keyed 9 pause_compute (db_in active))

run_transition_legal_example :
    (s : Subscription) × (find_first (has_id 1) (db_in active).subscriptions ≡ some s)
    × (((is_replay keyed (db_in active) ≡ true) × (paused_row ≡ s) × (after_pause ≡ db_in active))
        ⊎ ((e : SubscriptionEvent) × Stepped s paused_row
            × (find_first (has_id 1) after_pause.subscriptions ≡ (
                if 1 == 1
                then some paused_row
                else find_first (has_id 1) (db_in active).subscriptions))
            × (after_pause.events ≡ (db_in active).events ++ e ∷ [])
            × Recorded 1 keyed s paused_row e))
unfolding run_transition find_first
run_transition_legal_example =
    run_transition_legal 1 keyed 9 pause_compute (pure-Frames pause_compute (λ x d. (_, refl)))
      (db_in active) paused_row after_pause 1 refl

run_transition_retry_example :
    run_transition 1 keyed 8 resume_compute after_pause ≡ ok paused_row after_pause
unfolding run_transition find_first
run_transition_retry_example =
    run_transition_retry 1 keyed 9 pause_compute (pure-Frames pause_compute (λ x d. (_, refl)))
      (db_in active) paused_row after_pause keyed 8 resume_compute refl refl refl

abbrev raced_row : Subscription
unfolding run_transition find_first
raced_row =
    result_or (row_in active) (run_transition 1 at_first_version 9 pause_compute (db_in active))

abbrev after_race : Db
unfolding run_transition find_first
after_race = state_of (run_transition 1 at_first_version 9 pause_compute (db_in active))

run_transition_race_example :
    run_transition 1 at_first_version 8 resume_compute after_race ≡ err conflict after_race
unfolding run_transition find_first
run_transition_race_example =
    run_transition_race 1 at_first_version 9 pause_compute
      (pure-Frames pause_compute (λ x d. (_, refl))) (db_in active) raced_row after_race
      at_first_version 8 resume_compute 1 refl refl refl refl refl

-- Pausing and resuming, by the chain of the allow-list.
is_transition_allowed_iff_example : (is_transition_allowed active paused ≡ true) ↔ (active ≡ active)
is_transition_allowed_iff_example = is_transition_allowed_iff active paused
