-- ===== src/Subscriptions/Tests/Histories.antt =====
-- The theorems on histories, applied.
use paywall.Prelude.{◌≡◌, refl, some, [], ◌∷◌, List, ℕ, find_first}
use paywall.Dates.{Date}
use paywall.Subscriptions.StateMachine.{active, expired}
use paywall.Subscriptions.Model.{Subscription}
use paywall.Subscriptions.Store.{has_id}
use paywall.Subscriptions.Commands.{Command, renews, pauses, activates, run}
use paywall.Subscriptions.Commands.Histories.{Moved, run-Moved, run-expired}
use paywall.Subscriptions.Tests.{days, row_in, db_in, no_options, keyed}
use paywall.Subscriptions.Tests.Rounding.{nearest}

abbrev history : List (Date × ℕ × Command)
history =
    (days 5, 9, pauses 1 no_options)
    ∷ (days 6, 9, pauses 1 no_options)
    ∷ (days 31, 9, renews 1 keyed)
    ∷ (days 32, 9, activates 7 keyed)
    ∷ []

run-Moved_example :
    (t : Subscription) × (find_first (has_id 1) (run nearest history (db_in active)).subscriptions
      ≡ some t)
    × Moved (row_in active) t
unfolding find_first
run-Moved_example = run-Moved nearest history 1 (db_in active) (row_in active) refl

run-expired_example :
    (t : Subscription) × (find_first (has_id 1) (run nearest history (db_in expired)).subscriptions
      ≡ some t)
    × (t.status ≡ expired)
unfolding find_first
run-expired_example = run-expired nearest history 1 (db_in expired) (row_in expired) refl refl
