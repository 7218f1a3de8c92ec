-- ===== src/Subscriptions/Cancellation/Repeated.antt =====
-- A cancellation at the period's end that is retried with its idempotency key.
use mathlib.Core.Option
use paywall.Prelude.{
  ℕ, ◌+◌, ◌≡◌, refl, ap, ◌∙◌, true, Option, none, some, [], ◌∷◌, ◌++◌, is_some, arith, find_first,
  update_all, find_first-update_self, length, length-append, ok, err, unique_violation, state_of,
}
use paywall.Dates.{Date}
use paywall.Subscriptions.Model.{Db, Subscription, is_given}
use paywall.Subscriptions.Store.{
  has_id, same_key, find_event, create_event, get_subscription, update_subscription, fresh_id,
  record_audit,
}
use paywall.Subscriptions.Transition.Retries.{key_found}
use paywall.Subscriptions.Cancellation.{
  CancelDto, flag_cancel, scheduled_event, scheduled_row, cancel_later,
}

-- What a success finds.
cancel_later_found :
    (now : Date) (id user : ℕ) (dto : CancelDto) (db : Db) {t : Subscription} {db' : Db}
    → cancel_later now id user dto db ≡ ok t db'
    → (s : Subscription) × (find_first (has_id id) db.subscriptions ≡ some s)
unfolding cancel_later get_subscription
cancel_later_found now id user dto db {t} {db'} h =
    go (find_first (has_id id) db.subscriptions) refl
  where
    go :
        (o : Option Subscription)
        → find_first (has_id id) db.subscriptions ≡ o
        → (s : Subscription) × (find_first (has_id id) db.subscriptions ≡ some s)
    go (some s) e = (s, e)
    go none e = absurd (ground arith)

-- What a success leaves.
cancel_later_effect :
    (now : Date) (id user : ℕ) (dto : CancelDto) (db : Db) (s : Subscription) {t : Subscription}
    {db' : Db}
    → find_first (has_id id) db.subscriptions ≡ some s
    → cancel_later now id user dto db ≡ ok t db'
    → (db'.subscriptions ≡ update_all (has_id id) (flag_cancel dto.why) db.subscriptions)
      × (db'.events ≡ db.events ++ scheduled_event id user dto ∷ [])
unfolding cancel_later create_event find_event get_subscription update_subscription
cancel_later_effect now id user dto db s {t} {db'} found h = ground arith

-- After a cancellation at the period's end under a given key has succeeded, the same request with
-- the same key fails on the unique constraint of the events, and has by then written a second
-- scheduled change.
pub cancel_later_repeated :
    (now later : Date) (id user : ℕ) (dto : CancelDto) (db : Db) (t : Subscription) (db' : Db)
    → is_given dto.options.idempotency_key ≡ true
    → cancel_later now id user dto db ≡ ok t db'
    → (cancel_later later id user dto db'
        ≡ err unique_violation (state_of (cancel_later later id user dto db')))
      × (length (state_of (cancel_later later id user dto db')).changes ≡ length db'.changes + 1)
unfolding cancel_later create_event find_event get_subscription update_subscription fresh_id
    record_audit
cancel_later_repeated now later id user dto db t db' given h =
    let (s, found) = cancel_later_found now id user dto db h in
    let (rows, logged) = cancel_later_effect now id user dto db s found h in
    let found' : find_first (has_id id) db'.subscriptions ≡ some (flag_cancel dto.why s) = rw rows (
      find_first-update_self (has_id id) (flag_cancel dto.why) db.subscriptions (λ x fits. fits)
      ∙ ap (Option.map (flag_cancel dto.why)) found) in
    let used : is_some (find_first (same_key dto.options.idempotency_key) db'.events) ≡ true =
      rw logged (
        key_found dto.options.idempotency_key db.events (scheduled_event id user dto) given refl) in
    ground (
      arith,
      found',
      used,
      length-append db'.changes
          (scheduled_row later db'.next_id id user (flag_cancel dto.why s) ∷ []),
    )
