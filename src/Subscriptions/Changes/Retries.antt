-- ===== src/Subscriptions/Changes/Retries.antt =====
-- Retries of an immediate change.
use paywall.Prelude.{
  ℕ, ◌≡◌, refl, sym, inl, inr, true, Option, none, some, Option-cases, arith, if◌then◌else◌,
  find_first, ok, ◌>>=◌, ok_injective, >>=-eq-ok,
}
use paywall.Dates.{Date}
use paywall.Subscriptions.Proration.{Scale}
use paywall.Subscriptions.Model.{Db, Subscription, is_given}
use paywall.Subscriptions.Store.{has_id, find_event, get_subscription}
use paywall.Subscriptions.Transition.{ProrationInfo, is_replay, run_transition_info, run_transition}
use paywall.Subscriptions.Transition.Retries.{key_used, run_transition_info_replay}
use paywall.Subscriptions.Lifecycle.Frames.{change_compute-Frames}
use paywall.Subscriptions.Changes.{
  ChangeDto, change_compute, record_financial, report, Change, changed, after_change, change_now,
  apply_change,
}

report-events :
    (s : Subscription) (info : Option ProrationInfo) (db : Db)
    → (report s info db).events ≡ db.events
unfolding record_financial
report-events s none db = refl
report-events s (some info) db = ground arith

report-subscriptions :
    (s : Subscription) (info : Option ProrationInfo) (db : Db)
    → (report s info db).subscriptions ≡ db.subscriptions
unfolding record_financial
report-subscriptions s none db = refl
report-subscriptions s (some info) db = ground arith

-- The parts of an immediate change that succeeds.
pub change_now_parts :
    (scale : Scale) (now : Date) (id user : ℕ) (dto : ChangeDto) (s : Subscription) (db : Db)
    {c : Change} {db' : Db}
    → change_now scale now id user dto s db ≡ ok c db'
    → (t : Subscription) × (info : Option ProrationInfo) × (mid : Db) × (run_transition_info id
          dto.options user
          (change_compute scale now dto)
          db
        ≡ ok (t, info) mid)
      × (c ≡ changed t)
      × (db' ≡ report s info mid)
unfolding change_now
change_now_parts scale now id user dto s db h =
    let ((t, info), mid, ran, rest) =
      >>=-eq-ok (run_transition_info id dto.options user (change_compute scale now dto))
        (after_change s) db h in
    let (e, e') = ok_injective rest in (t, info, mid, ran, sym e, sym e')

change_now_retry :
    (scale : Scale) (now later : Date) (id user : ℕ) (dto : ChangeDto) (s : Subscription) (db : Db)
    {c : Change} {db' : Db}
    → is_given dto.options.idempotency_key ≡ true
    → change_now scale now id user dto s db ≡ ok c db'
    → (t : Subscription) × (find_first (has_id id) db'.subscriptions ≡ some t)
      × (change_now scale later id user dto t db' ≡ ok c db')
unfolding change_now run_transition find_event
change_now_retry scale now later id user dto s db {c} {db'} given h =
    let (t, info, mid, ran, e, e') = change_now_parts scale now id user dto s db h in
    let moved : run_transition id dto.options user (change_compute scale now dto) db ≡ ok t mid =
      rw (ran, run_transition, ◌>>=◌) in
    let (found, used) =
      key_used id dto.options user (change_compute scale now dto)
        (change_compute-Frames scale now dto) db given moved in
    let found' : find_first (has_id id) db'.subscriptions ≡ some t =
      rw (e', report-subscriptions s info mid) found in
    let used' : is_replay dto.options db' ≡ true = rw (e', report-events s info mid) used in
    (
      t,
      found',
      rw (
        run_transition_info_replay id dto.options user (change_compute scale later dto) db' found'
            used',
        change_now,
        ◌>>=◌,
        e,
      ),
    )

-- An immediate applyChange is applyChange's `getOwnedById` and then the change.
pub apply_change_parts :
    (scale : Scale) (now : Date) (id user : ℕ) (dto : ChangeDto) (db : Db) {c : Change} {db' : Db}
    → dto.immediate ≡ true
    → apply_change scale now id user dto db ≡ ok c db'
    → (s : Subscription) × (find_first (has_id id) db.subscriptions ≡ some s)
      × (change_now scale now id user dto s db ≡ ok c db')
unfolding apply_change get_subscription
apply_change_parts scale now id user dto db at_once h =
    elim (Option-cases (find_first (has_id id) db.subscriptions)) [
      | inl missing ↦ cc (rw (missing, apply_change, get_subscription, ◌>>=◌) at h)
      | inr (s, found) ↦
          (s, found, rw (found, at_once, apply_change, get_subscription, ◌>>=◌, if◌then◌else◌) at h)
    ]

-- An immediate change that has succeeded and is retried with its idempotency key, at whatever time,
-- gives the same result and leaves the database as it is: nothing is charged twice.
pub apply_change_retry :
    (scale : Scale) (now later : Date) (id user : ℕ) (dto : ChangeDto) (db : Db) (c : Change)
    (db' : Db)
    → dto.immediate ≡ true
    → is_given dto.options.idempotency_key ≡ true
    → apply_change scale now id user dto db ≡ ok c db'
    → apply_change scale later id user dto db' ≡ ok c db'
unfolding apply_change get_subscription
apply_change_retry scale now later id user dto db c db' at_once given h =
    let (s, found, done) = apply_change_parts scale now id user dto db at_once h in
    let (t, found', again) = change_now_retry scale now later id user dto s db given done in
    rw (found', at_once, apply_change, get_subscription, ◌>>=◌, if◌then◌else◌) again
