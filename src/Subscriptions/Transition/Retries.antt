-- ===== src/Subscriptions/Transition/Retries.antt =====
-- Retries with an idempotency key, and writers that race on a version.
use paywall.Prelude.{
  ℕ, suc, ◌≡◌, refl, inl, inr, true, false, Option, none, some, List, [], ◌∷◌, ◌++◌, arith, is_some,
  or_else, ◌==◌, eq_refl, if◌then◌else◌, Option-cases, find_first, find_first-append, ok, err,
  conflict, ◌>>=◌, guard,
}
use paywall.Subscriptions.Model.{Db, Subscription, SubscriptionEvent, MutationOptions, is_given}
use paywall.Subscriptions.Store.{has_id, same_key, find_event, get_subscription}
use paywall.Subscriptions.Transition.{
  Compute, is_replay, version_fits, transition_event, commit_transition, transition_body,
  run_transition_info, run_transition,
}
use paywall.Subscriptions.Transition.Cases.{run_transition_cases}
use paywall.Subscriptions.Transition.Legality.{
  Frames, committed_events, committed_row, committed_Stepped,
}

-- A used key makes the whole operation a read.
pub run_transition_info_replay :
    (id : ℕ) (options : MutationOptions) (user_id : ℕ) (compute : Compute) (db : Db)
    {s : Subscription}
    → find_first (has_id id) db.subscriptions ≡ some s
    → is_replay options db ≡ true
    → run_transition_info id options user_id compute db ≡ ok (s, none) db
unfolding run_transition_info
run_transition_info_replay id options user_id compute db found replay =
    rw (found, replay, run_transition_info, transition_body, get_subscription, ◌>>=◌, if◌then◌else◌)

pub run_transition_replay :
    (id : ℕ) (options : MutationOptions) (user_id : ℕ) (compute : Compute) (db : Db)
    {s : Subscription}
    → find_first (has_id id) db.subscriptions ≡ some s
    → is_replay options db ≡ true
    → run_transition id options user_id compute db ≡ ok s db
unfolding run_transition
run_transition_replay id options user_id compute db found replay =
    rw (found, replay, run_transition, transition_body, get_subscription, ◌>>=◌, if◌then◌else◌)

pub run_transition_stale :
    (id : ℕ) (options : MutationOptions) (user_id : ℕ) (compute : Compute) (db : Db)
    {s : Subscription}
    → find_first (has_id id) db.subscriptions ≡ some s
    → is_replay options db ≡ false
    → version_fits options s ≡ false
    → run_transition id options user_id compute db ≡ err conflict db
unfolding run_transition
run_transition_stale id options user_id compute db found fresh stale = rw (
  found, fresh, stale, run_transition, transition_body, commit_transition, get_subscription, ◌>>=◌,
  if◌then◌else◌, guard,
)

pub key_found :
    (key : Option ℕ) (es : List SubscriptionEvent) (e : SubscriptionEvent)
    → is_given key ≡ true
    → e.idempotency_key ≡ key
    → is_some (find_first (same_key key) (es ++ e ∷ [])) ≡ true
unfolding find_first
key_found none es e given same = cc
key_found (some k) es e given same =
    rw (find_first-append (same_key (some k)) es (e ∷ []))
      (elim (Option-cases (find_first (same_key (some k)) es)) [
        | inl miss ↦ rw (miss, or_else, find_first, same) (rw (eq_refl k))
        | inr (x, hit) ↦ rw (hit, or_else)
      ])

module _ (id : ℕ) (options : MutationOptions) (user_id : ℕ) (compute : Compute)
    (frames : Frames compute) where
  -- After a success under a given key the row is the one that was returned, and the key is used.
  pub key_used :
      (db : Db) {t : Subscription} {db' : Db}
      → is_given options.idempotency_key ≡ true
      → run_transition id options user_id compute db ≡ ok t db'
      → (find_first (has_id id) db'.subscriptions ≡ some t) × (is_replay options db' ≡ true)
  unfolding find_event
  key_used db {t} {db'} given h =
      let (s, found, cases) = run_transition_cases id options user_id compute db h in
      elim cases [
        | inl (replay, same, unchanged) ↦ (rw (unchanged, same) found, rw unchanged replay)
        | inr c ↦ (
          committed_row id options user_id compute frames c found,
          rw given (
              rw (committed_events id options user_id compute frames c) (
                key_found options.idempotency_key db.events
                  (transition_event id s options user_id c.r) given refl)),
        )
      ]

  -- After a transition under a given key has succeeded, any transition of the same subscription with
  -- the same key succeeds with the same row and changes nothing.
  pub run_transition_retry :
      (db : Db) (t : Subscription) (db' : Db) (retry : MutationOptions) (retry_user : ℕ)
      (again : Compute)
      → is_given options.idempotency_key ≡ true
      → retry.idempotency_key ≡ options.idempotency_key
      → run_transition id options user_id compute db ≡ ok t db'
      → run_transition id retry retry_user again db' ≡ ok t db'
  run_transition_retry db t db' retry retry_user again given same h =
      let (found, used) = key_used db given h in
      run_transition_replay id retry retry_user again db' found (rw same used)

  -- Of two transitions without a key that expect the same version of a row, the second one to run
  -- conflicts and changes nothing once the first has succeeded.
  pub run_transition_race :
      (db : Db) (t : Subscription) (db' : Db) (later : MutationOptions) (later_user : ℕ)
      (other : Compute) (version : ℕ)
      → is_given options.idempotency_key ≡ false
      → options.expected_version ≡ some version
      → is_given later.idempotency_key ≡ false
      → later.expected_version ≡ some version
      → run_transition id options user_id compute db ≡ ok t db'
      → run_transition id later later_user other db' ≡ err conflict db'
  run_transition_race db t db' later later_user other version no_key expected no_key' expected' h =
      let (s, found, cases) = run_transition_cases id options user_id compute db h in
      elim cases [
        | inl (replay, _, _) ↦ cc (rw no_key at replay)
        | inr c ↦
            let step = committed_Stepped id options user_id compute frames c in
            run_transition_stale id later later_user other db'
              (committed_row id options user_id compute frames c found) (rw no_key')
              (rw expected' (stale s t version step.version (rw expected at c.fits)))
      ]
    where
      stale :
          (s t : Subscription) (v : ℕ)
          → t.version ≡ suc s.version
          → (s.version == v) ≡ true
          → (t.version == v) ≡ false
      stale s t v e f = ground arith
