-- ===== src/Subscriptions/Transition/Legality.antt =====
-- What a successful run of `runTransition` does to the rows, the versions and the event history.
use paywall.Prelude.{
  ℕ, suc, ◌≡◌, refl, sym, ap, ◌∙◌, ◌⊎◌, inl, inr, if◌then◌else◌, Bool-cases, true, Option, none,
  some, [], ◌∷◌, ◌++◌, arith, find_first, update_all, find_first-update_self,
  find_first-update_other, ok, ◌==◌, ==_iff,
}
use paywall.Subscriptions.StateMachine.{is_transition_allowed}
use paywall.Subscriptions.Model.{
  Db, Subscription, SubscriptionEvent, MutationOptions, PlatformEventType,
}
use paywall.Subscriptions.Store.{has_id}
use paywall.Subscriptions.Transition.{
  Compute, TransitionResult, apply_update, is_replay, transition_event, platform_event,
  publish_type, publish_transition, run_transition,
}
use paywall.Subscriptions.Transition.Cases.{Committed, run_transition_cases}

-- A computation of a transition that writes neither subscriptions nor events.
abbrev pub Frames : Compute → Type 0
Frames compute =
    (s : Subscription) (db : Db) (r : TransitionResult) (mid : Db)
    → compute s db ≡ ok r mid
    → (mid.subscriptions ≡ db.subscriptions) × (mid.events ≡ db.events)

pub publish_transition_frame :
    (result : Option TransitionResult) (s : Subscription) (db : Db)
    → ((publish_transition result s db).subscriptions ≡ db.subscriptions)
      × ((publish_transition result s db).events ≡ db.events)
unfolding publish_transition
publish_transition_frame none s db = (refl, refl)
publish_transition_frame (some r) s db = go (platform_event r.event_type)
  where
    go :
        (p : Option PlatformEventType)
        → ((publish_type p s db).subscriptions ≡ db.subscriptions)
          × ((publish_type p s db).events ≡ db.events)
    go none = (refl, refl)
    go (some q) = (refl, refl)

-- A legal step of a row: an allowed change of status, and the next version.
pub record Stepped (s t : Subscription) : Type 0 where
  pub allowed : is_transition_allowed s.status t.status ≡ true
  pub version : t.version ≡ suc s.version
  pub id : t.id ≡ s.id

-- The event that a transition leaves.
pub record Recorded (id : ℕ) (options : MutationOptions) (s t : Subscription)
    (e : SubscriptionEvent) : Type 0 where
  pub subject : e.subscription_id ≡ id
  pub from : e.from_status ≡ some s.status
  pub to : e.to_status ≡ some t.status
  pub key : e.idempotency_key ≡ options.idempotency_key

module _ (id : ℕ) (options : MutationOptions) (user_id : ℕ) (compute : Compute)
    (frames : Frames compute) where
  module _ {s : Subscription} {db : Db} {t : Subscription} {db' : Db}
      (c : Committed id options user_id compute s db t db') where
    pub committed_subscriptions :
        db'.subscriptions
        ≡ update_all (has_id id) (apply_update c.r.update c.r.to_status) db.subscriptions
    committed_subscriptions =
        ap (λ d. d.subscriptions) c.result
        ∙ (publish_transition_frame (some c.r) t _).0
        ∙ ap (update_all (has_id id) (apply_update c.r.update c.r.to_status))
            (frames s db c.r c.mid c.computed).0

    pub committed_events : db'.events ≡ db.events ++ transition_event id s options user_id c.r ∷ []
    committed_events =
        ap (λ d. d.events) c.result
        ∙ (publish_transition_frame (some c.r) t _).1
        ∙ ap (λ es. es ++ transition_event id s options user_id c.r ∷ [])
            (frames s db c.r c.mid c.computed).1

    pub committed_Stepped : Stepped s t
    unfolding apply_update
    committed_Stepped = record {
      allowed = rw c.row c.allowed;
      version = ap (λ x. x.version) c.row;
      id = ap (λ x. x.id) c.row;
    }

    pub committed_row :
        find_first (has_id id) db.subscriptions ≡ some s
        → find_first (has_id id) db'.subscriptions ≡ some t
    unfolding apply_update
    committed_row found =
        rw
          (
            committed_subscriptions,
            find_first-update_self (has_id id) (apply_update c.r.update c.r.to_status)
                db.subscriptions (λ x h. h),
            found,
          )
          (ap some (sym c.row))

    pub committed_lookup :
        (key : ℕ)
        → find_first (has_id id) db.subscriptions ≡ some s
        → find_first (has_id key) db'.subscriptions
          ≡ (if key == id then some t else find_first (has_id key) db.subscriptions)
    unfolding apply_update
    committed_lookup key found = elim (Bool-cases (key == id)) [
      | inl e ↦ rw (e, (==_iff key id).0 e) (committed_row found)
      | inr ne ↦
          rw (ne, committed_subscriptions)
            (find_first-update_other (has_id id) (has_id key) _ db.subscriptions
              (λ x e. (ground arith, ground arith)))
    ]

  -- A transition that succeeds, with a computation that writes neither subscriptions nor events,
  -- either is a replay of a used key and changes nothing, or takes its row by an allowed change of
  -- status to the next version, leaves every other row as it was, and appends one event that names
  -- the two statuses and carries the key.
  pub run_transition_legal :
      (db : Db) (t : Subscription) (db' : Db) (key : ℕ)
      → run_transition id options user_id compute db ≡ ok t db'
      → (s : Subscription) × (find_first (has_id id) db.subscriptions ≡ some s)
        × (((is_replay options db ≡ true) × (t ≡ s) × (db' ≡ db))
            ⊎ ((e : SubscriptionEvent) × Stepped s t
                × (find_first (has_id key) db'.subscriptions
                    ≡ (if key == id then some t else find_first (has_id key) db.subscriptions))
                × (db'.events ≡ db.events ++ e ∷ [])
                × Recorded id options s t e))
  unfolding apply_update
  run_transition_legal db t db' key h =
      let (s, found, cases) = run_transition_cases id options user_id compute db h in
      (
        s,
        found,
        elim cases [
          | inl replay ↦ inl replay
          | inr c ↦ inr (
            transition_event id s options user_id c.r,
            committed_Stepped c,
            committed_lookup c key found,
            committed_events c,
            record {
              subject = refl;
              from = refl;
              to = ap (λ x. some x.status) (sym c.row);
              key = refl;
            },
          )
        ],
      )
