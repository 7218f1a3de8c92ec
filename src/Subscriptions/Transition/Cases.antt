-- ===== src/Subscriptions/Transition/Cases.antt =====
-- What a run of `runTransition` can come to: a throw, a replay of a used key, or a commit.
use paywall.Prelude.{
  ℕ, ◌≡◌, ◌≢◌, refl, sym, ap, ◌∙◌, ◌⊎◌, inl, inr, true, false, Option, none, some, [], ◌∷◌, ◌++◌,
  arith, is_some, find_first, update_all, Bool-cases, Option-cases, Outcome, ok, err, Error,
  transaction, transaction_atomic, transaction-eq-ok, >>=-eq-ok, >>=-eq-err, ok_injective,
  if◌then◌else◌, ◌>>=◌,
}
use paywall.Subscriptions.StateMachine.{Enters, is_transition_allowed}
use paywall.Subscriptions.Model.{Db, Subscription, MutationOptions}
use paywall.Subscriptions.Store.{has_id, find_event, get_subscription}
use paywall.Subscriptions.Transition.{
  Compute, TransitionResult, apply_update, version_fits, is_replay, transition_event,
  commit_transition, transition_body, publish_transition, info_of, run_transition_info,
  run_transition, ProrationInfo,
}

-- The database after the two writes of a transition.
abbrev pub written : ℕ → Subscription → MutationOptions → ℕ → TransitionResult → Db → Db
written id s options user_id r db = record db {
  subscriptions = update_all (has_id id) (apply_update r.update r.to_status) db.subscriptions;
  events = db.events ++ transition_event id s options user_id r ∷ [];
}

pub record Committed (id : ℕ) (options : MutationOptions) (user_id : ℕ) (compute : Compute)
    (s : Subscription) (db : Db) (t : Subscription) (db' : Db) : Type 0 where
  pub r : TransitionResult
  pub mid : Db
  pub computed : compute s db ≡ ok r mid
  pub fits : version_fits options s ≡ true
  pub allowed : is_transition_allowed s.status r.to_status ≡ true
  pub key_free : is_some (find_event options.idempotency_key mid) ≡ false
  pub row : t ≡ apply_update r.update r.to_status s
  pub result : db' ≡ publish_transition (some r) t (written id s options user_id r mid)

-- Why a transition that is not a replay is refused.
pub data Refusal (options : MutationOptions) (compute : Compute) (s : Subscription) (db : Db)
    : Type 0 where
  stale : (v : ℕ) → options.expected_version ≡ some v → s.version ≢ v → Refusal options compute s db
  illegal :
      (r : TransitionResult) (mid : Db)
      → compute s db ≡ ok r mid
      → ¬ Enters r.to_status s.status
      → Refusal options compute s db

module _ (id : ℕ) (options : MutationOptions) (user_id : ℕ) (compute : Compute) where
  pub run_transition_info_atomic :
      (db db' : Db) (e : Error)
      → run_transition_info id options user_id compute db ≡ err e db'
      → db' ≡ db
  unfolding run_transition_info
  run_transition_info_atomic db db' e h =
      transaction_atomic (transition_body id options user_id compute) _ db
        (λ (s, result) d. ((s, info_of result), publish_transition result s d, refl)) h

  pub run_transition_atomic :
      (db db' : Db) (e : Error)
      → run_transition id options user_id compute db ≡ err e db'
      → db' ≡ db
  unfolding run_transition
  run_transition_atomic db db' e h = run_transition_info_atomic db db' e (
      >>=-eq-err (run_transition_info id options user_id compute) _ db (λ (s, info) d. (s, d, refl))
        h)

  -- The facts of a commit, before the publication.
  abbrev Commits : Subscription → Db → Subscription × Option TransitionResult → Db → Type 0
  Commits s db p d =
      (r : TransitionResult) × (mid : Db) × (compute s db ≡ ok r mid)
      × (version_fits options s ≡ true)
      × (is_transition_allowed s.status r.to_status ≡ true)
      × (is_some (find_event options.idempotency_key mid) ≡ false)
      × (p ≡ (apply_update r.update r.to_status s, some r))
      × (d ≡ written id s options user_id r mid)

  commit_transition-Commits :
      (s : Subscription) (db : Db) {p : Subscription × Option TransitionResult} {d : Db}
      → commit_transition id options user_id compute s db ≡ ok p d
      → Commits s db p d
  unfolding commit_transition
  commit_transition-Commits s db {p} {d} h = elim (Bool-cases (version_fits options s)) [
    | inr no_fit ↦ cc (rw (no_fit, commit_transition) at h)
    | inl fits ↦ go (compute s db) refl fits
  ]
    where
      go :
          (o : Outcome Db TransitionResult)
          → compute s db ≡ o
          → version_fits options s ≡ true
          → Commits s db p d
      go (err e₁ d₁) q f = ground arith
      go (ok r mid) q f = (r, mid, q, f, ground arith, ground arith, ground arith, ground arith)

  abbrev Body : Db → Subscription × Option TransitionResult → Db → Type 0
  Body db p d =
      (s : Subscription) × (find_first (has_id id) db.subscriptions ≡ some s)
      × (((is_replay options db ≡ true) × (p ≡ (s, none)) × (d ≡ db))
          ⊎ (commit_transition id options user_id compute s db ≡ ok p d))

  transition_body-Body :
      (db : Db) {p : Subscription × Option TransitionResult} {d : Db}
      → transition_body id options user_id compute db ≡ ok p d
      → Body db p d
  unfolding transition_body
  transition_body-Body db {p} {d} h =
      elim (Option-cases (find_first (has_id id) db.subscriptions)) [
        | inl missing ↦ cc (rw (missing, transition_body, get_subscription, ◌>>=◌) at h)
        | inr (s, found) ↦ elim (Bool-cases (is_replay options db)) [
          | inl replay ↦
              let h' = ok_injective (
                rw (found, replay, transition_body, get_subscription, ◌>>=◌, if◌then◌else◌) at h) in
              (s, found, inl (replay, sym h'.0, sym h'.1))
          | inr fresh ↦ (
            s,
            found,
            inr (rw (found, fresh, transition_body, get_subscription, ◌>>=◌, if◌then◌else◌) at h),
          )
        ]
      ]

  -- A transition that goes through found its row, and is a replay or has committed.
  pub run_transition_info_cases :
      (db : Db) {t : Subscription} {info : Option ProrationInfo} {db' : Db}
      → run_transition_info id options user_id compute db ≡ ok (t, info) db'
      → (s : Subscription) × (find_first (has_id id) db.subscriptions ≡ some s)
        × (((is_replay options db ≡ true) × (t ≡ s) × (db' ≡ db) × (info ≡ none))
            ⊎ ((c : Committed id options user_id compute s db t db') × (info ≡ c.r.info)))
  unfolding run_transition_info
  run_transition_info_cases db {t} {info} {db'} h =
      let (p, d, e, f) =
        >>=-eq-ok (transaction (transition_body id options user_id compute)) _ db h in
      let e' = transaction-eq-ok (transition_body id options user_id compute) db e in
      let (row, after) = ok_injective f in
      go p d (ap (λ x. x.0) row) (ap (λ x. x.1) row) after (transition_body-Body db e')
    where
      go :
          (p : Subscription × Option TransitionResult) (d : Db)
          → p.0 ≡ t
          → info_of p.1 ≡ info
          → publish_transition p.1 p.0 d ≡ db'
          → Body db p d
          → (s : Subscription) × (find_first (has_id id) db.subscriptions ≡ some s)
            × (((is_replay options db ≡ true) × (t ≡ s) × (db' ≡ db) × (info ≡ none))
                ⊎ ((c : Committed id options user_id compute s db t db') × (info ≡ c.r.info)))
      go p d row told after (s, found, inl (replay, q, same)) = (
        s,
        found,
        inl (
          replay,
          sym row ∙ ap (λ x. x.0) q,
          sym after ∙ (λ i. publish_transition (q i).1 (q i).0 (same i)),
          sym told ∙ ap (λ x. info_of x.1) q,
        ),
      )
      go p d row told after (s, found, inr c) =
          let (r, mid, computed, fits, allowed, free, q, q') = commit_transition-Commits s db c in
          (
            s,
            found,
            inr (
              record {
                r = r;
                mid = mid;
                computed = computed;
                fits = fits;
                allowed = allowed;
                key_free = free;
                row = sym row ∙ ap (λ x. x.0) q;
                result = sym after ∙ (λ i. publish_transition (q i).1 (row i) (q' i));
              },
              sym told ∙ ap (λ x. info_of x.1) q,
            ),
          )

  pub run_transition_cases :
      (db : Db) {t : Subscription} {db' : Db}
      → run_transition id options user_id compute db ≡ ok t db'
      → (s : Subscription) × (find_first (has_id id) db.subscriptions ≡ some s)
        × (((is_replay options db ≡ true) × (t ≡ s) × (db' ≡ db))
            ⊎ Committed id options user_id compute s db t db')
  unfolding run_transition
  run_transition_cases db {t} {db'} h =
      let (p, d, e, f) = >>=-eq-ok (run_transition_info id options user_id compute) _ db h in
      let (row, after) = ok_injective f in
      let e' : run_transition_info id options user_id compute db ≡ ok (t, p.1) db' =
        e ∙ (λ i. ok (row i, p.1) (after i)) in
      let (s, found, cases) = run_transition_info_cases db e' in
      (
        s,
        found,
        elim cases [
          | inl (replay, same, unchanged, _) ↦ inl (replay, same, unchanged)
          | inr (c, _) ↦ inr c
        ],
      )
