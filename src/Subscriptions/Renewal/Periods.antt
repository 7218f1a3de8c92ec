-- ===== src/Subscriptions/Renewal/Periods.antt =====
-- What a renewal does to the period, the plan and the status of a subscription.
use paywall.Prelude.{
  ℕ, ◌≤◌, ◌<◌, ◌≡◌, ◌⊎◌, ◌&&◌, eq_refl, Bool-cases, Option-cases, Every, Every-map, Member,
  find_first-Member, find_first-Every, find_first-true, sym, ap, ◌∙◌, inl, inr, Bool, true, false,
  ◌||◌, Option, some, ◌==◌, arith, is_some, get_or, if◌then◌else◌, find_first, ok, ok_injective,
  >>=-eq-ok, ◌>>=◌, some_eq,
}
use paywall.Dates.{Date}
use paywall.Dates.Billing.{add_billing_interval_advances}
use paywall.Subscriptions.StateMachine.{active, canceled}
use paywall.Subscriptions.Model.{
  Db, Subscription, SubscriptionChange, Price, MutationOptions, is_given, SubscriptionChangeType,
  cancel_at_period_end, SubscriptionChangeStatus, pending,
}
use paywall.Subscriptions.Store.{has_id}
use paywall.Subscriptions.Transition.{TransitionResult, apply_update}
use paywall.Subscriptions.Transition.Cases.{run_transition_cases}
use paywall.Subscriptions.Renewal.{
  is_pending, is_cancel, is_due, due_cancel, due_change, target_plan, target_quantity, settle_item,
  renewal_result, renew_cancel, renew_period, renew_compute, renew,
}

abbrev price_at : ℕ → Db → Option Price
price_at key db = find_first (λ p. p.id == key) db.prices

-- `@Min(1) intervalCount` of CreatePriceDto, for the prices of the table.
abbrev pub IntervalsPositive : Db → Type 0
IntervalsPositive db = (key : ℕ) (p : Price) → price_at key db ≡ some p → 1 ≤ p.interval_count

settle_item_price :
    (now : Date) (due : Option SubscriptionChange) (s : Subscription) (db : Db) {p : Price}
    {mid : Db}
    → settle_item now due s db ≡ ok p mid
    → IntervalsPositive db
    → 1 ≤ p.interval_count
unfolding settle_item
settle_item_price now due s db {p} {mid} h positive = grind (arith, positive)

-- A cancellation that a renewal has to carry out.
pub record DueCancel (now : Date) (id : ℕ) (c : SubscriptionChange) : Type 0 where
  pub subscription : c.subscription_id ≡ id
  pub asks : c.type ≡ cancel_at_period_end
  pub waits : c.status ≡ pending
  pub come : c.effective_at ≤ now

is_pending_eq : (x : SubscriptionChangeStatus) → is_pending x ≡ true → x ≡ pending
is_pending_eq x h = ground arith

is_cancel_eq : (x : SubscriptionChangeType) → is_cancel x ≡ true → x ≡ cancel_at_period_end
is_cancel_eq x h = ground arith

is_due-DueCancel :
    (now : Date) (id : ℕ) (c : SubscriptionChange)
    → (is_due now id c && is_cancel c.type) ≡ true
    → DueCancel now id c
is_due-DueCancel now id c h = record {
  subscription = ground arith;
  asks = is_cancel_eq c.type (ground arith);
  waits = is_pending_eq c.status (ground arith);
  come = ground arith;
}

DueCancel-is_due :
    (now : Date) (id : ℕ) (c : SubscriptionChange)
    → DueCancel now id c
    → (is_due now id c && is_cancel c.type) ≡ true
DueCancel-is_due now id c d =
    rw (d.asks, d.waits) (ground (arith, d.subscription, eq_refl id, d.come))

due_cancel-DueCancel :
    (now : Date) (id : ℕ) (db : Db)
    → is_some (due_cancel now id db) ≡ true
    → (c : SubscriptionChange) × Member c db.changes × DueCancel now id c
unfolding due_cancel
due_cancel-DueCancel now id db h = elim (Option-cases (due_cancel now id db)) [
  | inl e ↦ cc (rw (e, due_cancel) at h)
  | inr (c, e) ↦ (
    c,
    find_first-Member _ db.changes e,
    is_due-DueCancel now id c (find_first-true _ db.changes e),
  )
]

due_cancel-none :
    (now : Date) (id : ℕ) (db : Db)
    → is_some (due_cancel now id db) ≡ false
    → Every (λ c. ¬ DueCancel now id c) db.changes
unfolding due_cancel
due_cancel-none now id db h = elim (Option-cases (due_cancel now id db)) [
  | inl e ↦ Every-map (λ c f d. cc (DueCancel-is_due now id c d)) (find_first-Every _ db.changes e)
  | inr (c, e) ↦ cc (rw (e, due_cancel) at h)
]

renew_period_result :
    (now : Date) (s : Subscription) (db : Db) {r : TransitionResult} {mid : Db}
    → renew_period now s db ≡ ok r mid
    → (p : Price) × (r ≡ renewal_result now (due_change now s.id db) s p)
unfolding renew_period
renew_period_result now s db {r} {mid} h =
    let (p, d, e, f) = >>=-eq-ok (settle_item now (due_change now s.id db) s) _ db h in
    (p, sym (ok_injective f).0)

renew_period_lem :
    (now : Date) (s : Subscription) (db : Db) {r : TransitionResult} {mid : Db}
    → renew_period now s db ≡ ok r mid
    → IntervalsPositive db
    → (p : Price) × (1 ≤ p.interval_count) × (r ≡ renewal_result now (due_change now s.id db) s p)
unfolding renew_period
renew_period_lem now s db {r} {mid} h positive =
    let (p, d, e, f) = >>=-eq-ok (settle_item now (due_change now s.id db) s) _ db h in
    (p, settle_item_price now (due_change now s.id db) s db e positive, sym (ok_injective f).0)

-- A cancellation is due: a PENDING one whose time has come, or the flag.
abbrev pub cancel_due : Date → Subscription → Db → Bool
cancel_due now s db = is_some (due_cancel now s.id db) || s.cancel_at_period_end

renew_compute_period :
    (now : Date) (s : Subscription) (db : Db)
    → cancel_due now s db ≡ false
    → renew_compute now s db ≡ renew_period now s db
unfolding renew_compute
renew_compute_period now s db e = rw (e, renew_compute, ◌>>=◌, if◌then◌else◌)

renew_compute_cancel :
    (now : Date) (s : Subscription) (db : Db)
    → cancel_due now s db ≡ true
    → renew_compute now s db ≡ renew_cancel now (due_cancel now s.id db) s db
unfolding renew_compute
renew_compute_cancel now s db e = rw (e, renew_compute, ◌>>=◌, if◌then◌else◌)

cancel_due-cases :
    (now : Date) (s : Subscription) (db : Db)
    → cancel_due now s db ≡ true
    → (s.cancel_at_period_end ≡ true)
      ⊎ ((c : SubscriptionChange) × Member c db.changes × DueCancel now s.id c)
cancel_due-cases now s db due = elim (Bool-cases s.cancel_at_period_end) [
  | inl e ↦ inl e
  | inr e ↦ inr (due_cancel-DueCancel now s.id db (ground arith))
]

-- A renewal without a key that succeeds, with no cancellation due and prices whose interval counts
-- are positive, leaves the subscription ACTIVE for a period that starts where the old one ended (or
-- now, if there was none) and ends later, with the plan and the quantity that a due change asks for,
-- and else with its own.
pub renew_contiguous :
    (now : Date) (id user : ℕ) (options : MutationOptions) (db : Db) (s t : Subscription) (db' : Db)
    → is_given options.idempotency_key ≡ false
    → IntervalsPositive db
    → find_first (has_id id) db.subscriptions ≡ some s
    → cancel_due now s db ≡ false
    → renew now id user options db ≡ ok t db'
    → let due = due_change now s.id db in
      let start = get_or s.current_period_end now in
      (end : Date) × (t.status ≡ active)
      × (t.current_period_start ≡ some start)
      × (t.current_period_end ≡ some end)
      × (start < end)
      × (t.plan_id ≡ target_plan due s.plan_id)
      × (t.quantity ≡ target_quantity due s.quantity)
unfolding renew apply_update
renew_contiguous now id user options db s t db' no_key positive found calm h =
    let (s', found', cases) = run_transition_cases id options user (renew_compute now) db h in
    elim cases [
      | inl (replay, _, _) ↦ cc (rw no_key at replay)
      | inr c ↦
          let same : s' ≡ s = some_eq (sym found' ∙ found) in
          let computed : renew_period now s db ≡ ok c.r c.mid =
            sym (renew_compute_period now s db calm)
            ∙ ap (λ x. renew_compute now x db) (sym same)
            ∙ c.computed in
          let (p, pos, e) = renew_period_lem now s db computed positive in
          let row : t
              ≡ apply_update (renewal_result now (due_change now s.id db) s p).update active s =
            c.row ∙ (λ i. apply_update (e i).update (e i).to_status (same i)) in
          (
            _,
            ap (λ x. x.status) row,
            ap (λ x. x.current_period_start) row,
            ap (λ x. x.current_period_end) row,
            add_billing_interval_advances (get_or s.current_period_end now) p.interval
                p.interval_count pos,
            ap (λ x. x.plan_id) row,
            ap (λ x. x.quantity) row,
          )
    ]

pub renew_due :
    (now : Date) (id user : ℕ) (options : MutationOptions) (db : Db) (s t : Subscription) (db' : Db)
    → is_given options.idempotency_key ≡ false
    → find_first (has_id id) db.subscriptions ≡ some s
    → cancel_due now s db ≡ true
    → renew now id user options db ≡ ok t db'
    → (t.status ≡ canceled)
      × (t.canceled_at ≡ some now)
      × (t.current_period_end ≡ s.current_period_end)
      × (t.plan_id ≡ s.plan_id)
unfolding renew apply_update renew_cancel
renew_due now id user options db s t db' no_key found due h =
    let (s', found', cases) = run_transition_cases id options user (renew_compute now) db h in
    elim cases [
      | inl (replay, _, _) ↦ cc (rw no_key at replay)
      | inr c ↦
          let same : s' ≡ s = some_eq (sym found' ∙ found) in
          let computed : renew_cancel now (due_cancel now s.id db) s db ≡ ok c.r c.mid =
            sym (renew_compute_cancel now s db due)
            ∙ ap (λ x. renew_compute now x db) (sym same)
            ∙ c.computed in
          let e = (ok_injective computed).0 in
          let row = c.row ∙ (λ i. apply_update (sym e i).update (sym e i).to_status (same i)) in
          (
            ap (λ x. x.status) row,
            ap (λ x. x.canceled_at) row,
            ap (λ x. x.current_period_end) row,
            ap (λ x. x.plan_id) row,
          )
    ]

-- A renewal without a key that succeeds leaves the subscription CANCELED now, with its period's end
-- and its plan as they were, exactly if its flag is set or the table holds a PENDING
-- CANCEL_AT_PERIOD_END change of the subscription whose time has come; else it leaves it ACTIVE, and
-- does not touch the time of its cancellation.
pub renew_cancels :
    (now : Date) (id user : ℕ) (options : MutationOptions) (db : Db) (s t : Subscription) (db' : Db)
    → is_given options.idempotency_key ≡ false
    → find_first (has_id id) db.subscriptions ≡ some s
    → renew now id user options db ≡ ok t db'
    → (((s.cancel_at_period_end ≡ true)
          ⊎ ((c : SubscriptionChange) × Member c db.changes × DueCancel now s.id c))
        × (t.status ≡ canceled)
        × (t.canceled_at ≡ some now)
        × (t.current_period_end ≡ s.current_period_end)
        × (t.plan_id ≡ s.plan_id))
      ⊎ ((s.cancel_at_period_end ≡ false)
          × Every (λ c. ¬ DueCancel now s.id c) db.changes
          × (t.status ≡ active)
          × (t.canceled_at ≡ s.canceled_at))
unfolding renew apply_update renew_cancel
renew_cancels now id user options db s t db' no_key found h =
    let (s', found', cases) = run_transition_cases id options user (renew_compute now) db h in
    elim cases [
      | inl (replay, _, _) ↦ cc (rw no_key at replay)
      | inr c ↦
          let same : s' ≡ s = some_eq (sym found' ∙ found) in
          let computed : renew_compute now s db ≡ ok c.r c.mid =
            ap (λ x. renew_compute now x db) (sym same) ∙ c.computed in
          let row = c.row ∙ (λ i. apply_update c.r.update c.r.to_status (same i)) in
          elim (Bool-cases (cancel_due now s db)) [
            | inl due ↦
                let (ended, now', kept, plan) =
                  renew_due now id user options db s t db' no_key found due h in
                inl (cancel_due-cases now s db due, ended, now', kept, plan)
            | inr calm ↦
                let (p, e) =
                  renew_period_result now s db
                    (sym (renew_compute_period now s db calm) ∙ computed) in
                let row' = row ∙ (λ i. apply_update (e i).update (e i).to_status s) in
                inr (
                  ground arith,
                  due_cancel-none now s.id db (ground arith),
                  ap (λ x. x.status) row',
                  ap (λ x. x.canceled_at) row',
                )
          ]
    ]
