-- ===== src/Subscriptions/Creation/Trials.antt =====
-- The trials of a customer, and what create does to them.
use paywall.Prelude.{
  ℕ, suc, ◌≡◌, refl, true, Option, none, some, [], ◌∷◌, ◌++◌, state_of, none, some, ◌==◌, arith,
  eq_refl, find_first, find_first-some, Member, err, ◌>>=◌, conflict, transaction,
}
use paywall.Dates.{Date, add_days}
use paywall.Subscriptions.Model.{Db, Subscription, Trial, running, Plan, Price, Customer}
use paywall.Subscriptions.Store.{get_price, fresh_id}
use paywall.Subscriptions.Creation.{
  CreateDto, same_trial, start_trial_row, item_row, new_row, trial_days_of, existing_or, earlier,
  get_customer, get_plan, in_organization, create_subscription, create_item, create_trial,
  insert_rows, create_rows, create_new, create,
}

-- A trial of the same customer and product makes `tx.trial.create` fail.
create_trial-taken :
    (t u : Trial) (db : Db)
    → Member u db.trials
    → u.customer_id ≡ t.customer_id
    → u.product_id ≡ t.product_id
    → create_trial t db ≡ err conflict db
unfolding create_trial
create_trial-taken t u db m c p =
    let (v, found) =
      find_first-some (same_trial t) db.trials u m
        (rw (c, p) (ground (arith, eq_refl t.customer_id, eq_refl t.product_id))) in
    rw (found, create_trial, ◌>>=◌)

module _ (now : Date) (user : ℕ) (ip : Option ℕ) (dto : CreateDto) (plan : Plan) (u : Trial)
    (days : ℕ) (same_customer : u.customer_id ≡ dto.customer_id)
    (same_product : u.product_id ≡ plan.product_id) where
  start_trial_row-taken :
      (id : ℕ) (db : Db)
      → Member u db.trials
      → start_trial_row now (some days) ip dto plan id db
        ≡ err conflict (record db { next_id = suc db.next_id })
  unfolding fresh_id
  start_trial_row-taken id db m =
      create_trial-taken
        (record {
          id = db.next_id;
          customer_id = dto.customer_id;
          product_id = plan.product_id;
          plan_id = dto.plan_id;
          subscription_id = some id;
          ends_at = add_days now days;
          status = running;
          converted_at = none;
          ip_address = ip;
        })
        u (record db { next_id = suc db.next_id }) m same_customer same_product

  insert_rows-taken :
      (item_id : ℕ) (row : Subscription) (db : Db)
      → Member u db.trials
      → insert_rows now user ip dto plan (some days) item_id row db
        ≡ err conflict (state_of (insert_rows now user ip dto plan (some days) item_id row db))
  unfolding insert_rows create_subscription create_item
  insert_rows-taken item_id row db m =
      rw
        (
          start_trial_row-taken row.id
              (record db {
                subscriptions = db.subscriptions ++ row ∷ [];
                items = db.items ++ item_row item_id row.id dto ∷ [];
              })
              m,
          ◌>>=◌,
        )
        refl

  create_rows-taken :
      (organization : ℕ) (price : Price) (db : Db)
      → trial_days_of dto plan ≡ some days
      → Member u db.trials
      → create_rows now organization user ip dto plan price db
        ≡ err conflict (state_of (create_rows now organization user ip dto plan price db))
  unfolding create_rows fresh_id
  create_rows-taken organization price db offered m = rw offered (
      insert_rows-taken (suc db.next_id)
        (new_row now db.next_id organization dto plan price (some days))
        (record db { next_id = suc (suc db.next_id) }) m)

-- A request to create a subscription with a trial, under no key that an event has, of a customer and
-- a plan of the organization whose product the customer has already tried, is a conflict and leaves
-- the database as it was: neither a subscription nor anything else of it stays.
pub create_second_trial :
    (now : Date) (organization user : ℕ) (ip : Option ℕ) (dto : CreateDto) (db : Db)
    (customer : Customer) (plan : Plan) (price : Price) (u : Trial) (days : ℕ)
    → earlier dto.idempotency_key db ≡ none
    → find_first (λ x. x.id == dto.customer_id) db.customers ≡ some customer
    → find_first (λ x. x.id == dto.plan_id) db.plans ≡ some plan
    → find_first (λ x. x.id == dto.price_id) db.prices ≡ some price
    → customer.organization_id ≡ organization
    → plan.product_organization_id ≡ organization
    → dto.start_trial ≡ true
    → plan.trial_eligible ≡ true
    → plan.trial_days ≡ some (suc days)
    → Member u db.trials
    → u.customer_id ≡ dto.customer_id
    → u.product_id ≡ plan.product_id
    → create now organization user ip dto db ≡ err conflict db
unfolding create create_new get_customer get_plan get_price
create_second_trial now organization user ip dto db customer plan price u days unused found_c
      found_p found_r owns owns' asks eligible offers m c p =
    let offered : trial_days_of dto plan ≡ some (suc days) =
      rw (asks, eligible, offers) (ground arith) in
    let taken =
      create_rows-taken now user ip dto plan u (suc days) c p organization price db offered m in
    let fits : in_organization organization customer plan ≡ true =
      rw (owns, owns') (ground (arith, eq_refl organization)) in
    rw (unused, create, existing_or, ◌>>=◌)
      (rw (found_c, create_new, get_customer, ◌>>=◌)
        (rw (found_p, get_plan, ◌>>=◌)
          (rw (found_r, get_price, ◌>>=◌) (rw (fits, ◌>>=◌) (rw (taken, transaction, ◌>>=◌))))))
