-- ===== src/Entitlements/Quota/Steps.antt =====
-- One request on a usage counter, beside the quota's step.
use paywall.Prelude.{
  ℕ, ◌+◌, ◌-◌, ◌≡◌, refl, sym, ◌∙◌, ap, inl, inr, Bool, true, false, Option, none, some, arith,
  find_first, find_first-update_hit, find_first-update_self, find_first-true, Outcome, ok, err,
  Request, ◌>>=◌, transaction, guard, state_of, forbidden, if◌then◌else◌,
}
use mathlib.Core.Option
use mathlib.Core.Path.{subst}
use paywall.Prelude.Int.{pos_part, sub_ℕ}
use paywall.Dates.{Date}
use paywall.Entitlements.{
  Scope, scope_of, UsageLimit, UsageCounter, EntitlementDefinition, EntitlementDb, is_definition,
}
use paywall.Entitlements.Usage.{
  is_limit_at, is_counter_at, UsageSnapshot, snapshot, apply_scheduled_reset, new_counter,
  insert_counter, counter_or_new, get_usage, is_within, store_counter, increment_counter,
  increment_in, increment_usage, decrease, decrement_usage, zeroed, reset_counter,
}
use paywall.Entitlements.Quota.{
  allows, UsageRequest, increments, decrements, resets, reads, ceiling, quota_step, is_granted,
  serve_usage, Shows, is_within-ceiling, store_counter-found, not_over, insert_counter-found,
  Agrees,
}

-- The body of an increment, from the counter in hand.
increment_in_eq :
    (now : Date) (scope : Scope) (n : ℕ) (db db₁ : EntitlementDb) (l : Option UsageLimit)
    (existing : Option UsageCounter) (c : UsageCounter)
    → find_first (is_limit_at scope) db.limits ≡ l
    → find_first (is_counter_at scope) db.counters ≡ existing
    → counter_or_new now scope existing db ≡ ok c db₁
    → c.period_end ≡ none
    → increment_in now scope n db ≡ (
        if is_within l (c.value + n)
        then ok (snapshot l (c.value + n)) (store_counter c (c.value + n) db₁)
        else err forbidden db₁)
unfolding increment_in
increment_in_eq now scope n db db₁ l existing c limit found made open_ended =
    ap (λ o. (counter_or_new now scope o >>= tail (find_first (is_limit_at scope) db.limits)) db)
      found
    ∙ ap (λ o. (counter_or_new now scope existing >>= tail o) db) limit
    ∙ ap
        (λ o. elim o as (λ _. Outcome EntitlementDb UsageSnapshot) [
          | ok a s ↦ tail l a s
          | err e s ↦ err e s
        ])
        made
    ∙ ap (λ x. increment_counter l n x db₁) (not_over now c open_ended)
    ∙ go (is_within l (c.value + n))
  where
    tail : Option UsageLimit → UsageCounter → Request EntitlementDb UsageSnapshot
    tail o x = increment_counter o n (apply_scheduled_reset now x)

    go :
        (b : Bool)
        → elim (guard b forbidden db₁) as (λ _. Outcome EntitlementDb UsageSnapshot) [
          | ok a s ↦ ok (snapshot l (c.value + n)) (store_counter c (c.value + n) s)
          | err e s ↦ err e s
        ]
          ≡ (if b
              then ok (snapshot l (c.value + n)) (store_counter c (c.value + n) db₁)
              else err forbidden db₁)
    go true = refl
    go false = refl

module _ (organization application key : ℕ) (d : EntitlementDefinition)
    (l : Option UsageLimit) where
  abbrev scope : Scope
  scope = scope_of organization application d

  increment_stored :
      (now : Date) (n used : ℕ) (db db₁ : EntitlementDb) (existing : Option UsageCounter)
      (c : UsageCounter)
      → Shows organization application key d l db used
      → find_first (is_counter_at scope) db.counters ≡ existing
      → counter_or_new now scope existing db ≡ ok c db₁
      → db₁.definitions ≡ db.definitions
      → db₁.limits ≡ db.limits
      → find_first (is_counter_at scope) db₁.counters ≡ some c
      → c.value ≡ used
      → c.period_end ≡ none
      → Agrees organization application key d l
          (
            is_granted (transaction (increment_in now scope n) db),
            state_of (transaction (increment_in now scope n) db),
          )
          (quota_step (ceiling l) (increments n) used)
  increment_stored now n used db db₁ existing c shows found made same same' found₁ value
        open_ended =
      go (allows (ceiling l) (used + n)) refl
    where
      roll : Outcome EntitlementDb UsageSnapshot → Outcome EntitlementDb UsageSnapshot
      roll o = elim o [ ok a s ↦ ok a s | err e s ↦ err e db ]

      body :
          (b : Bool)
          → allows (ceiling l) (used + n) ≡ b
          → increment_in now scope n db ≡ (
              if b
              then ok (snapshot l (c.value + n)) (store_counter c (c.value + n) db₁)
              else err forbidden db₁)
      body b e =
          increment_in_eq now scope n db db₁ l existing c shows.limit found made open_ended
          ∙ ap
              (λ x.
                if x
                then ok (snapshot l (c.value + n)) (store_counter c (c.value + n) db₁)
                else err forbidden db₁)
              (is_within-ceiling l (c.value + n) ∙ ap (λ v. allows (ceiling l) (v + n)) value ∙ e)

      go :
          (b : Bool)
          → allows (ceiling l) (used + n) ≡ b
          → Agrees organization application key d l
              (
                is_granted (transaction (increment_in now scope n) db),
                state_of (transaction (increment_in now scope n) db),
              )
              (if b then (true, used + n) else (false, used))
      go true e =
          let (c', at, v, o) = store_counter-found scope c (c.value + n) db₁ found₁ open_ended in
          subst
            (λ o.
              Agrees organization application key d l (is_granted (roll o), state_of (roll o))
                (true, used + n))
            (sym (body true e))
            (
              refl,
              record {
                definition =
                    ap (find_first (is_definition application key)) same ∙ shows.definition;
                limit = ap (find_first (is_limit_at scope)) same' ∙ shows.limit;
                counter = inr (c', at, v ∙ ap (λ k. k + n) value, o);
              },
            )
      go false e =
          subst
            (λ o.
              Agrees organization application key d l (is_granted (roll o), state_of (roll o))
                (false, used))
            (sym (body false e)) (refl, shows)

  pub increment_Agrees :
      (now : Date) (n used : ℕ) (db : EntitlementDb)
      → Shows organization application key d l db used
      → Agrees organization application key d l
          (
            is_granted (transaction (increment_in now scope n) db),
            state_of (transaction (increment_in now scope n) db),
          )
          (quota_step (ceiling l) (increments n) used)
  unfolding counter_or_new
  increment_Agrees now n used db shows = elim shows.counter [
    | inl (missing, none_used) ↦
        increment_stored now n used db (insert_counter (new_counter now db.next_id scope) db) none
          (new_counter now db.next_id scope) shows missing refl refl refl
          (insert_counter-found now scope db missing) (sym none_used) refl
    | inr (c, found, value, open_ended) ↦
        increment_stored now n used db db (some c) c shows found refl refl refl found value
          open_ended
  ]

  -- The other requests.
  pub decrement_Shows :
      (n used : ℕ) (db : EntitlementDb)
      → Shows organization application key d l db used
      → Shows organization application key d l (decrease scope n db) (used - n)
  decrement_Shows n used db shows = record {
    definition = shows.definition;
    limit = shows.limit;
    counter = elim shows.counter [
      | inl (missing, none_used) ↦ inl (
        find_first-update_self (is_counter_at scope) _ db.counters (λ x h. h)
            ∙ ap (Option.map _) missing,
        omega arith,
      )
      | inr (c, found, value, open_ended) ↦ inr (
        record c { value = pos_part (sub_ℕ c.value n) },
        find_first-update_hit (is_counter_at scope) (is_counter_at scope) _ db.counters (λ x. refl)
              found
            ∙ ap (λ b. some (if b then record c { value = pos_part (sub_ℕ c.value n) } else c))
                (find_first-true (is_counter_at scope) db.counters found),
        ground arith,
        open_ended,
      )
    ];
  }

  pub reset_Agrees :
      (now : Date) (used : ℕ) (db : EntitlementDb)
      → Shows organization application key d l db used
      → (user : ℕ)
      → Agrees organization application key d l
          (
            is_granted (reset_counter now organization application key user db),
            state_of (reset_counter now organization application key user db),
          )
          (true, 0)
  unfolding reset_counter
  reset_Agrees now used db shows user = elim shows.counter [
    | inl (missing, none_used) ↦
        rw (shows.definition, missing, reset_counter, ◌>>=◌)
          (
            refl,
            record {
              definition = shows.definition;
              limit = shows.limit;
              counter = inr (
                new_counter now db.next_id scope,
                insert_counter-found now scope db missing,
                refl,
                refl,
              );
            },
          )
    | inr (c, found, value, open_ended) ↦
        rw (shows.definition, found, reset_counter, ◌>>=◌)
          (
            refl,
            record {
              definition = shows.definition;
              limit = shows.limit;
              counter = inr (
                zeroed now c,
                find_first-update_hit (is_counter_at scope) (is_counter_at scope) _ db.counters
                      (λ x. refl) found
                    ∙ ap (λ b. some (if b then zeroed now c else c))
                        (find_first-true (is_counter_at scope) db.counters found),
                refl,
                open_ended,
              );
            },
          )
  ]

  read_Agrees :
      (now : Date) (used : ℕ) (db : EntitlementDb)
      → Shows organization application key d l db used
      → Agrees organization application key d l
          (
            is_granted (get_usage now organization application key db),
            state_of (get_usage now organization application key db),
          )
          (true, used)
  unfolding get_usage counter_or_new
  read_Agrees now used db shows = elim shows.counter [
    | inl (missing, none_used) ↦
        rw (shows.definition, missing, get_usage, counter_or_new, ◌>>=◌)
          (
            refl,
            record {
              definition = shows.definition;
              limit = shows.limit;
              counter = inr (
                new_counter now db.next_id scope,
                insert_counter-found now scope db missing,
                sym none_used,
                refl,
              );
            },
          )
    | inr (c, found, value, open_ended) ↦
        rw (shows.definition, found, get_usage, counter_or_new, ◌>>=◌) (refl, shows)
  ]

  -- Every request of the service is a step of the quota.
  pub serve_usage-Agrees :
      (user : ℕ) (now : Date) (q : UsageRequest) (used : ℕ) (db : EntitlementDb)
      → Shows organization application key d l db used
      → Agrees organization application key d l
          (serve_usage organization application key user now q db)
          (quota_step (ceiling l) q used)
  unfolding serve_usage increment_usage decrement_usage
  serve_usage-Agrees user now (increments n) used db shows =
      rw (shows.definition, increment_usage, ◌>>=◌) (increment_Agrees now n used db shows)
  serve_usage-Agrees user now (decrements n) used db shows =
      rw (shows.definition, decrement_usage, ◌>>=◌) (refl, decrement_Shows n used db shows)
  serve_usage-Agrees user now resets used db shows = reset_Agrees now used db shows user
  serve_usage-Agrees user now reads used db shows = read_Agrees now used db shows
