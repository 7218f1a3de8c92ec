-- ===== src/Entitlements/Quota.antt =====
-- A usage counter as an abstract quota: one number, and requests that are granted or refused.
pub mod Steps
pub mod Refinement
use paywall.Prelude.{
  leb, ℕ, suc, ◌+◌, ◌-◌, ◌≤◌, ◌≡◌, refl, sym, ◌∙◌, ap, inl, inr, ◌⊎◌, Bool, true, false, not, ◌&&◌,
  ◌||◌, Option, none, some, List, [], ◌∷◌, ◌++◌, ◌==◌, eq_refl, ltb, arith, Bool-cases, or_else,
  find_first, find_first-append, find_first-update_hit, find_first-update_self, find_first-true,
  update_all, Outcome, ok, err, Request, ◌>>=◌, transaction, guard, state_of, forbidden,
  if◌then◌else◌,
}
use mathlib.Core.Option
use mathlib.Core.Path.{subst}
use paywall.Prelude.Int.{pos_part, sub_ℕ}
use paywall.Dates.{Date}
use paywall.Entitlements.{
  Scope, is_scope, scope_of, UsageLimit, UsageCounter, EntitlementDefinition, EntitlementDb,
  is_definition,
}
use paywall.Entitlements.Usage.{
  is_limit_at, is_counter_at, is_counter, UsageSnapshot, is_unlimited_of, limit_value_of, snapshot,
  apply_scheduled_reset, is_over, new_counter, insert_counter, counter_or_new, get_usage,
  fits_value, is_within, store_counter, increment_counter, increment_in, increment_usage, decrease,
  decrement_usage, reset_counter,
}

-- Requests on one counter.
pub data UsageRequest : Type 0 where
  increments decrements : ℕ → UsageRequest
  resets reads : UsageRequest

-- The effective ceiling of a limit: none where there is no row, no value, or no bound.
abbrev pub ceiling : Option UsageLimit → Option ℕ
ceiling none = none
ceiling (some l) = if l.is_unlimited then none else l.limit_value

-- A number that does not exceed the ceiling.
abbrev pub allows : Option ℕ → ℕ → Bool
allows none next = true
allows (some limit) next = leb next limit

-- The quota: whether a request is granted, and what is used after it.
abbrev pub quota_step : Option ℕ → UsageRequest → ℕ → Bool × ℕ
quota_step limit (increments n) used =
    if allows limit (used + n) then (true, used + n) else (false, used)
quota_step limit (decrements n) used = (true, used - n)
quota_step limit resets used = (true, 0)
quota_step limit reads used = (true, used)

abbrev pub is_granted : {A : Type 0} → Outcome EntitlementDb A → Bool
is_granted (ok a db) = true
is_granted (err e db) = false

-- The service, on the counter of an organization, an application and a key.
module _ (organization application key user : ℕ) where
  unfoldable pub serve_usage : Date → UsageRequest → EntitlementDb → Bool × EntitlementDb
  unfolding increment_usage decrement_usage reset_counter get_usage
  serve_usage now (increments n) db =
      let o = increment_usage now organization application key n db in (is_granted o, state_of o)
  serve_usage now (decrements n) db =
      let o = decrement_usage organization application key n db in (is_granted o, state_of o)
  serve_usage now resets db =
      let o = reset_counter now organization application key user db in (is_granted o, state_of o)
  serve_usage now reads db =
      let o = get_usage now organization application key db in (is_granted o, state_of o)

-- The counter of the scope shows what is used; it has no end of its period.
pub record Shows (organization application key : ℕ) (d : EntitlementDefinition)
    (l : Option UsageLimit) (db : EntitlementDb) (used : ℕ) : Type 0 where
  pub definition : find_first (is_definition application key) db.definitions ≡ some d
  pub limit : find_first (is_limit_at (scope_of organization application d)) db.limits ≡ l
  pub counter :
      ((find_first (is_counter_at (scope_of organization application d)) db.counters ≡ none)
        × (used ≡ 0))
      ⊎ ((c : UsageCounter) × (find_first
              (is_counter_at (scope_of organization application d))
              db.counters
            ≡ some c)
          × (c.value ≡ used)
          × (c.period_end ≡ none))

pub is_within-ceiling :
    (l : Option UsageLimit) (next : ℕ) → is_within l next ≡ allows (ceiling l) next
is_within-ceiling none next = refl
is_within-ceiling (some l) next = elim (Bool-cases l.is_unlimited) [
  | inl e ↦ rw (e, is_within, ceiling) refl
  | inr e ↦ rw (e, is_within, ceiling) (same l.limit_value)
]
  where
    same : (limit : Option ℕ) → fits_value limit next ≡ allows limit next
    same none = refl
    same (some limit) = ground arith

-- A counter that is stored under its id is found in its scope.
pub store_counter-found :
    (scope : Scope) (c : UsageCounter) (next : ℕ) (db : EntitlementDb)
    → find_first (is_counter_at scope) db.counters ≡ some c
    → c.period_end ≡ none
    → (d : UsageCounter) × (find_first (is_counter_at scope) (store_counter c next db).counters
        ≡ some d)
      × (d.value ≡ next)
      × (d.period_end ≡ none)
store_counter-found scope c next db found open_ended = (
  record c { value = next },
  find_first-update_hit (is_counter_at scope) (is_counter c.id) _ db.counters (λ x. refl) found
      ∙ ap (λ b. some (if b then record c { value = next } else c)) (eq_refl c.id),
  refl,
  open_ended,
)

pub not_over :
    (now : Date) (c : UsageCounter) → c.period_end ≡ none → apply_scheduled_reset now c ≡ c
not_over now c e = rw (e, apply_scheduled_reset) refl

pub scope_self : (s : Scope) → is_scope s s ≡ true
scope_self s = ground arith

pub insert_counter-found :
    (now : Date) (scope : Scope) (db : EntitlementDb)
    → find_first (is_counter_at scope) db.counters ≡ none
    → find_first
        (is_counter_at scope)
        (insert_counter (new_counter now db.next_id scope) db).counters
      ≡ some (new_counter now db.next_id scope)
unfolding find_first
insert_counter-found now scope db missing =
    find_first-append (is_counter_at scope) db.counters (new_counter now db.next_id scope ∷ [])
    ∙ ap (λ o. or_else o (find_first (is_counter_at scope) (new_counter now db.next_id scope ∷ [])))
        missing
    ∙ ap (λ b. if b then some (new_counter now db.next_id scope) else none) (scope_self scope)

-- A step of the service shows the step of the quota.
abbrev pub Agrees :
    ℕ → ℕ → ℕ → EntitlementDefinition → Option UsageLimit → Bool × EntitlementDb → Bool × ℕ → Type 0
Agrees organization application key d l (granted, db) (granted', used) =
    (granted ≡ granted') × Shows organization application key d l db used
