-- ===== src/Entitlements/Usage.antt =====
-- Usage counters and their limits: getUsage, incrementUsage and decrementUsage of
-- apps/api/src/entitlements/runtime-authorization.service.ts, and upsertLimit and resetCounter of
-- apps/api/src/usage-limits/usage-limits.service.ts.
use paywall.Prelude.{
  ℕ, suc, ◌+◌, Bool, true, false, not, ◌||◌, Option, none, some, [], ◌∷◌, ◌++◌, ◌==◌, ltb, get_or,
  Request, ◌>>=◌, ◌>>◌, return, guard, or_throw, read, write, transaction, not_found, forbidden,
  record_not_found, find_first, update_all, if◌then◌else◌,
}
use paywall.Prelude.Int.{pos_part, sub_ℕ}
use paywall.Dates.{Date}
use paywall.Entitlements.{
  Scope, is_scope, scope_of, UsageResetPolicy, never, UsageLimit, UsageCounter, EntitlementDb,
  usage_limit_updated, audit, is_definition,
}

abbrev pub is_limit_at : Scope → UsageLimit → Bool
is_limit_at scope l = is_scope scope l.scope

abbrev pub is_counter_at : Scope → UsageCounter → Bool
is_counter_at scope c = is_scope scope c.scope

abbrev pub is_counter : ℕ → UsageCounter → Bool
is_counter key c = c.id == key

pub record UsageSnapshot : Type 0 where
  pub used : ℕ
  pub limit : Option ℕ
  pub remaining : Option ℕ
  pub is_unlimited : Bool

-- `limit?.isUnlimited ?? false` and `limit?.limitValue ?? null`
abbrev pub is_unlimited_of : Option UsageLimit → Bool
is_unlimited_of none = false
is_unlimited_of (some l) = l.is_unlimited

abbrev pub limit_value_of : Option UsageLimit → Option ℕ
limit_value_of none = none
limit_value_of (some l) = l.limit_value

-- `isUnlimited || limitValue === null ? null : Math.max(0, limitValue - used)`
abbrev pub remaining_of : Bool → Option ℕ → ℕ → Option ℕ
remaining_of false (some limit) used = some (pos_part (sub_ℕ limit used))
remaining_of _ _ used = none

abbrev pub snapshot : Option UsageLimit → ℕ → UsageSnapshot
snapshot limit used = record {
  used = used;
  limit = limit_value_of limit;
  remaining = remaining_of (is_unlimited_of limit) (limit_value_of limit) used;
  is_unlimited = is_unlimited_of limit;
}

-- `periodEnd && periodEnd < new Date()`
abbrev pub is_over : Option Date → Date → Bool
is_over none now = false
is_over (some ends) now = ltb ends now

abbrev pub apply_scheduled_reset : Date → UsageCounter → UsageCounter
apply_scheduled_reset now c =
    if is_over c.period_end now then record c { value = 0; period_start = now } else c

abbrev pub new_counter : Date → ℕ → Scope → UsageCounter
new_counter now id scope = record {
  id = id;
  scope = scope;
  value = 0;
  period_start = now;
  period_end = none;
  last_reset_at = now;
}

abbrev pub insert_counter : UsageCounter → EntitlementDb → EntitlementDb
insert_counter c db = record db { counters = db.counters ++ c ∷ []; next_id = suc db.next_id }

-- The counter of a scope, created if it is missing.
unfoldable pub counter_or_new :
    Date → Scope → Option UsageCounter → Request EntitlementDb UsageCounter
counter_or_new now scope (some c) db = return c db
counter_or_new now scope none db =
    return (new_counter now db.next_id scope) (insert_counter (new_counter now db.next_id scope) db)

unfoldable pub get_usage : Date → ℕ → ℕ → ℕ → Request EntitlementDb UsageSnapshot
unfolding counter_or_new
get_usage now organization_id application_id key = do
  found ← read (λ db. find_first (is_definition application_id key) db.definitions)
  d ← or_throw found record_not_found
  limit ←
      read (λ db. find_first (is_limit_at (scope_of organization_id application_id d)) db.limits)
  existing ←
      read
        (λ db. find_first (is_counter_at (scope_of organization_id application_id d)) db.counters)
  c ← counter_or_new now (scope_of organization_id application_id d) existing
  return (snapshot limit (apply_scheduled_reset now c).value)

-- `isUnlimited || limitValue === null || nextValue <= limitValue`, the negation of the test
abbrev pub fits_value : Option ℕ → ℕ → Bool
fits_value none next = true
fits_value (some limit) next = not (ltb limit next)

abbrev pub is_within : Option UsageLimit → ℕ → Bool
is_within limit next = is_unlimited_of limit || fits_value (limit_value_of limit) next

-- `usageCounter.update`: the value, and the periodStart and lastResetAt of the counter in hand.
abbrev pub store_counter : UsageCounter → ℕ → EntitlementDb → EntitlementDb
store_counter c next db = record db {
  counters =
      update_all (is_counter c.id)
        (λ d. record d {
          value = next;
          period_start = c.period_start;
          last_reset_at = c.last_reset_at;
        })
        db.counters;
}

-- The check and the write, on the counter in hand.
abbrev pub increment_counter :
    Option UsageLimit → ℕ → UsageCounter → Request EntitlementDb UsageSnapshot
increment_counter limit amount c = do
  guard (is_within limit (c.value + amount)) forbidden
  write (store_counter c (c.value + amount))
  return (snapshot limit (c.value + amount))

unfoldable pub increment_in : Date → Scope → ℕ → Request EntitlementDb UsageSnapshot
unfolding counter_or_new
increment_in now scope amount = do
  limit ← read (λ db. find_first (is_limit_at scope) db.limits)
  existing ← read (λ db. find_first (is_counter_at scope) db.counters)
  c ← counter_or_new now scope existing
  increment_counter limit amount (apply_scheduled_reset now c)

unfoldable pub increment_usage : Date → ℕ → ℕ → ℕ → ℕ → Request EntitlementDb UsageSnapshot
unfolding increment_in
increment_usage now organization_id application_id key amount = do
  found ← read (λ db. find_first (is_definition application_id key) db.definitions)
  d ← or_throw found record_not_found
  transaction (increment_in now (scope_of organization_id application_id d) amount)

-- The two updates of `decrementUsage`: the value less the amount, and 0 where that is negative.
abbrev pub decrease : Scope → ℕ → EntitlementDb → EntitlementDb
decrease scope amount db = record db {
  counters =
      update_all (is_counter_at scope) (λ c. record c { value = pos_part (sub_ℕ c.value amount) })
        db.counters;
}

unfoldable pub decrement_usage : ℕ → ℕ → ℕ → ℕ → Request EntitlementDb (Unit {0})
decrement_usage organization_id application_id key amount = do
  found ← read (λ db. find_first (is_definition application_id key) db.definitions)
  d ← or_throw found record_not_found
  write (decrease (scope_of organization_id application_id d) amount)

pub record UpsertUsageLimitDto : Type 0 where
  pub limit_value : Option ℕ
  pub is_unlimited : Option Bool
  pub reset_policy : Option UsageResetPolicy

abbrev set_limit : UpsertUsageLimitDto → UsageLimit → UsageLimit
set_limit dto l = record l {
  limit_value = elim dto.limit_value [ none ↦ l.limit_value | some v ↦ some v ];
  is_unlimited = get_or dto.is_unlimited l.is_unlimited;
  reset_policy = get_or dto.reset_policy l.reset_policy;
}

abbrev new_limit : Scope → UpsertUsageLimitDto → UsageLimit
new_limit scope dto = record {
  scope = scope;
  limit_value = dto.limit_value;
  is_unlimited = get_or dto.is_unlimited false;
  reset_policy = get_or dto.reset_policy never;
}

abbrev put_limit :
    Scope → UpsertUsageLimitDto → Option UsageLimit → Request EntitlementDb UsageLimit
put_limit scope dto none db =
    return (new_limit scope dto) (record db { limits = db.limits ++ new_limit scope dto ∷ [] })
put_limit scope dto (some l) db =
    return (set_limit dto l)
      (record db { limits = update_all (is_limit_at scope) (set_limit dto) db.limits })

unfoldable pub upsert_limit : ℕ → ℕ → ℕ → UpsertUsageLimitDto → ℕ → Request EntitlementDb UsageLimit
upsert_limit organization_id application_id key dto user_id = do
  found ← read (λ db. find_first (is_definition application_id key) db.definitions)
  d ← or_throw found not_found
  existing ←
      read (λ db. find_first (is_limit_at (scope_of organization_id application_id d)) db.limits)
  l ← put_limit (scope_of organization_id application_id d) dto existing
  write (audit usage_limit_updated user_id organization_id application_id)
  return l

abbrev pub zeroed : Date → UsageCounter → UsageCounter
zeroed now c = record c { value = 0; period_start = now; last_reset_at = now }

abbrev put_zero : Date → Scope → Option UsageCounter → Request EntitlementDb UsageCounter
put_zero now scope none db =
    return (new_counter now db.next_id scope) (insert_counter (new_counter now db.next_id scope) db)
put_zero now scope (some c) db =
    return (zeroed now c)
      (record db { counters = update_all (is_counter_at scope) (zeroed now) db.counters })

unfoldable pub reset_counter : Date → ℕ → ℕ → ℕ → ℕ → Request EntitlementDb UsageCounter
reset_counter now organization_id application_id key user_id = do
  found ← read (λ db. find_first (is_definition application_id key) db.definitions)
  d ← or_throw found not_found
  existing ←
      read
        (λ db. find_first (is_counter_at (scope_of organization_id application_id d)) db.counters)
  c ← put_zero now (scope_of organization_id application_id d) existing
  write (audit usage_limit_updated user_id organization_id application_id)
  return c
