-- ===== src/Entitlements/Tests.antt =====
-- The theorems on entitlements, applied: two grants of one entitlement, and a limit of five.
use paywall.Prelude.{
  ◌≡◌, ◌≢◌, refl, inl, ◌⊎◌, true, false, none, some, List, [], ◌∷◌, find_first, state_of, Every,
}
use paywall.Prelude.Int.{pos}
use paywall.Dates.{Date}
use paywall.Entitlements.{
  subscription, promotional, active, Scope, EntitlementDefinition, EntitlementGrant, UsageLimit,
  never, EntitlementDb, is_candidate, scope_of, is_access_at, recompute, denied, has_entitlement,
}
use paywall.Entitlements.Grants.{revoke_grant}
use paywall.Entitlements.Access.{Decides, answer_of, recompute-has_entitlement}
use paywall.Entitlements.Revocation.{source_of, revoke_grant-access}
use paywall.Entitlements.Quota.{UsageRequest, increments, decrements, resets, reads, Shows}
use paywall.Entitlements.Quota.Refinement.{serve_usages, serve_usages_quota}

abbrev definition : EntitlementDefinition
definition = record { id = 2; application_id = 30; key = 8; feature_id = none }

abbrev scope : Scope
scope = scope_of 10 30 definition

abbrev grant_by_plan : EntitlementGrant
grant_by_plan = record {
  id = 4;
  scope = scope;
  subscription_id = some 1;
  source = subscription;
  status = active;
  bool_value = none;
  number_value = some (pos 5);
  text_value = none;
  is_unlimited = false;
  valid_from = 0;
  valid_until = none;
  revoked_at = none;
  idempotency_key = some (1, 2);
  version = 1;
  created_at = 0;
}

abbrev grant_by_promotion : EntitlementGrant
grant_by_promotion = record grant_by_plan {
  id = 5;
  subscription_id = none;
  source = promotional;
  number_value = some (pos 50);
  valid_until = some 1000;
  idempotency_key = none;
}

abbrev limit : UsageLimit
limit = record { scope = scope; limit_value = some 5; is_unlimited = false; reset_policy = never }

abbrev db : EntitlementDb
db = record {
  definitions = definition ∷ [];
  grants = grant_by_plan ∷ grant_by_promotion ∷ [];
  grant_events = [];
  access = [];
  plan_features = [];
  subscriptions = [];
  limits = limit ∷ [];
  counters = [];
  entitlement_audit = [];
  next_id = 100;
}

recompute-has_entitlement_example :
    (Every (λ g. is_candidate 7 scope g ≡ false) db.grants
      × (has_entitlement 10 30 8 (recompute 7 scope db) ≡ denied))
    ⊎ ((w : EntitlementGrant) × Decides 7 scope db.grants w
        × (has_entitlement 10 30 8 (recompute 7 scope db) ≡ answer_of w))
unfolding find_first
recompute-has_entitlement_example = recompute-has_entitlement 7 10 30 8 definition db refl

-- The promotion decides while it lasts.
promotion_wins : has_entitlement 10 30 8 (recompute 7 scope db) ≡ answer_of grant_by_promotion
unfolding has_entitlement recompute
promotion_wins = refl

plan_wins_later : has_entitlement 10 30 8 (recompute 1000 scope db) ≡ answer_of grant_by_plan
unfolding has_entitlement recompute
plan_wins_later = refl

abbrev after_revocation : EntitlementDb
after_revocation = state_of (revoke_grant 7 5 10 9 (recompute 6 scope db))

revoke_grant-access_example :
    source_of (find_first (is_access_at scope) after_revocation.access) ≢ some 5
unfolding revoke_grant recompute find_first
revoke_grant-access_example =
    revoke_grant-access 7 5 10 9 (recompute 6 scope db) after_revocation grant_by_promotion refl
      refl

abbrev requests : List (Date × UsageRequest)
requests =
    (1, increments 3)
    ∷ (2, increments 3)
    ∷ (3, decrements 2)
    ∷ (4, increments 3)
    ∷ (5, reads)
    ∷ (6, resets)
    ∷ []

db-Shows : Shows 10 30 8 definition (some limit) db 0
unfolding find_first
db-Shows = record { definition = refl; limit = refl; counter = inl (refl, refl) }

serve_usages_quota_example :
    ((serve_usages 10 30 8 9 requests db).0 ≡ true ∷ false ∷ true ∷ true ∷ true ∷ true ∷ [])
    × Shows 10 30 8 definition (some limit) (serve_usages 10 30 8 9 requests db).1 0
serve_usages_quota_example =
    serve_usages_quota 10 30 8 9 definition (some limit) requests 0 db db-Shows
