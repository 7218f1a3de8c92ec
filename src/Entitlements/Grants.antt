-- ===== src/Entitlements/Grants.antt =====
-- Grants of entitlements: apps/api/src/entitlements/entitlement-grants.service.ts.
use paywall.Prelude.{
  ℕ, suc, ◌+◌, Bool, true, false, ◌&&◌, Option, none, some, List, [], ◌∷◌, ◌++◌, ◌==◌, is_at,
  get_or, length, Request, ◌>>=◌, ◌>>◌, return, guard, or_throw, read, write, not_found,
  bad_request, find_first, update_all, select, if◌then◌else◌,
}
use paywall.Prelude.Int.{ℤ}
use paywall.Dates.{Date}
use paywall.Subscriptions.StateMachine.{
  SubscriptionStatus, trialing, active as subscribed, grace_period,
}
use paywall.Subscriptions.Model.{Subscription}
use paywall.Entitlements.{
  EntitlementGrantSource, subscription, manual, active, revoked, is_active, EntitlementDefinition,
  EntitlementGrant, GrantEventType, created, revoked_event, subscription_no_longer_entitles,
  created_from_subscription, PlanFeature, entitlement_grant_created, entitlement_grant_revoked,
  EntitlementDb, audit, recompute,
}

pub record CreateEntitlementGrantDto : Type 0 where
  pub application_id : ℕ
  pub entitlement_definition_id : ℕ
  pub source : Option EntitlementGrantSource
  pub bool_value : Option Bool
  pub number_value : Option ℤ
  pub text_value : Option ℕ
  pub is_unlimited : Option Bool
  pub valid_until : Option Date

abbrev pub is_definition_id : ℕ → EntitlementDefinition → Bool
is_definition_id key d = d.id == key

abbrev pub is_grant : ℕ → EntitlementGrant → Bool
is_grant key g = g.id == key

-- `entitlementGrant.create`
abbrev pub insert_grant : EntitlementGrant → EntitlementDb → EntitlementDb
insert_grant g db = record db { grants = db.grants ++ g ∷ []; next_id = suc db.next_id }

-- `entitlementGrant.update`
abbrev pub rewrite_grant : ℕ → (EntitlementGrant → EntitlementGrant) → EntitlementDb → EntitlementDb
rewrite_grant key f db = record db { grants = update_all (is_grant key) f db.grants }

abbrev pub record_grant_event : ℕ → GrantEventType → ℕ → EntitlementDb → EntitlementDb
record_grant_event key type user_id db = record db {
  grant_events =
      db.grant_events ++ record { grant_id = key; type = type; created_by_id = user_id } ∷ [];
}

abbrev pub new_grant : Date → ℕ → ℕ → CreateEntitlementGrantDto → EntitlementGrant
new_grant now id organization_id dto = record {
  id = id;
  scope = record {
    organization_id = organization_id;
    application_id = dto.application_id;
    entitlement_definition_id = dto.entitlement_definition_id;
  };
  subscription_id = none;
  source = get_or dto.source manual;
  status = active;
  bool_value = dto.bool_value;
  number_value = dto.number_value;
  text_value = dto.text_value;
  is_unlimited = get_or dto.is_unlimited false;
  valid_from = now;
  valid_until = dto.valid_until;
  revoked_at = none;
  idempotency_key = none;
  version = 1;
  created_at = now;
}

unfoldable pub create_grant :
    Date → ℕ → ℕ → CreateEntitlementGrantDto → Request EntitlementDb EntitlementGrant
unfolding recompute
create_grant now organization_id user_id dto = do
  found ← read (λ db. find_first (is_definition_id dto.entitlement_definition_id) db.definitions)
  d ← or_throw found not_found
  guard (d.application_id == dto.application_id) not_found
  id ← read (λ db. db.next_id)
  write (insert_grant (new_grant now id organization_id dto))
  write (record_grant_event id created user_id)
  write (recompute now (new_grant now id organization_id dto).scope)
  write (audit entitlement_grant_created user_id organization_id dto.application_id)
  return (new_grant now id organization_id dto)

abbrev pub revoked_grant : Date → EntitlementGrant → EntitlementGrant
revoked_grant now g = record g { status = revoked; revoked_at = some now }

unfoldable pub revoke_grant : Date → ℕ → ℕ → ℕ → Request EntitlementDb (Unit {0})
unfolding recompute
revoke_grant now grant_id organization_id user_id = do
  found ← read (λ db. find_first (is_grant grant_id) db.grants)
  g ← or_throw found not_found
  guard (g.scope.organization_id == organization_id) not_found
  guard (is_active g.status) bad_request
  write (rewrite_grant grant_id (revoked_grant now))
  write (record_grant_event grant_id revoked_event user_id)
  write (
      recompute now (record {
        organization_id = organization_id;
        application_id = g.scope.application_id;
        entitlement_definition_id = g.scope.entitlement_definition_id;
      }))
  write (audit entitlement_grant_revoked user_id organization_id g.scope.application_id)

-- `["ACTIVE", "TRIALING", "GRACE_PERIOD"].includes(subscription.status)`
abbrev pub is_entitled : SubscriptionStatus → Bool
is_entitled subscribed = true
is_entitled trialing = true
is_entitled grace_period = true
is_entitled _ = false

abbrev same_sync_key : ℕ × ℕ → Option (ℕ × ℕ) → Bool
same_sync_key k none = false
same_sync_key (s, d) (some (s', d')) = s' == s && (d' == d)

-- `idempotencyKey` is `sub:<subscription>:def:<definition>`.
abbrev pub has_sync_key : ℕ → ℕ → EntitlementGrant → Bool
has_sync_key subscription_id definition_id g =
    same_sync_key (subscription_id, definition_id) g.idempotency_key

abbrev pub synced_grant : Date → ℕ → Subscription → PlanFeature → ℕ → EntitlementGrant
synced_grant now id s f definition_id = record {
  id = id;
  scope = record {
    organization_id = s.organization_id;
    application_id = s.application_id;
    entitlement_definition_id = definition_id;
  };
  subscription_id = some s.id;
  source = subscription;
  status = active;
  bool_value = f.bool_value;
  number_value = f.number_value;
  text_value = f.text_value;
  is_unlimited = false;
  valid_from = now;
  valid_until = none;
  revoked_at = none;
  idempotency_key = some (s.id, definition_id);
  version = 1;
  created_at = now;
}

-- A grant that is there already takes the values of the plan again.
abbrev pub renewed_grant : PlanFeature → EntitlementGrant → EntitlementGrant
renewed_grant f g = record g {
  status = active;
  bool_value = f.bool_value;
  number_value = f.number_value;
  text_value = f.text_value;
  revoked_at = none;
  version = suc g.version;
}

abbrev pub withdraw : Date → ℕ → Option EntitlementGrant → EntitlementDb → EntitlementDb
withdraw now user_id none db = db
withdraw now user_id (some g) db =
    if is_active g.status
    then record_grant_event g.id subscription_no_longer_entitles user_id
        (rewrite_grant g.id (revoked_grant now) db)
    else db

abbrev pub give :
    Date
    → ℕ
    → Subscription
    → PlanFeature
    → ℕ
    → Option EntitlementGrant
    → EntitlementDb
    → EntitlementDb
give now user_id s f definition_id none db =
    record_grant_event db.next_id created_from_subscription user_id
      (insert_grant (synced_grant now db.next_id s f definition_id) db)
give now user_id s f definition_id (some g) db = rewrite_grant g.id (renewed_grant f) db

-- One round of the loops of `syncFromSubscription`.
unfoldable pub sync_definition :
    Date → ℕ → Subscription → PlanFeature → EntitlementDefinition → EntitlementDb → EntitlementDb
unfolding recompute find_first update_all
sync_definition now user_id s f d db =
    let existing = find_first (has_sync_key s.id d.id) db.grants in
    recompute now (synced_grant now 0 s f d.id).scope (
      if is_entitled s.status
      then give now user_id s f d.id existing db
      else withdraw now user_id existing db)

-- The inner loop, on the definitions of a feature; the outer one, on the features of the plan.
unfoldable pub sync_definitions :
    Date
    → ℕ
    → Subscription
    → PlanFeature
    → List EntitlementDefinition
    → EntitlementDb
    → EntitlementDb
unfolding sync_definition
sync_definitions now user_id s f [] db = db
sync_definitions now user_id s f (d ∷ ds) db =
    sync_definitions now user_id s f ds (sync_definition now user_id s f d db)

abbrev pub is_for_feature : ℕ → EntitlementDefinition → Bool
is_for_feature feature_id d = is_at d.feature_id feature_id

abbrev pub is_in_plan : ℕ → PlanFeature → Bool
is_in_plan plan_id f = f.plan_id == plan_id

-- `defs` are the definitions as they were included in the read of the subscription.
unfoldable pub sync_features :
    Date
    → ℕ
    → Subscription
    → List EntitlementDefinition
    → List PlanFeature
    → EntitlementDb
    → EntitlementDb
unfolding sync_definitions select
sync_features now user_id s defs [] db = db
sync_features now user_id s defs (f ∷ fs) db =
    sync_features now user_id s defs fs
      (sync_definitions now user_id s f (select (is_for_feature f.feature_id) defs) db)

abbrev count_touched : List EntitlementDefinition → List PlanFeature → ℕ
unfolding select
count_touched defs [] = 0
count_touched defs (f ∷ fs) =
    length (select (is_for_feature f.feature_id) defs) + count_touched defs fs

unfoldable pub sync_from_subscription : Date → ℕ → ℕ → Request EntitlementDb ℕ
unfolding sync_features select
sync_from_subscription now subscription_id user_id = do
  found ← read (λ db. find_first (λ s. s.id == subscription_id) db.subscriptions)
  s ← or_throw found not_found
  defs ← read (λ db. db.definitions)
  features ← read (λ db. select (is_in_plan s.plan_id) db.plan_features)
  write (sync_features now user_id s defs features)
  write (audit entitlement_grant_created user_id s.organization_id s.application_id)
  return (count_touched defs features)
