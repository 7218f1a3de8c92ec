-- ===== src/Entitlements.antt =====
-- Entitlements: the rows, and apps/api/src/entitlements/entitlement-resolver.service.ts, which keeps the
-- table that `hasEntitlement` of runtime-authorization.service.ts reads.
pub mod Grants
pub mod Usage
pub mod Quota
pub mod Winner
pub mod Access
pub mod Revocation
mod Tests
use paywall.Prelude.{
  ℕ, suc, Bool, true, false, not, ◌&&◌, ◌||◌, Option, none, some, List, [], ◌∷◌, ◌++◌, ◌==◌, ltb,
  leb, is_some, Request, ◌>>=◌, return, read, write, find_first, update_all, select, if◌then◌else◌,
}
use paywall.Prelude.Int.{ℤ}
use paywall.Dates.{Date}
use paywall.Subscriptions.Model.{Subscription}

pub data EntitlementGrantSource : Type 0 where
  subscription trial manual promotional : EntitlementGrantSource

pub data EntitlementGrantStatus : Type 0 where
  active revoked expired : EntitlementGrantStatus

abbrev pub is_active : EntitlementGrantStatus → Bool
is_active active = true
is_active _ = false

-- The three columns that are unique together in several tables.
pub record Scope : Type 0 where
  pub organization_id : ℕ
  pub application_id : ℕ
  pub entitlement_definition_id : ℕ

abbrev pub is_scope : Scope → Scope → Bool
is_scope scope s =
    s.organization_id == scope.organization_id
    && (s.application_id == scope.application_id
        && (s.entitlement_definition_id == scope.entitlement_definition_id))

pub record EntitlementDefinition : Type 0 where
  pub id : ℕ
  pub application_id : ℕ
  pub key : ℕ
  pub feature_id : Option ℕ

pub record EntitlementGrant : Type 0 where
  pub id : ℕ
  pub scope : Scope
  pub subscription_id : Option ℕ
  pub source : EntitlementGrantSource
  pub status : EntitlementGrantStatus
  pub bool_value : Option Bool
  pub number_value : Option ℤ
  pub text_value : Option ℕ
  pub is_unlimited : Bool
  pub valid_from : Date
  pub valid_until : Option Date
  pub revoked_at : Option Date
  pub idempotency_key : Option (ℕ × ℕ)
  pub version : ℕ
  pub created_at : Date

pub record FeatureAccess : Type 0 where
  pub scope : Scope
  pub has_access : Bool
  pub number_value : Option ℤ
  pub text_value : Option ℕ
  pub is_unlimited : Bool
  pub source_grant_id : ℕ
  pub computed_at : Date

pub data GrantEventType : Type 0 where
  created revoked_event subscription_no_longer_entitles created_from_subscription : GrantEventType

pub record EntitlementGrantEvent : Type 0 where
  pub grant_id : ℕ
  pub type : GrantEventType
  pub created_by_id : ℕ

pub record PlanFeature : Type 0 where
  pub plan_id : ℕ
  pub feature_id : ℕ
  pub bool_value : Option Bool
  pub number_value : Option ℤ
  pub text_value : Option ℕ

pub data UsageResetPolicy : Type 0 where
  never monthly yearly lifetime : UsageResetPolicy

pub record UsageLimit : Type 0 where
  pub scope : Scope
  pub limit_value : Option ℕ
  pub is_unlimited : Bool
  pub reset_policy : UsageResetPolicy

pub record UsageCounter : Type 0 where
  pub id : ℕ
  pub scope : Scope
  pub value : ℕ
  pub period_start : Date
  pub period_end : Option Date
  pub last_reset_at : Date

pub data EntitlementAction : Type 0 where
  entitlement_grant_created entitlement_grant_revoked usage_limit_updated : EntitlementAction

pub record EntitlementAudit : Type 0 where
  pub action : EntitlementAction
  pub user_id : ℕ
  pub organization_id : ℕ
  pub application_id : ℕ

pub record EntitlementDb : Type 0 where
  pub definitions : List EntitlementDefinition
  pub grants : List EntitlementGrant
  pub grant_events : List EntitlementGrantEvent
  pub access : List FeatureAccess
  pub plan_features : List PlanFeature
  pub subscriptions : List Subscription
  pub limits : List UsageLimit
  pub counters : List UsageCounter
  pub entitlement_audit : List EntitlementAudit
  pub next_id : ℕ

abbrev pub audit : EntitlementAction → ℕ → ℕ → ℕ → EntitlementDb → EntitlementDb
audit action user_id organization_id application_id db = record db {
  entitlement_audit =
      db.entitlement_audit
      ++ record {
        action = action;
        user_id = user_id;
        organization_id = organization_id;
        application_id = application_id;
      }
        ∷ [];
}

-- SOURCE_PRIORITY
abbrev pub source_priority : EntitlementGrantSource → ℕ
source_priority manual = 3
source_priority promotional = 2
source_priority trial = 1
source_priority subscription = 0

-- `validUntil: null` or `validUntil: { gt: now }`
abbrev pub is_unexpired : Date → Option Date → Bool
is_unexpired now none = true
is_unexpired now (some ends) = ltb now ends

abbrev pub is_candidate : Date → Scope → EntitlementGrant → Bool
is_candidate now scope g =
    is_scope scope g.scope
    && (is_active g.status && (leb g.valid_from now && is_unexpired now g.valid_until))

-- The better of two grants: the step of `reduce`.
unfoldable pub better : EntitlementGrant → EntitlementGrant → EntitlementGrant
better best current =
    if ltb (source_priority best.source) (source_priority current.source)
    then current
    else (if ltb (source_priority current.source) (source_priority best.source)
        then best
        else (if ltb best.created_at current.created_at then current else best))

unfoldable pub reduce_better : EntitlementGrant → List EntitlementGrant → EntitlementGrant
unfolding better
reduce_better best [] = best
reduce_better best (g ∷ gs) = reduce_better (better best g) gs

unfoldable pub pick_winner : List EntitlementGrant → Option EntitlementGrant
unfolding reduce_better
pick_winner [] = none
pick_winner (g ∷ gs) = some (reduce_better g gs)

abbrev pub is_granted : Option Bool → Bool
is_granted (some true) = true
is_granted _ = false

-- `winner.isUnlimited || winner.boolValue === true || winner.numberValue !== null`
abbrev pub gives_access : EntitlementGrant → Bool
gives_access g = g.is_unlimited || (is_granted g.bool_value || is_some g.number_value)

abbrev pub access_of : Date → Scope → EntitlementGrant → FeatureAccess
access_of now scope g = record {
  scope = scope;
  has_access = gives_access g;
  number_value = g.number_value;
  text_value = g.text_value;
  is_unlimited = g.is_unlimited;
  source_grant_id = g.id;
  computed_at = now;
}

abbrev pub is_access_at : Scope → FeatureAccess → Bool
is_access_at scope a = is_scope scope a.scope

-- `featureAccess.upsert`
abbrev pub upsert_access :
    FeatureAccess → Option FeatureAccess → List FeatureAccess → List FeatureAccess
upsert_access row none rows = rows ++ row ∷ []
upsert_access row (some old) rows = update_all (is_access_at row.scope) (λ a. row) rows

abbrev pub store_winner :
    Date → Scope → Option EntitlementGrant → List FeatureAccess → List FeatureAccess
store_winner now scope none rows = select (λ a. not (is_access_at scope a)) rows
store_winner now scope (some g) rows =
    upsert_access (access_of now scope g) (find_first (is_access_at scope) rows) rows

unfoldable pub recompute : Date → Scope → EntitlementDb → EntitlementDb
unfolding pick_winner select find_first update_all
recompute now scope db = record db {
  access =
      store_winner now scope (pick_winner (select (is_candidate now scope) db.grants)) db.access;
}

pub record EntitlementCheckResult : Type 0 where
  pub allowed : Bool
  pub number_value : Option ℤ
  pub text_value : Option ℕ
  pub is_unlimited : Bool

abbrev pub denied : EntitlementCheckResult
denied = record { allowed = false; number_value = none; text_value = none; is_unlimited = false }

abbrev pub result_of : Option FeatureAccess → EntitlementCheckResult
result_of none = denied
result_of (some a) = record {
  allowed = a.has_access;
  number_value = a.number_value;
  text_value = a.text_value;
  is_unlimited = a.is_unlimited;
}

abbrev pub is_definition : ℕ → ℕ → EntitlementDefinition → Bool
is_definition application_id key d = d.application_id == application_id && (d.key == key)

abbrev pub scope_of : ℕ → ℕ → EntitlementDefinition → Scope
scope_of organization_id application_id d = record {
  organization_id = organization_id;
  application_id = application_id;
  entitlement_definition_id = d.id;
}

-- `hasEntitlement` of RuntimeAuthorizationService, which reads one row.
abbrev pub check_definition :
    ℕ → ℕ → EntitlementDb → Option EntitlementDefinition → EntitlementCheckResult
check_definition organization_id application_id db none = denied
check_definition organization_id application_id db (some d) =
    result_of (find_first (is_access_at (scope_of organization_id application_id d)) db.access)

unfoldable pub has_entitlement : ℕ → ℕ → ℕ → EntitlementDb → EntitlementCheckResult
unfolding find_first
has_entitlement organization_id application_id key db =
    check_definition organization_id application_id db
      (find_first (is_definition application_id key) db.definitions)
