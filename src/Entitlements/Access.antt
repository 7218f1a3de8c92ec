-- ===== src/Entitlements/Access.antt =====
-- What `hasEntitlement` answers after a recomputation.
use paywall.Prelude.{
  ℕ, ◌≡◌, refl, ◌∙◌, ap, inl, inr, ◌⊎◌, true, false, Option, none, some, List, [], ◌∷◌, arith,
  or_else, find_first, find_first-append, find_first-update_self, find_first-select-not, select,
  Every, Member, Member-select, select-Every, select_none, if◌then◌else◌,
}
use mathlib.Core.Option
use paywall.Dates.{Date}
use paywall.Entitlements.{
  Scope, is_scope, EntitlementDefinition, EntitlementGrant, FeatureAccess, EntitlementDb,
  is_candidate, pick_winner, access_of, is_access_at, upsert_access, store_winner, recompute,
  EntitlementCheckResult, denied, result_of, is_definition, scope_of, check_definition,
  has_entitlement, gives_access,
}
use paywall.Entitlements.Winner.{GivesWay, pick_winner_lem}

is_scope_refl : (s : Scope) → is_scope s s ≡ true
is_scope_refl s = ground arith

-- The row of a scope after the winner is stored.
pub store_winner-found :
    (now : Date) (scope : Scope) (o : Option EntitlementGrant) (rows : List FeatureAccess)
    → find_first (is_access_at scope) (store_winner now scope o rows)
      ≡ Option.map (access_of now scope) o
unfolding find_first
store_winner-found now scope none rows = find_first-select-not (is_access_at scope) rows
store_winner-found now scope (some g) rows = go (find_first (is_access_at scope) rows) refl
  where
    go :
        (o : Option FeatureAccess)
        → find_first (is_access_at scope) rows ≡ o
        → find_first (is_access_at scope) (upsert_access (access_of now scope g) o rows)
          ≡ some (access_of now scope g)
    go none e =
        find_first-append (is_access_at scope) rows (access_of now scope g ∷ [])
        ∙ ap (λ o. or_else o (find_first (is_access_at scope) (access_of now scope g ∷ []))) e
        ∙ ap (λ b. if b then some (access_of now scope g) else none) (is_scope_refl scope)
    go (some a) e =
        find_first-update_self (is_access_at scope) (λ x. access_of now scope g) rows
          (λ x h. is_scope_refl scope)
        ∙ ap (Option.map (λ x. access_of now scope g)) e

-- The grant that decides a scope at a time: a candidate to which all candidates give way.
pub record Decides (now : Date) (scope : Scope) (grants : List EntitlementGrant)
    (w : EntitlementGrant) : Type 0 where
  pub stands : Member w grants
  pub candidate : is_candidate now scope w ≡ true
  pub first : Every (λ g. is_candidate now scope g ≡ true → GivesWay g w) grants

abbrev pub answer_of : EntitlementGrant → EntitlementCheckResult
answer_of g = record {
  allowed = gives_access g;
  number_value = g.number_value;
  text_value = g.text_value;
  is_unlimited = g.is_unlimited;
}

-- The answer, from the winner.
has_entitlement_eq :
    (now : Date) (organization application key : ℕ) (d : EntitlementDefinition) (db : EntitlementDb)
    (o : Option EntitlementGrant)
    → find_first (is_definition application key) db.definitions ≡ some d
    → pick_winner (select (is_candidate now (scope_of organization application d)) db.grants) ≡ o
    → has_entitlement organization application key
        (recompute now (scope_of organization application d) db)
      ≡ result_of (Option.map (access_of now (scope_of organization application d)) o)
unfolding recompute has_entitlement
has_entitlement_eq now organization application key d db o found winner =
    ap
      (check_definition organization application
        (recompute now (scope_of organization application d) db))
      found
    ∙ ap result_of (store_winner-found now (scope_of organization application d) _ db.access)
    ∙ ap (λ w. result_of (Option.map (access_of now (scope_of organization application d)) w))
        winner

-- After a recomputation, hasEntitlement denies the entitlement if no grant is a candidate; else it
-- answers with the values of a grant that is a candidate and to which all candidates give way, by
-- the priority of their sources, then by the time of creation. The definition is the one of the
-- application and the key.
pub recompute-has_entitlement :
    (now : Date) (organization application key : ℕ) (d : EntitlementDefinition) (db : EntitlementDb)
    → find_first (is_definition application key) db.definitions ≡ some d
    → (Every (λ g. is_candidate now (scope_of organization application d) g ≡ false) db.grants
        × (has_entitlement organization application key
              (recompute now (scope_of organization application d) db)
            ≡ denied))
      ⊎ ((w : EntitlementGrant) × Decides now (scope_of organization application d) db.grants w
          × (has_entitlement organization application key
                (recompute now (scope_of organization application d) db)
              ≡ answer_of w))
recompute-has_entitlement now organization application key d db found =
    let scope = scope_of organization application d in
    elim (pick_winner_lem (select (is_candidate now scope) db.grants)) [
      | inl (empty, lost) ↦ inl (
        select_none (is_candidate now scope) db.grants empty,
        has_entitlement_eq now organization application key d db none found lost,
      )
      | inr (w, won, m, gives) ↦
          let (stands, candidate) = Member-select (is_candidate now scope) w db.grants m in
          inr (
            w,
            record {
              stands = stands;
              candidate = candidate;
              first = select-Every (is_candidate now scope) db.grants gives;
            },
            has_entitlement_eq now organization application key d db (some w) found won,
          )
    ]
