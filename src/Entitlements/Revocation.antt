-- ===== src/Entitlements/Revocation.antt =====
-- What the row of an access says after a revocation.
use paywall.Prelude.{
  ℕ, ◌≡◌, ◌≢◌, refl, sym, ◌∙◌, ap, inl, inr, true, false, Option, none, some, List, [], ◌∷◌, ◌==◌,
  ==_iff, arith, Bool-cases, Option-cases, find_first, update_all, select, Member, Member-select,
  Member-inv, ok, Request, ◌>>◌, guard, some_eq, guard-then, or_throw-then, ok_injective, not_found,
  bad_request, write,
}
use mathlib.Core.Option
use mathlib.Core.Path.{subst}
use paywall.Dates.{Date}
use paywall.Entitlements.{
  Scope, is_active, EntitlementGrant, FeatureAccess, EntitlementDb, is_candidate, access_of,
  is_access_at, recompute, revoked_event, entitlement_grant_revoked, audit,
}
use paywall.Entitlements.Winner.{pick_winner_lem}
use paywall.Entitlements.Access.{store_winner-found}
use paywall.Entitlements.Grants.{
  is_grant, rewrite_grant, record_grant_event, revoked_grant, revoke_grant,
}

-- Rows of an id after they are revoked.
update_all-revoked :
    (now : Date) (key : ℕ) (gs : List EntitlementGrant) (w : EntitlementGrant)
    → Member w (update_all (is_grant key) (revoked_grant now) gs)
    → w.id ≡ key
    → is_active w.status ≡ false
unfolding update_all
update_all-revoked now key [] w m e = elim m [ ]
update_all-revoked now key (g ∷ gs) w m e = elim (Member-inv m) [
  | inl same ↦ elim (Bool-cases (g.id == key)) [
    | inl hit ↦ subst (λ x. is_active x.status ≡ false) same (rw hit refl)
    | inr miss ↦ cc (sym miss ∙ ap (λ x. x.id == key) (rw miss at same) ∙ (==_iff w.id key).1 e)
  ]
  | inr m' ↦ update_all-revoked now key gs w m' e
]

-- The access that a recomputation stores is that of a candidate.
recompute-candidate :
    (now : Date) (scope : Scope) (db : EntitlementDb) (a : FeatureAccess)
    → find_first (is_access_at scope) (recompute now scope db).access ≡ some a
    → (w : EntitlementGrant) × Member w db.grants
      × (is_candidate now scope w ≡ true)
      × (a.source_grant_id ≡ w.id)
unfolding recompute
recompute-candidate now scope db a found =
    elim (pick_winner_lem (select (is_candidate now scope) db.grants)) [
      | inl (_, lost) ↦ cc (
          sym
            (store_winner-found now scope _ db.access ∙ ap (Option.map (access_of now scope)) lost)
          ∙ found)
      | inr (w, won, m, _) ↦
          let (stands, candidate) = Member-select (is_candidate now scope) w db.grants m in
          (
            w,
            stands,
            candidate,
            ap (λ x. x.source_grant_id)
                (sym (
                  some_eq (
                    sym (
                      store_winner-found now scope _ db.access
                      ∙ ap (Option.map (access_of now scope)) won)
                    ∙ found))),
          )
    ]

-- The grant behind the access that a scope has.
abbrev pub source_of : Option FeatureAccess → Option ℕ
source_of none = none
source_of (some a) = some a.source_grant_id

recompute-revoked :
    (now : Date) (scope : Scope) (key : ℕ) (db : EntitlementDb) (gs : List EntitlementGrant)
    → db.grants ≡ update_all (is_grant key) (revoked_grant now) gs
    → source_of (find_first (is_access_at scope) (recompute now scope db).access) ≢ some key
recompute-revoked now scope key db gs same h =
    elim (Option-cases (find_first (is_access_at scope) (recompute now scope db).access)) [
      | inl missing ↦ cc (ap source_of missing)
      | inr (a, found) ↦
          let (w, stands, candidate, of_w) = recompute-candidate now scope db a found in
          let own : w.id ≡ key = some_eq (ap some (sym of_w) ∙ sym (ap source_of found) ∙ h) in
          let off = update_all-revoked now key gs w (subst (Member w) same stands) own in
          absurd (ground arith)
    ]

-- After a revocation of a grant that succeeds, the access that the table holds for the grant's scope
-- is not one that the grant gives.
pub revoke_grant-access :
    (now : Date) (key organization user : ℕ) (db db' : EntitlementDb) (g : EntitlementGrant)
    → find_first (is_grant key) db.grants ≡ some g
    → revoke_grant now key organization user db ≡ ok tt db'
    → source_of (find_first (is_access_at g.scope) db'.access) ≢ some key
unfolding revoke_grant
revoke_grant-access now key organization user db db' g found h =
    let (x, at, h₁) = or_throw-then (find_first (is_grant key) db.grants) not_found rest db h in
    let (own, h₂) = guard-then (x.scope.organization_id == organization) not_found _ db h₁ in
    let (_, h₃) = guard-then (is_active x.status) bad_request _ db h₂ in
    let (_, done) = ok_injective h₃ in
    let same : x ≡ g = some_eq (sym at ∙ found) in
    let scope : g.scope ≡ scope_in x =
      ap (λ y. y.scope) (sym same)
      ∙ ap (λ o. record x.scope { organization_id = o })
          ((==_iff x.scope.organization_id organization).0 own) in
    subst (λ o. o ≢ some key)
      (ap (λ s. source_of (find_first (is_access_at s) (recompute now (scope_in x) written).access))
          (sym scope)
        ∙ ap (λ y. source_of (find_first (is_access_at g.scope) y.access)) done)
      (recompute-revoked now (scope_in x) key written db.grants refl)
  where
    written : EntitlementDb
    written = record_grant_event key revoked_event user (rewrite_grant key (revoked_grant now) db)

    scope_in : EntitlementGrant → Scope
    scope_in x = record {
      organization_id = organization;
      application_id = x.scope.application_id;
      entitlement_definition_id = x.scope.entitlement_definition_id;
    }

    rest : EntitlementGrant → Request EntitlementDb (Unit {0})
    rest x =
        guard (x.scope.organization_id == organization) not_found
        >> (guard (is_active x.status) bad_request
            >> (write (rewrite_grant key (revoked_grant now))
                >> (write (record_grant_event key revoked_event user)
                    >> (write (recompute now (scope_in x))
                        >> write (
                            audit entitlement_grant_revoked user organization
                              x.scope.application_id)))))
