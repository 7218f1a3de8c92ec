-- ===== src/Organizations/Histories.antt =====
-- Sequences of requests to OrganizationsService.
use paywall.Prelude.{ℕ, List, [], ◌∷◌, state_of, Text}
use paywall.Organizations.{
  OrganizationRole, OrganizationDb, add_member, create, generate_unique_slug, update_organization,
  remove_organization, update_member_role, remove_member,
}
use paywall.Organizations.Slugify.{Runtime}
use paywall.Organizations.Owners.{Owned, remove_member-Owned, update_member_role-Owned}
use paywall.Organizations.Requests.{
  add_member-Owned, create_with-Owned, update_organization-Owned, remove_organization-Owned,
}

pub data OrganizationRequest : Type 0 where
  creates : ℕ → Text → OrganizationRequest
  updates : ℕ → Text → ℕ → OrganizationRequest
  deletes : ℕ → ℕ → OrganizationRequest
  adds : ℕ → ℕ → OrganizationRole → ℕ → OrganizationRequest
  changes_role : ℕ → ℕ → OrganizationRole → ℕ → OrganizationRequest
  removes : ℕ → ℕ → ℕ → OrganizationRequest

unfoldable pub serve : Runtime → OrganizationRequest → OrganizationDb → OrganizationDb
serve r (creates user name) db = state_of (create r user name db)
serve r (updates at name user) db = state_of (update_organization at name user db)
serve r (deletes at user) db = state_of (remove_organization at user db)
serve r (adds at email role acting) db = state_of (add_member at email role acting db)
serve r (changes_role at key role acting) db = state_of (update_member_role at key role acting db)
serve r (removes at key acting) db = state_of (remove_member at key acting db)

unfoldable pub serve_all : Runtime → List OrganizationRequest → OrganizationDb → OrganizationDb
unfolding serve
serve_all r [] db = db
serve_all r (q ∷ qs) db = serve_all r qs (serve r q db)

serve-Owned :
    (r : Runtime) (organization : ℕ) (q : OrganizationRequest) (db : OrganizationDb)
    → Owned organization db
    → Owned organization (serve r q db)
unfolding serve create
serve-Owned r organization (creates user name) db owned =
    create_with-Owned organization user name (generate_unique_slug r name db.organizations) db owned
serve-Owned r organization (updates at name user) db owned =
    update_organization-Owned organization at name user db owned
serve-Owned r organization (deletes at user) db owned =
    remove_organization-Owned organization at user db owned
serve-Owned r organization (adds at email role acting) db owned =
    add_member-Owned organization at email role acting db owned
serve-Owned r organization (changes_role at key role acting) db owned =
    update_member_role-Owned organization at key role acting db owned
serve-Owned r organization (removes at key acting) db owned =
    remove_member-Owned organization at key acting db owned

-- Through any sequence of requests to OrganizationsService, whichever of them throw, an organization
-- that the table holds has an owner, if it had one before or was not there; and no two memberships
-- have the same id.
pub serve_all-Owned :
    (r : Runtime) (organization : ℕ) (qs : List OrganizationRequest) (db : OrganizationDb)
    → Owned organization db
    → Owned organization (serve_all r qs db)
unfolding serve_all
serve_all-Owned r organization [] db owned = owned
serve_all-Owned r organization (q ∷ qs) db owned =
    serve_all-Owned r organization qs (serve r q db) (serve-Owned r organization q db owned)
