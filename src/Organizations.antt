-- ===== src/Organizations.antt =====
-- Organizations and their members: apps/api/src/organizations/organizations.service.ts, with slugify of
-- apps/api/src/common/utils/slug.util.ts.
pub mod Slugify
pub mod Slugs
pub mod Owners
pub mod Requests
pub mod Histories
mod Tests
use Slugify.{Runtime, slugify, or_org, dash}
use paywall.Prelude.{
  Text, same_text, record_not_found, foreign_key_violation, ℕ, zero, suc, Bool, true, false, not,
  ◌&&◌, Option, none, some, List, [], ◌∷◌, ◌++◌, ◌==◌, is_some, length, Request, ◌>>=◌, ◌>>◌,
  return, throw, guard, or_throw, read, write, not_found, conflict, forbidden, bad_request,
  find_first, update_all, count_all, select, if◌then◌else◌,
}

pub data OrganizationRole : Type 0 where
  owner administrator developer manager member viewer : OrganizationRole

abbrev pub is_owner : OrganizationRole → Bool
is_owner owner = true
is_owner _ = false

pub record User : Type 0 where
  pub id : ℕ
  pub email : ℕ

pub record Organization : Type 0 where
  pub id : ℕ
  pub name : Text
  pub slug : Text

pub record OrganizationMember : Type 0 where
  pub id : ℕ
  pub organization_id : ℕ
  pub user_id : ℕ
  pub role : OrganizationRole

pub data OrganizationAction : Type 0 where
  organization_created organization_updated organization_deleted : OrganizationAction
  member_added : ℕ → OrganizationRole → OrganizationAction
  role_changed : ℕ → OrganizationRole → OrganizationRole → OrganizationAction
  member_removed : ℕ → OrganizationAction

pub record OrganizationAudit : Type 0 where
  pub action : OrganizationAction
  pub user_id : ℕ
  pub organization_id : ℕ

pub record OrganizationDb : Type 0 where
  pub users : List User
  pub organizations : List Organization
  pub members : List OrganizationMember
  pub organization_audit : List OrganizationAudit
  pub next_id : ℕ

abbrev pub record_audit : OrganizationAction → ℕ → ℕ → OrganizationDb → OrganizationDb
record_audit action user_id organization_id db = record db {
  organization_audit =
      db.organization_audit
      ++ record { action = action; user_id = user_id; organization_id = organization_id } ∷ [];
}

abbrev pub has_slug : Text → Organization → Bool
has_slug slug o = same_text o.slug slug

-- `slugify(name) || "org"`
unfoldable pub base_slug : Runtime → Text → Text
unfolding slugify
base_slug r name = or_org (slugify r name)

-- The base, and from the second round on `${base}-${suffix}`.
unfoldable pub candidate : Runtime → Text → ℕ → Text
unfolding base_slug
candidate r name zero = base_slug r name
candidate r name (suc n) = base_slug r name ++ dash ∷ r.to_decimal (suc (suc n))

-- The loop of `generateUniqueSlug`, on rounds; `none` where they run out.
unfoldable pub seek_slug : Runtime → Text → ℕ → ℕ → List Organization → Option Text
unfolding candidate find_first
seek_slug r name zero n organizations = none
seek_slug r name (suc rounds) n organizations =
    let rest = seek_slug r name rounds (suc n) organizations in
    if is_some (find_first (has_slug (candidate r name n)) organizations)
    then rest
    else some (candidate r name n)

unfoldable pub generate_unique_slug : Runtime → Text → List Organization → Option Text
unfolding seek_slug
generate_unique_slug r name organizations =
    seek_slug r name (suc (length organizations)) zero organizations

-- The transaction of `create`: the organization and its first member.
abbrev pub insert_organization : ℕ → Text → Text → OrganizationDb → OrganizationDb
insert_organization user_id name slug db = record db {
  organizations = db.organizations ++ record { id = db.next_id; name = name; slug = slug } ∷ [];
  members =
      db.members
      ++ record {
        id = suc db.next_id;
        organization_id = db.next_id;
        user_id = user_id;
        role = owner;
      }
        ∷ [];
  next_id = suc (suc db.next_id);
}

abbrev pub create_with : ℕ → Text → Option Text → Request OrganizationDb Organization
create_with user_id name none = throw conflict
create_with user_id name (some slug) = do
  id ← read (λ db. db.next_id)
  write (insert_organization user_id name slug)
  write (record_audit organization_created user_id id)
  return (record { id = id; name = name; slug = slug })

unfoldable pub create : Runtime → ℕ → Text → Request OrganizationDb Organization
unfolding generate_unique_slug
create r user_id name = do
  slug ← read (λ db. generate_unique_slug r name db.organizations)
  create_with user_id name slug

abbrev pub is_organization : ℕ → Organization → Bool
is_organization key o = o.id == key

abbrev pub rename : ℕ → Text → OrganizationDb → OrganizationDb
rename key name db = record db {
  organizations = update_all (is_organization key) (λ o. record o { name = name }) db.organizations;
}

unfoldable pub update_organization : ℕ → Text → ℕ → Request OrganizationDb Organization
update_organization organization_id name user_id = do
  found ← read (λ db. find_first (is_organization organization_id) db.organizations)
  o ← or_throw found record_not_found
  write (rename organization_id name)
  write (record_audit organization_updated user_id organization_id)
  return (record o { name = name })

-- `organization.delete`, with the rows of members that go with it.
abbrev pub delete_organization : ℕ → OrganizationDb → OrganizationDb
delete_organization key db = record db {
  organizations = select (λ o. not (is_organization key o)) db.organizations;
  members = select (λ m. not (m.organization_id == key)) db.members;
}

-- The audit entry comes first; it refers to the organization.
unfoldable pub remove_organization : ℕ → ℕ → Request OrganizationDb (Unit {0})
unfolding select
remove_organization organization_id user_id = do
  found ← read (λ db. find_first (is_organization organization_id) db.organizations)
  guard (is_some found) foreign_key_violation
  write (record_audit organization_deleted user_id organization_id)
  write (delete_organization organization_id)

abbrev pub is_membership : ℕ → OrganizationMember → Bool
is_membership key m = m.id == key

abbrev pub is_member_of : ℕ → ℕ → OrganizationMember → Bool
is_member_of organization_id user_id m =
    m.organization_id == organization_id && (m.user_id == user_id)

abbrev pub is_owner_in : ℕ → OrganizationMember → Bool
is_owner_in organization_id m = m.organization_id == organization_id && is_owner m.role

abbrev pub role_is_owner : Option OrganizationMember → Bool
role_is_owner none = false
role_is_owner (some m) = is_owner m.role

-- Only an OWNER may grant the OWNER role.
unfoldable pub assert_role_assignment_allowed :
    ℕ → ℕ → OrganizationRole → Request OrganizationDb (Unit {0})
assert_role_assignment_allowed organization_id acting_user_id owner = do
  acting ← read (λ db. find_first (is_member_of organization_id acting_user_id) db.members)
  guard (role_is_owner acting) forbidden
assert_role_assignment_allowed organization_id acting_user_id _ = return tt

-- An OWNER of the organization, but not by this membership.
abbrev pub is_other_owner : ℕ → ℕ → OrganizationMember → Bool
is_other_owner organization_id key m = is_owner_in organization_id m && not (m.id == key)

unfoldable pub assert_not_last_owner : ℕ → ℕ → Request OrganizationDb (Unit {0})
assert_not_last_owner organization_id membership_id = do
  owner_count ← read (λ db. count_all (is_other_owner organization_id membership_id) db.members)
  guard (not (owner_count == 0)) bad_request

abbrev pub insert_member : OrganizationMember → OrganizationDb → OrganizationDb
insert_member m db = record db { members = db.members ++ m ∷ []; next_id = suc db.next_id }

abbrev pub new_member : ℕ → ℕ → ℕ → OrganizationRole → OrganizationMember
new_member id organization_id user_id role = record {
  id = id;
  organization_id = organization_id;
  user_id = user_id;
  role = role;
}

unfoldable pub add_member : ℕ → ℕ → OrganizationRole → ℕ → Request OrganizationDb OrganizationMember
unfolding assert_role_assignment_allowed
add_member organization_id email role acting_user_id = do
  found ← read (λ db. find_first (λ u. u.email == email) db.users)
  user ← or_throw found not_found
  existing ← read (λ db. find_first (is_member_of organization_id user.id) db.members)
  guard (not (is_some existing)) conflict
  assert_role_assignment_allowed organization_id acting_user_id role
  id ← read (λ db. db.next_id)
  write (insert_member (new_member id organization_id user.id role))
  write (record_audit (member_added user.id role) acting_user_id organization_id)
  return (new_member id organization_id user.id role)

unfoldable pub get_membership : ℕ → ℕ → Request OrganizationDb OrganizationMember
get_membership organization_id membership_id = do
  found ← read (λ db. find_first (is_membership membership_id) db.members)
  m ← or_throw found not_found
  guard (m.organization_id == organization_id) not_found
  return m

abbrev pub unless_last : Bool → ℕ → ℕ → Request OrganizationDb (Unit {0})
unfolding assert_not_last_owner
unless_last true organization_id membership_id = assert_not_last_owner organization_id membership_id
unless_last false organization_id membership_id = return tt

abbrev pub set_role : ℕ → OrganizationRole → OrganizationDb → OrganizationDb
set_role key role db = record db {
  members = update_all (is_membership key) (λ m. record m { role = role }) db.members;
}

unfoldable pub update_member_role :
    ℕ → ℕ → OrganizationRole → ℕ → Request OrganizationDb OrganizationMember
unfolding get_membership assert_role_assignment_allowed assert_not_last_owner
update_member_role organization_id membership_id role acting_user_id = do
  m ← get_membership organization_id membership_id
  assert_role_assignment_allowed organization_id acting_user_id role
  unless_last (is_owner m.role && not (is_owner role)) organization_id membership_id
  write (set_role membership_id role)
  write (record_audit (role_changed m.user_id m.role role) acting_user_id organization_id)
  return (record m { role = role })

abbrev pub delete_member : ℕ → OrganizationDb → OrganizationDb
delete_member key db = record db { members = select (λ m. not (m.id == key)) db.members }

unfoldable pub remove_member : ℕ → ℕ → ℕ → Request OrganizationDb (Unit {0})
unfolding get_membership assert_not_last_owner select
remove_member organization_id membership_id acting_user_id = do
  m ← get_membership organization_id membership_id
  unless_last (is_owner m.role) organization_id membership_id
  write (delete_member membership_id)
  write (record_audit (member_removed m.user_id) acting_user_id organization_id)
