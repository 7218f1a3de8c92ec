-- ===== src/Licenses.antt =====
-- Licenses and their direct assignment to users: apps/api/src/licenses/licenses.service.ts.
pub mod Reassignment
mod Tests
use paywall.Prelude.{
  Error, unique_violation, foreign_key_violation, ℕ, suc, Bool, true, false, not, ◌&&◌, Option,
  none, some, List, [], ◌∷◌, ◌++◌, ◌==◌, is_some, Request, ◌>>=◌, ◌>>◌, return, throw, guard,
  or_throw, read, write, transaction, not_found, conflict, bad_request, record_not_found,
  find_first, update_all, if◌then◌else◌,
}
use paywall.Dates.{Date}
use paywall.Coupons.{set_some}
use paywall.Subscriptions.Model.{Subscription}

pub data LicenseType : Type 0 where
  individual organization_wide seat device lifetime trial enterprise temporary manual : LicenseType

abbrev pub is_individual : LicenseType → Bool
is_individual individual = true
is_individual _ = false

pub data LicenseStatus : Type 0 where
  active suspended revoked expired : LicenseStatus

abbrev pub is_active : LicenseStatus → Bool
is_active active = true
is_active _ = false

abbrev pub is_revoked : LicenseStatus → Bool
is_revoked revoked = true
is_revoked _ = false

pub record Application : Type 0 where
  pub id : ℕ
  pub organization_id : ℕ

pub record License : Type 0 where
  pub id : ℕ
  pub organization_id : ℕ
  pub application_id : ℕ
  pub subscription_id : Option ℕ
  pub type : LicenseType
  pub status : LicenseStatus
  pub seat_limit : Option ℕ
  pub device_limit : Option ℕ
  pub expires_at : Option Date
  pub revoked_at : Option Date
  pub created_by_id : ℕ

pub record LicenseAssignment : Type 0 where
  pub id : ℕ
  pub license_id : ℕ
  pub user_id : ℕ
  pub assigned_at : Date
  pub unassigned_at : Option Date

pub data LicenseAction : Type 0 where
  license_created license_updated license_revoked : LicenseAction
  license_assigned license_unassigned : ℕ → LicenseAction
  license_transferred : ℕ → ℕ → LicenseAction

pub record LicenseAudit : Type 0 where
  pub action : LicenseAction
  pub user_id : ℕ
  pub license_id : ℕ

pub record LicenseDb : Type 0 where
  pub users : List ℕ
  pub applications : List Application
  pub subscriptions : List Subscription
  pub licenses : List License
  pub assignments : List LicenseAssignment
  pub license_audit : List LicenseAudit
  pub next_id : ℕ

pub record CreateLicenseDto : Type 0 where
  pub application_id : ℕ
  pub subscription_id : Option ℕ
  pub type : LicenseType
  pub seat_limit : Option ℕ
  pub device_limit : Option ℕ
  pub expires_at : Option Date

pub record UpdateLicenseDto : Type 0 where
  pub seat_limit : Option ℕ
  pub device_limit : Option ℕ
  pub expires_at : Option Date

abbrev pub record_audit : LicenseAction → ℕ → ℕ → LicenseDb → LicenseDb
record_audit action user_id license_id db = record db {
  license_audit =
      db.license_audit
      ++ record { action = action; user_id = user_id; license_id = license_id } ∷ [];
}

abbrev pub is_license : ℕ → License → Bool
is_license key l = l.id == key

unfoldable pub get_owned : ℕ → ℕ → Request LicenseDb License
get_owned license_id organization_id = do
  found ← read (λ db. find_first (is_license license_id) db.licenses)
  l ← or_throw found not_found
  guard (l.organization_id == organization_id) not_found
  return l

-- The subscription, if one is given, is the organization's.
abbrev pub check_subscription : Option ℕ → ℕ → Request LicenseDb (Unit {0})
check_subscription none organization_id = return tt
check_subscription (some subscription_id) organization_id = do
  found ← read (λ db. find_first (λ s. s.id == subscription_id) db.subscriptions)
  s ← or_throw found not_found
  guard (s.organization_id == organization_id) not_found

abbrev pub new_license : ℕ → ℕ → ℕ → CreateLicenseDto → License
new_license id organization_id user_id dto = record {
  id = id;
  organization_id = organization_id;
  application_id = dto.application_id;
  subscription_id = dto.subscription_id;
  type = dto.type;
  status = active;
  seat_limit = dto.seat_limit;
  device_limit = dto.device_limit;
  expires_at = dto.expires_at;
  revoked_at = none;
  created_by_id = user_id;
}

abbrev pub insert_license : License → LicenseDb → LicenseDb
insert_license l db = record db { licenses = db.licenses ++ l ∷ []; next_id = suc db.next_id }

unfoldable pub create_license : ℕ → ℕ → CreateLicenseDto → Request LicenseDb License
create_license organization_id user_id dto = do
  found ← read (λ db. find_first (λ a. a.id == dto.application_id) db.applications)
  a ← or_throw found not_found
  guard (a.organization_id == organization_id) not_found
  check_subscription dto.subscription_id organization_id
  id ← read (λ db. db.next_id)
  write (insert_license (new_license id organization_id user_id dto))
  write (record_audit license_created user_id id)
  return (new_license id organization_id user_id dto)

abbrev pub rewrite_license : ℕ → (License → License) → LicenseDb → LicenseDb
rewrite_license key f db = record db { licenses = update_all (is_license key) f db.licenses }

abbrev pub updated_license : UpdateLicenseDto → License → License
updated_license dto l = record l {
  seat_limit = set_some dto.seat_limit l.seat_limit;
  device_limit = set_some dto.device_limit l.device_limit;
  expires_at = set_some dto.expires_at l.expires_at;
}

unfoldable pub update_license : ℕ → ℕ → ℕ → UpdateLicenseDto → Request LicenseDb License
unfolding get_owned
update_license license_id organization_id user_id dto = do
  l ← get_owned license_id organization_id
  write (rewrite_license license_id (updated_license dto))
  write (record_audit license_updated user_id license_id)
  return (updated_license dto l)

abbrev pub revoked_license : Date → License → License
revoked_license now l = record l { status = revoked; revoked_at = some now }

unfoldable pub revoke_license : Date → ℕ → ℕ → ℕ → Request LicenseDb License
unfolding get_owned
revoke_license now license_id organization_id user_id = do
  l ← get_owned license_id organization_id
  guard (not (is_revoked l.status)) bad_request
  write (rewrite_license license_id (revoked_license now))
  write (record_audit license_revoked user_id license_id)
  return (revoked_license now l)

abbrev pub is_for : ℕ → ℕ → LicenseAssignment → Bool
is_for license_id user_id a = a.license_id == license_id && (a.user_id == user_id)

abbrev pub is_assignment : ℕ → LicenseAssignment → Bool
is_assignment key a = a.id == key

abbrev pub is_held : Option Date → Bool
is_held none = true
is_held (some at) = false

abbrev pub new_assignment : Date → ℕ → ℕ → ℕ → LicenseAssignment
new_assignment now id license_id user_id = record {
  id = id;
  license_id = license_id;
  user_id = user_id;
  assigned_at = now;
  unassigned_at = none;
}

abbrev pub insert_assignment : LicenseAssignment → LicenseDb → LicenseDb
insert_assignment a db = record db {
  assignments = db.assignments ++ a ∷ [];
  next_id = suc db.next_id;
}

abbrev pub rewrite_assignment : ℕ → (LicenseAssignment → LicenseAssignment) → LicenseDb → LicenseDb
rewrite_assignment key f db = record db {
  assignments = update_all (is_assignment key) f db.assignments;
}

abbrev pub reassigned : Date → LicenseAssignment → LicenseAssignment
reassigned now a = record a { assigned_at = now; unassigned_at = none }

abbrev pub ended : Date → LicenseAssignment → LicenseAssignment
ended now a = record a { unassigned_at = some now }

abbrev pub is_user : ℕ → ℕ → Bool
is_user user_id u = u == user_id

-- `licenseAssignment.create`: one row for a license and a user, and the user is a foreign key.
-- `violation` is thrown where the unique constraint is violated. The license is one that was read.
abbrev pub create_assignment : Error → Date → ℕ → ℕ → Request LicenseDb LicenseAssignment
create_assignment violation now license_id user_id = do
  taken ← read (λ db. find_first (is_for license_id user_id) db.assignments)
  guard (not (is_some taken)) violation
  user ← read (λ db. find_first (is_user user_id) db.users)
  guard (is_some user) foreign_key_violation
  id ← read (λ db. db.next_id)
  write (insert_assignment (new_assignment now id license_id user_id))
  return (new_assignment now id license_id user_id)

abbrev pub reactivate : Date → LicenseAssignment → Request LicenseDb LicenseAssignment
reactivate now a = do write (rewrite_assignment a.id (reassigned now)); return (reassigned now a)

-- Insert, or reactivate a row that has ended. The caught error of the constraint is a conflict.
abbrev pub assign_row :
    Date → ℕ → ℕ → Option LicenseAssignment → Request LicenseDb LicenseAssignment
assign_row now license_id user_id none = create_assignment conflict now license_id user_id
assign_row now license_id user_id (some a) = do
  guard (not (is_held a.unassigned_at)) conflict
  reactivate now a

unfoldable pub assign_license : Date → ℕ → ℕ → ℕ → ℕ → Request LicenseDb LicenseAssignment
unfolding get_owned
assign_license now license_id organization_id user_id to_user_id = do
  l ← get_owned license_id organization_id
  guard (is_individual l.type) bad_request
  guard (is_active l.status) bad_request
  existing ← read (λ db. find_first (is_for license_id to_user_id) db.assignments)
  a ← assign_row now license_id to_user_id existing
  write (record_audit (license_assigned to_user_id) user_id license_id)
  return a

unfoldable pub unassign_license : Date → ℕ → ℕ → ℕ → ℕ → Request LicenseDb LicenseAssignment
unfolding get_owned
unassign_license now license_id organization_id target_user_id acting_user_id = do
  l ← get_owned license_id organization_id
  found ← read (λ db. find_first (is_for license_id target_user_id) db.assignments)
  a ← or_throw found not_found
  guard (is_held a.unassigned_at) not_found
  write (rewrite_assignment a.id (ended now))
  write (record_audit (license_unassigned target_user_id) acting_user_id license_id)
  return (ended now a)

abbrev pub is_current : ℕ → LicenseAssignment → Bool
is_current license_id a = a.license_id == license_id && is_held a.unassigned_at

-- The second statement of the transaction: reactivate the target's row, or insert one.
abbrev pub transfer_row :
    Date → ℕ → ℕ → Option LicenseAssignment → Request LicenseDb LicenseAssignment
transfer_row now license_id user_id (some a) = reactivate now a
transfer_row now license_id user_id none = create_assignment unique_violation now license_id user_id

abbrev pub move_assignment :
    Date
    → ℕ
    → LicenseAssignment
    → ℕ
    → Option LicenseAssignment
    → Request LicenseDb LicenseAssignment
move_assignment now license_id current to_user_id target = do
  write (rewrite_assignment current.id (ended now))
  transfer_row now license_id to_user_id target

unfoldable pub transfer_license : Date → ℕ → ℕ → ℕ → ℕ → Request LicenseDb LicenseAssignment
unfolding get_owned
transfer_license now license_id organization_id acting_user_id to_user_id = do
  l ← get_owned license_id organization_id
  guard (is_individual l.type) bad_request
  found ← read (λ db. find_first (is_current license_id) db.assignments)
  current ← or_throw found not_found
  guard (not (current.user_id == to_user_id)) conflict
  target ← read (λ db. find_first (is_for license_id to_user_id) db.assignments)
  a ← transaction (move_assignment now license_id current to_user_id target)
  write (record_audit (license_transferred current.user_id to_user_id) acting_user_id license_id)
  return a
