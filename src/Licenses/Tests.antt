-- ===== src/Licenses/Tests.antt =====
-- The theorem on licenses, applied: a license that a user loses and is given again.
use paywall.Prelude.{
  ◌≡◌, refl, true, none, some, [], ◌∷◌, ok, state_of, find_first, update_all, length,
}
use paywall.Licenses.{
  individual, active, License, LicenseAssignment, LicenseDb, is_for, is_held, ended, assign_license,
  unassign_license,
}
use paywall.Licenses.Reassignment.{assign_license-unassign_license}

abbrev license : License
license = record {
  id = 1;
  organization_id = 10;
  application_id = 30;
  subscription_id = none;
  type = individual;
  status = active;
  seat_limit = none;
  device_limit = none;
  expires_at = none;
  revoked_at = none;
  created_by_id = 9;
}

abbrev assignment : LicenseAssignment
assignment = record { id = 50; license_id = 1; user_id = 33; assigned_at = 1; unassigned_at = none }

abbrev db : LicenseDb
db = record {
  users = 9 ∷ 33 ∷ [];
  applications = record { id = 30; organization_id = 10 } ∷ [];
  subscriptions = [];
  licenses = license ∷ [];
  assignments = assignment ∷ [];
  license_audit = [];
  next_id = 100;
}

abbrev after_unassign : LicenseDb
unfolding unassign_license find_first update_all
after_unassign = state_of (unassign_license 2 1 10 33 9 db)

assign_license-unassign_license_example :
    (b : LicenseAssignment) × (db'' : LicenseDb) × (assign_license 3 1 10 9 33 after_unassign
      ≡ ok b db'')
    × (b.id ≡ 50)
    × (b.assigned_at ≡ 3)
    × (is_held b.unassigned_at ≡ true)
    × (find_first (is_for 1 33) db''.assignments ≡ some b)
    × (length db''.assignments ≡ 1)
unfolding unassign_license find_first update_all
assign_license-unassign_license_example =
    assign_license-unassign_license 2 3 1 10 33 9 9 db license (ended 2 assignment) after_unassign
      refl refl refl refl
