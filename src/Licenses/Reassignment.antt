-- ===== src/Licenses/Reassignment.antt =====
-- A license that is taken from a user and given back.
use paywall.Prelude.{
  some_eq, ℕ, ◌≡◌, refl, sym, ap, ◌∙◌, true, some, ◌==◌, arith, eq_refl, find_first,
  find_first-update_hit, update_all, length, length-update_all, ok, ◌>>=◌, if◌then◌else◌,
}
use paywall.Dates.{Date}
use paywall.Licenses.{
  License, LicenseAssignment, LicenseDb, individual, active, is_license, is_for, is_assignment,
  is_held, ended, reassigned, record_audit, license_assigned, rewrite_assignment, get_owned,
  assign_license, unassign_license,
}

-- What an unassignment finds and leaves.
unassign_license_lem :
    (now : Date) (key organization target acting : ℕ) (db : LicenseDb) {a : LicenseAssignment}
    {db' : LicenseDb}
    → unassign_license now key organization target acting db ≡ ok a db'
    → (l : License) × (b : LicenseAssignment) × (find_first (is_license key) db.licenses ≡ some l)
      × ((l.organization_id == organization) ≡ true)
      × (find_first (is_for key target) db.assignments ≡ some b)
      × (a ≡ ended now b)
      × (db'.assignments ≡ update_all (is_assignment b.id) (ended now) db.assignments)
      × (db'.licenses ≡ db.licenses)
unfolding unassign_license get_owned
unassign_license_lem now key organization target acting db {a} {db'} h = ground arith

-- A row that is rewritten by its id is found under its license and user, rewritten.
rewritten :
    (key target : ℕ) (f : LicenseAssignment → LicenseAssignment) (db : LicenseDb)
    (b : LicenseAssignment)
    → ((x : LicenseAssignment) → is_for key target (f x) ≡ is_for key target x)
    → find_first (is_for key target) db.assignments ≡ some b
    → find_first (is_for key target) (update_all (is_assignment b.id) f db.assignments) ≡ some (f b)
rewritten key target f db b same found =
    find_first-update_hit (is_for key target) (is_assignment b.id) f db.assignments same found
    ∙ rw (eq_refl b.id, if◌then◌else◌) refl

-- After an unassignment of a user from an ACTIVE license of type INDIVIDUAL has succeeded, an
-- assignment of the license to the same user at whatever later time succeeds: it gives the row that
-- had ended, assigned now and not ended, which is the user's row in the table; and the table has as
-- many rows as before the unassignment.
pub assign_license-unassign_license :
    (now later : Date) (key organization target acting user : ℕ) (db : LicenseDb) (l : License)
    (a : LicenseAssignment) (db' : LicenseDb)
    → find_first (is_license key) db.licenses ≡ some l
    → l.type ≡ individual
    → l.status ≡ active
    → unassign_license now key organization target acting db ≡ ok a db'
    → (b : LicenseAssignment) × (db'' : LicenseDb) × (assign_license later key organization user
          target db'
        ≡ ok b db'')
      × (b.id ≡ a.id)
      × (b.assigned_at ≡ later)
      × (is_held b.unassigned_at ≡ true)
      × (find_first (is_for key target) db''.assignments ≡ some b)
      × (length db''.assignments ≡ length db.assignments)
unfolding assign_license get_owned
assign_license-unassign_license now later key organization target acting user db l a db' found kind
      open_license h =
    let (l', b, found', owned, held, row, after, same) =
      unassign_license_lem now key organization target acting db h in
    let same_license : l' ≡ l = some_eq (sym found' ∙ found) in
    let licensed : find_first (is_license key) db'.licenses ≡ some l = rw same found in
    let free : find_first (is_for key target) db'.assignments ≡ some (ended now b) =
      rw after (rewritten key target (ended now) db b (λ x. refl) held) in
    (
      reassigned later (ended now b),
      record_audit (license_assigned target) user key
          (rewrite_assignment b.id (reassigned later) db'),
      rw (licensed, assign_license, get_owned, ◌>>=◌)
          (rw (← same_license, owned, ◌>>=◌)
            (rw (kind, open_license, ◌>>=◌) (rw (free, ◌>>=◌) refl))),
      ap (λ x. x.id) (sym row),
      refl,
      refl,
      rewritten key target (reassigned later) db' (ended now b) (λ x. refl) free,
      length-update_all (is_assignment b.id) (reassigned later) db'.assignments
          ∙ ap length after
          ∙ length-update_all (is_assignment b.id) (ended now) db.assignments,
    )
