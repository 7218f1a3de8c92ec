-- ===== src/Organizations/Owners.antt =====
-- The owners of an organization, and the writes to its members.
use paywall.Prelude.{
  ℕ, ◌≤◌, ◌≡◌, refl, ◌∙◌, ap, inl, inr, ◌⊎◌, Bool, true, false, not, ◌&&◌, none, some, List, [],
  ◌∷◌, ◌==◌, ==_iff, arith, Bool-cases, Option-cases, find_first, find_first-true, update_all,
  count_all, count_all-update_same, find_first-count, find_first-update_hit, select, ok, err, ◌>>=◌,
  guard, forbidden, bad_request, not_found, state_of, if◌then◌else◌,
}
use mathlib.Core.Path.{subst}
use paywall.Organizations.{
  OrganizationRole, owner, administrator, developer, manager, member, viewer, is_owner,
  OrganizationMember, OrganizationDb, is_organization, is_membership, is_owner_in, is_other_owner,
  role_is_owner, is_member_of, assert_role_assignment_allowed, assert_not_last_owner,
  get_membership, unless_last, set_role, update_member_role, delete_member, remove_member,
}

-- The owners of an organization, and its owners by other memberships than one.
abbrev pub owners : ℕ → OrganizationDb → ℕ
owners organization db = count_all (is_owner_in organization) db.members

abbrev pub other_owners : ℕ → ℕ → OrganizationDb → ℕ
other_owners organization key db = count_all (is_other_owner organization key) db.members

-- An id is the id of one membership at most, and of none if it is still to be given.
pub record Sound (db : OrganizationDb) : Type 0 where
  pub unique : (key : ℕ) → count_all (is_membership key) db.members ≤ 1
  pub fresh : (key : ℕ) → db.next_id ≤ key → count_all (is_membership key) db.members ≡ 0

-- Without the membership, if it is of another organization or not an owner's, the owners are as many.
other_owners-none :
    (organization key : ℕ) (ms : List OrganizationMember)
    → count_all (is_membership key) ms ≡ 0
    → count_all (is_owner_in organization) ms ≤ count_all (is_other_owner organization key) ms
unfolding count_all
other_owners-none organization key [] h = omega arith
other_owners-none organization key (m ∷ ms) h =
    ground (arith, other_owners-none organization key ms)

other_owners-same :
    (organization key : ℕ) (ms : List OrganizationMember) (m : OrganizationMember)
    → count_all (is_membership key) ms ≤ 1
    → find_first (is_membership key) ms ≡ some m
    → is_owner_in organization m ≡ false
    → count_all (is_owner_in organization) ms ≤ count_all (is_other_owner organization key) ms
unfolding count_all find_first
other_owners-same organization key [] m one found off = cc
other_owners-same organization key (x ∷ xs) m one found off = elim (Bool-cases (x.id == key)) [
  | inl e ↦ ground (arith, other_owners-none organization key xs)
  | inr e ↦ ground (arith, other_owners-same organization key xs m)
]

-- The other owners outlive a deletion, and a change of role.
delete_member-owners :
    (organization key : ℕ) (ms : List OrganizationMember)
    → count_all (is_owner_in organization) (select (λ m. not (m.id == key)) ms)
      ≡ count_all (is_other_owner organization key) ms
unfolding count_all select
delete_member-owners organization key [] = refl
delete_member-owners organization key (m ∷ ms) =
    ground (arith, delete_member-owners organization key ms)

set_role-owners :
    (organization key : ℕ) (role : OrganizationRole) (ms : List OrganizationMember)
    → count_all (is_other_owner organization key) ms
      ≤ count_all
          (is_owner_in organization)
          (update_all (is_membership key) (λ m. record m { role = role }) ms)
unfolding count_all update_all
set_role-owners organization key role [] = omega arith
set_role-owners organization key role (m ∷ ms) =
    ground (arith, set_role-owners organization key role ms)

delete_member-Sound : (key : ℕ) (db : OrganizationDb) → Sound db → Sound (delete_member key db)
unfolding count_all select
delete_member-Sound key db sound = record {
  unique = λ k. omega (arith, fewer k db.members, sound.unique k);
  fresh = λ k h. omega (arith, fewer k db.members, sound.fresh k h);
}
  where
    fewer :
        (k : ℕ) (ms : List OrganizationMember)
        → count_all (is_membership k) (select (λ m. not (m.id == key)) ms)
          ≤ count_all (is_membership k) ms
    fewer k [] = omega arith
    fewer k (m ∷ ms) = ground (arith, fewer k ms)

set_role-Sound :
    (key : ℕ) (role : OrganizationRole) (db : OrganizationDb)
    → Sound db
    → Sound (set_role key role db)
set_role-Sound key role db sound = record {
  unique = λ k. rw (same k) (sound.unique k);
  fresh = λ k h. rw (same k) (sound.fresh k h);
}
  where
    same :
        (k : ℕ)
        → count_all (is_membership k) (set_role key role db).members
          ≡ count_all (is_membership k) db.members
    same k = count_all-update_same (is_membership k) (is_membership key) _ db.members (λ x h. refl)

-- The checks change nothing.
pub assert_role-cases :
    (organization acting : ℕ) (role : OrganizationRole) (db : OrganizationDb)
    → (assert_role_assignment_allowed organization acting role db ≡ ok tt db)
      ⊎ (assert_role_assignment_allowed organization acting role db ≡ err forbidden db)
unfolding assert_role_assignment_allowed
assert_role-cases organization acting owner db =
    elim (Bool-cases (role_is_owner (find_first (is_member_of organization acting) db.members))) [
      | inl e ↦ inl (rw (e, guard) refl)
      | inr e ↦ inr (rw (e, guard) refl)
    ]
assert_role-cases organization acting administrator db = inl refl
assert_role-cases organization acting developer db = inl refl
assert_role-cases organization acting manager db = inl refl
assert_role-cases organization acting member db = inl refl
assert_role-cases organization acting viewer db = inl refl

unless_last-cases :
    (b : Bool) (organization key : ℕ) (db : OrganizationDb)
    → ((unless_last b organization key db ≡ ok tt db)
        × ((b ≡ false) ⊎ (1 ≤ other_owners organization key db)))
      ⊎ (unless_last b organization key db ≡ err bad_request db)
unfolding unless_last assert_not_last_owner
unless_last-cases true organization key db =
    elim (Bool-cases (other_owners organization key db == 0)) [
      | inl e ↦ inr (rw (e, guard) refl)
      | inr e ↦ inl (rw (e, guard) refl, inr (ground arith))
    ]
unless_last-cases false organization key db = inl (refl, inl refl)

get_membership-cases :
    (organization key : ℕ) (db : OrganizationDb)
    → ((m : OrganizationMember) × (get_membership organization key db ≡ ok m db)
        × (find_first (is_membership key) db.members ≡ some m)
        × (m.organization_id ≡ organization))
      ⊎ (get_membership organization key db ≡ err not_found db)
unfolding get_membership
get_membership-cases organization key db =
    elim (Option-cases (find_first (is_membership key) db.members)) [
      | inl missing ↦ inr (rw (missing, get_membership, ◌>>=◌) refl)
      | inr (m, found) ↦ elim (Bool-cases (m.organization_id == organization)) [
        | inl e ↦ inl (
          m,
          rw (found, get_membership, ◌>>=◌, e) refl,
          found,
          (==_iff m.organization_id organization).0 e,
        )
        | inr e ↦ inr (rw (found, get_membership, ◌>>=◌, e) refl)
      ]
    ]

-- The organization, if the table has it, has an owner; and ids are sound.
abbrev pub IsAbsent : ℕ → OrganizationDb → Type 0
IsAbsent organization db = find_first (is_organization organization) db.organizations ≡ none

abbrev pub Owned : ℕ → OrganizationDb → Type 0
Owned organization db = Sound db × (IsAbsent organization db ⊎ (1 ≤ owners organization db))

-- Where the check for the last owner is passed, another owner is there.
other_owners-left :
    (organization at key : ℕ) (db : OrganizationDb) (m : OrganizationMember)
    → Sound db
    → 1 ≤ owners organization db
    → find_first (is_membership key) db.members ≡ some m
    → m.organization_id ≡ at
    → (is_owner m.role ≡ false) ⊎ (1 ≤ other_owners at key db)
    → 1 ≤ other_owners organization key db
other_owners-left organization at key db m sound some_owner found here checked =
    elim (Bool-cases (is_owner_in organization m)) [
      | inr off ↦ omega (
        arith,
        some_owner,
        other_owners-same organization key db.members m (sound.unique key) found off,
      )
      | inl on ↦ elim checked [
        | inl not_owner ↦ absurd (ground arith)
        | inr others ↦
            let same : at ≡ organization = ground arith in
            subst (λ k. 1 ≤ other_owners k key db) same others
      ]
    ]

pub remove_member-Owned :
    (organization at key acting : ℕ) (db : OrganizationDb)
    → Owned organization db
    → Owned organization (state_of (remove_member at key acting db))
unfolding remove_member
remove_member-Owned organization at key acting db owned = elim (get_membership-cases at key db) [
  | inr e ↦ rw (e, remove_member, ◌>>=◌) owned
  | inl (m, e, found, here) ↦ elim (unless_last-cases (is_owner m.role) at key db) [
    | inr e' ↦ rw (e, remove_member, ◌>>=◌, e') owned
    | inl (e', checked) ↦
        rw (e, remove_member, ◌>>=◌, e')
          (let kept = delete_member-Sound key db owned.0 in
            (
              record { unique = kept.unique; fresh = kept.fresh },
              elim owned.1 [
                | inl absent ↦ inl absent
                | inr some_owner ↦ inr (
                    omega (
                      arith,
                      other_owners-left organization at key db m owned.0 some_owner found here
                          checked,
                      delete_member-owners organization key db.members,
                    ))
              ],
            ))
  ]
]

-- A membership that becomes an owner's.
set_role-owner :
    (organization key : ℕ) (role : OrganizationRole) (db : OrganizationDb) (m : OrganizationMember)
    → Sound db
    → 1 ≤ owners organization db
    → find_first (is_membership key) db.members ≡ some m
    → is_owner role ≡ true
    → 1 ≤ owners organization (set_role key role db)
set_role-owner organization key role db m sound some_owner found now =
    elim (Bool-cases (is_owner_in organization m)) [
      | inr off ↦ omega (
        arith,
        some_owner,
        other_owners-same organization key db.members m (sound.unique key) found off,
        set_role-owners organization key role db.members,
      )
      | inl on ↦
          find_first-count (is_membership key) (is_owner_in organization)
            (set_role key role db).members (record m { role = role })
            (find_first-update_hit (is_membership key) (is_membership key)
                (λ x. record x { role = role }) db.members (λ x. refl) found
              ∙ ap (λ b. some (if b then record m { role = role } else m))
                  (find_first-true (is_membership key) db.members found))
            (ground arith)
    ]

set_role-Owned :
    (organization at key : ℕ) (role : OrganizationRole) (db : OrganizationDb)
    (m : OrganizationMember)
    → Sound db
    → 1 ≤ owners organization db
    → find_first (is_membership key) db.members ≡ some m
    → m.organization_id ≡ at
    → ((is_owner m.role && not (is_owner role)) ≡ false) ⊎ (1 ≤ other_owners at key db)
    → 1 ≤ owners organization (set_role key role db)
set_role-Owned organization at key role db m sound some_owner found here checked =
    elim (Bool-cases (is_owner role)) [
      | inl now ↦ set_role-owner organization key role db m sound some_owner found now
      | inr other ↦ omega (
        arith,
        set_role-owners organization key role db.members,
        other_owners-left organization at key db m sound some_owner found here
            (weaker checked other),
      )
    ]
  where
    weaker :
        ((is_owner m.role && not (is_owner role)) ≡ false) ⊎ (1 ≤ other_owners at key db)
        → is_owner role ≡ false
        → (is_owner m.role ≡ false) ⊎ (1 ≤ other_owners at key db)
    weaker (inl e) e' = inl (ground arith)
    weaker (inr h) e' = inr h

pub update_member_role-Owned :
    (organization at key : ℕ) (role : OrganizationRole) (acting : ℕ) (db : OrganizationDb)
    → Owned organization db
    → Owned organization (state_of (update_member_role at key role acting db))
unfolding update_member_role
update_member_role-Owned organization at key role acting db owned =
    elim (get_membership-cases at key db) [
      | inr e ↦ rw (e, update_member_role, ◌>>=◌) owned
      | inl (m, e, found, here) ↦ elim (assert_role-cases at acting role db) [
        | inr e' ↦ rw (e, update_member_role, ◌>>=◌, e') owned
        | inl e' ↦ elim (unless_last-cases (is_owner m.role && not (is_owner role)) at key db) [
          | inr e'' ↦ rw (e, update_member_role, ◌>>=◌, e', e'') owned
          | inl (e'', checked) ↦
              rw (e, update_member_role, ◌>>=◌, e', e'')
                (let kept = set_role-Sound key role db owned.0 in
                  (
                    record { unique = kept.unique; fresh = kept.fresh },
                    elim owned.1 [
                      | inl absent ↦ inl absent
                      | inr some_owner ↦ inr (
                          set_role-Owned organization at key role db m owned.0 some_owner found here
                            checked)
                    ],
                  ))
        ]
      ]
    ]
