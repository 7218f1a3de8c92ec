-- ===== src/Organizations/Requests.antt =====
-- What each request to OrganizationsService does to the owners.
use paywall.Prelude.{
  ℕ, suc, ◌+◌, ◌≤◌, ◌≡◌, refl, ◌∙◌, ap, inl, inr, Bool, true, false, not, Option, none, some, List,
  [], ◌∷◌, ◌++◌, ◌==◌, Text, ==_iff, or_else, find_first-append, find_first-update_inv,
  find_first-select-not, select, arith, Bool-cases, Option-cases, is_some, find_first, count_all,
  count_all-append, ◌>>=◌, state_of, if◌then◌else◌,
}
use mathlib.Core.Path.{subst}
use paywall.Organizations.{
  Organization, is_organization, rename, update_organization, delete_organization,
  remove_organization, OrganizationRole, owner, OrganizationMember, OrganizationDb, is_membership,
  is_owner_in, is_member_of, new_member, add_member, create_with,
}
use paywall.Organizations.Owners.{owners, Sound, Owned, assert_role-cases}

abbrev one_if : Bool → ℕ
one_if true = 1
one_if false = 0

-- A row with an id that is still to be given.
added-Sound :
    (db : OrganizationDb) (m : OrganizationMember) (next : ℕ)
    → Sound db
    → db.next_id ≤ m.id
    → suc m.id ≤ next
    → ((key : ℕ) → count_all (is_membership key) (db.members ++ m ∷ []) ≤ 1)
      × ((key : ℕ) → next ≤ key → count_all (is_membership key) (db.members ++ m ∷ []) ≡ 0)
unfolding count_all
added-Sound db m next sound new later = (
  λ key. elim (Bool-cases (m.id == key)) [
    | inl e ↦ omega (arith, added key, sound.fresh key (ground arith), one key e)
    | inr e ↦ omega (arith, added key, sound.unique key, no key e)
  ],
  λ key h. omega (arith, added key, sound.fresh key (omega arith), no key (ground arith)),
)
  where
    added :
        (key : ℕ)
        → count_all (is_membership key) (db.members ++ m ∷ [])
          ≡ count_all (is_membership key) db.members + one_if (m.id == key)
    added key = count_all-append (is_membership key) db.members (m ∷ []) ∙ ground arith

    one : (key : ℕ) → (m.id == key) ≡ true → one_if (m.id == key) ≡ 1
    one key e = rw e refl

    no : (key : ℕ) → (m.id == key) ≡ false → one_if (m.id == key) ≡ 0
    no key e = rw e refl

added-owners :
    (organization : ℕ) (db : OrganizationDb) (m : OrganizationMember)
    → 1 ≤ owners organization db
    → 1 ≤ count_all (is_owner_in organization) (db.members ++ m ∷ [])
added-owners organization db m h =
    omega (arith, h, count_all-append (is_owner_in organization) db.members (m ∷ []))

pub add_member-Owned :
    (organization at email : ℕ) (role : OrganizationRole) (acting : ℕ) (db : OrganizationDb)
    → Owned organization db
    → Owned organization (state_of (add_member at email role acting db))
unfolding add_member
add_member-Owned organization at email role acting db (sound, owned) =
    elim (Option-cases (find_first (λ u. u.email == email) db.users)) [
      | inl missing ↦ rw (missing, add_member, ◌>>=◌) (sound, owned)
      | inr (u, found) ↦
          elim (Bool-cases (not (is_some (find_first (is_member_of at u.id) db.members)))) [
            | inr e ↦ rw (found, add_member, ◌>>=◌, e) (sound, owned)
            | inl e ↦ elim (assert_role-cases at acting role db) [
              | inr e' ↦ rw (found, add_member, ◌>>=◌, e, e') (sound, owned)
              | inl e' ↦
                  rw (found, add_member, ◌>>=◌, e, e')
                    (let m = new_member db.next_id at u.id role in
                      let (unique, fresh) =
                        added-Sound db m (suc db.next_id) sound (omega arith) (omega arith) in
                      (
                        record { unique = unique; fresh = fresh },
                        elim owned [
                          | inl absent ↦ inl absent
                          | inr some_owner ↦ inr (added-owners organization db m some_owner)
                        ],
                      ))
            ]
          ]
    ]

-- A new organization has an owner, and the others keep theirs.
pub create_with-Owned :
    (organization user : ℕ) (name : Text) (slug : Option Text) (db : OrganizationDb)
    → Owned organization db
    → Owned organization (state_of (create_with user name slug db))
unfolding find_first count_all
create_with-Owned organization user name none db owned = owned
create_with-Owned organization user name (some slug) db (sound, owned) =
    let (unique, fresh) =
      added-Sound db m (suc (suc db.next_id)) sound (omega arith) (omega arith) in
    (
      record { unique = unique; fresh = fresh },
      elim owned [
        | inr some_owner ↦ inr (added-owners organization db m some_owner)
        | inl absent ↦ elim (Bool-cases (db.next_id == organization)) [
          | inl e ↦ inr (
              omega
                (arith, count_all-append (is_owner_in organization) db.members (m ∷ []), here e))
          | inr e ↦ inl (
              find_first-append (is_organization organization) db.organizations (_ ∷ [])
              ∙ ap (λ o. or_else o (if db.next_id == organization then some new else none)) absent
              ∙ ap (λ b. if b then some new else none) e)
        ]
      ],
    )
  where
    m : OrganizationMember
    m = new_member (suc db.next_id) db.next_id user owner

    new : Organization
    new = record { id = db.next_id; name = name; slug = slug }

    here : (db.next_id == organization) ≡ true → count_all (is_owner_in organization) (m ∷ []) ≡ 1
    here e = ground arith

pub update_organization-Owned :
    (organization at : ℕ) (name : Text) (user : ℕ) (db : OrganizationDb)
    → Owned organization db
    → Owned organization (state_of (update_organization at name user db))
unfolding update_organization
update_organization-Owned organization at name user db (sound, owned) =
    elim (Option-cases (find_first (is_organization at) db.organizations)) [
      | inl missing ↦ rw (missing, update_organization, ◌>>=◌) (sound, owned)
      | inr (o, found) ↦
          rw (found, update_organization, ◌>>=◌)
            (
              record { unique = sound.unique; fresh = sound.fresh },
              elim owned [
                | inr some_owner ↦ inr some_owner
                | inl absent ↦
                    inl
                      (elim (Option-cases (
                        find_first (is_organization organization)
                          (rename at name db).organizations)) [
                            | inl e ↦ e
                            | inr (a, e) ↦
                                let (b, found', _) =
                                  find_first-update_inv (is_organization organization)
                                    (is_organization at) _ db.organizations (λ x. refl) e in
                                cc
                          ])
              ],
            )
    ]

-- A deletion takes the organization and its members, and leaves the others alone.
select-owners :
    (organization at : ℕ) (ms : List OrganizationMember)
    → (at == organization) ≡ false
    → count_all (is_owner_in organization) (select (λ m. not (m.organization_id == at)) ms)
      ≡ count_all (is_owner_in organization) ms
unfolding select count_all
select-owners organization at [] ne = refl
select-owners organization at (m ∷ ms) ne = ground (arith, select-owners organization at ms ne)

select-absent :
    (organization at : ℕ) (os : List Organization)
    → find_first (is_organization organization) os ≡ none
    → find_first (is_organization organization) (select (λ o. not (is_organization at o)) os) ≡ none
unfolding select find_first
select-absent organization at [] absent = refl
select-absent organization at (o ∷ os) absent = ground (arith, select-absent organization at os)

select-membership :
    (key at : ℕ) (ms : List OrganizationMember)
    → count_all (is_membership key) (select (λ m. not (m.organization_id == at)) ms)
      ≤ count_all (is_membership key) ms
unfolding select count_all
select-membership key at [] = omega arith
select-membership key at (m ∷ ms) = ground (arith, select-membership key at ms)

delete_organization-Owned :
    (organization at : ℕ) (db : OrganizationDb)
    → Owned organization db
    → Owned organization (delete_organization at db)
delete_organization-Owned organization at db (sound, owned) = (
  record {
    unique = λ k. omega (arith, select-membership k at db.members, sound.unique k);
    fresh = λ k h. omega (arith, select-membership k at db.members, sound.fresh k h);
  },
  elim (Bool-cases (at == organization)) [
    | inl e ↦ inl (
        subst (λ k. find_first (is_organization k) (delete_organization at db).organizations ≡ none)
          ((==_iff at organization).0 e)
          (find_first-select-not (is_organization at) db.organizations))
    | inr ne ↦ elim owned [
      | inl absent ↦ inl (select-absent organization at db.organizations absent)
      | inr some_owner ↦ inr (rw (select-owners organization at db.members ne) some_owner)
    ]
  ],
)

pub remove_organization-Owned :
    (organization at user : ℕ) (db : OrganizationDb)
    → Owned organization db
    → Owned organization (state_of (remove_organization at user db))
unfolding remove_organization
remove_organization-Owned organization at user db owned =
    elim (Bool-cases (is_some (find_first (is_organization at) db.organizations))) [
      | inr e ↦ rw (e, remove_organization, ◌>>=◌) owned
      | inl e ↦
          rw (e, remove_organization, ◌>>=◌)
            (let (sound, left) = delete_organization-Owned organization at db owned in
              (record { unique = sound.unique; fresh = sound.fresh }, left))
    ]
