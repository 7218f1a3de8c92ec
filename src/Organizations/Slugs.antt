-- ===== src/Organizations/Slugs.antt =====
-- The slug of a new organization.
use paywall.Prelude.{
  Text, same_text, same_text-eq, append_left_cancel, ℕ, zero, suc, ◌≤◌, ◌<◌, ◌≡◌, ◌≢◌, refl, sym,
  ◌∙◌, ap, inl, inr, Bool, true, false, not, none, some, List, [], ◌∷◌, arith, ok, ◌++◌, Bool-cases,
  Option-cases, is_some, length, find_first, select, if◌then◌else◌,
}
use paywall.Organizations.Slugify.{Runtime}
use paywall.Organizations.{
  Organization, candidate, OrganizationDb, organization_created, owner, base_slug, has_slug,
  seek_slug, generate_unique_slug, record_audit, insert_organization, create_with, create,
  new_member,
}

-- What the code relies on: different numbers are written differently.
pub record IsDecimal (r : Runtime) : Type 0 where
  pub apart : (i j : ℕ) → r.to_decimal i ≡ r.to_decimal j → i ≡ j

no_suffix : (s : Text) (c : ℕ) (t : Text) → s ++ c ∷ t ≢ s
no_suffix [] c t h = cc
no_suffix (x ∷ xs) c t h = no_suffix xs c t (ground arith)

tail_eq : {x : ℕ} {s t : Text} → x ∷ s ≡ x ∷ t → s ≡ t
tail_eq h = ground arith

candidate_injective :
    (r : Runtime) (name : Text) (i j : ℕ)
    → IsDecimal r
    → candidate r name i ≡ candidate r name j
    → i ≡ j
unfolding candidate
candidate_injective r name zero zero laws h = refl
candidate_injective r name zero (suc j) laws h = absurd (no_suffix _ _ _ (sym h))
candidate_injective r name (suc i) zero laws h = absurd (no_suffix _ _ _ h)
candidate_injective r name (suc i) (suc j) laws h = omega (
  arith,
  laws.apart (suc (suc i)) (suc (suc j)) (tail_eq (append_left_cancel (base_slug r name) _ _ h)),
)

abbrev lacks : Text → Organization → Bool
lacks slug o = not (same_text o.slug slug)

-- Organizations without a slug that is not sought.
find_first-select :
    (slug other : Text) (os : List Organization)
    → slug ≢ other
    → find_first (has_slug slug) (select (lacks other) os) ≡ find_first (has_slug slug) os
unfolding find_first select
find_first-select slug other [] ne = refl
find_first-select slug other (o ∷ os) ne = elim (Bool-cases (same_text o.slug other)) [
  | inl e ↦ rw (e, select, not_sought e) (find_first-select slug other os ne)
  | inr e ↦
      rw (e, select)
        (ap (λ x. if same_text o.slug slug then some o else x) (find_first-select slug other os ne))
]
  where
    not_sought : same_text o.slug other ≡ true → same_text o.slug slug ≡ false
    not_sought e = elim (Bool-cases (same_text o.slug slug)) [
      | inl e' ↦ absurd (ne (sym (same_text-eq o.slug slug e') ∙ same_text-eq o.slug other e))
      | inr e' ↦ e'
    ]

length-select : (slug : Text) (os : List Organization) → length (select (lacks slug) os) ≤ length os
unfolding select
length-select slug [] = omega arith
length-select slug (o ∷ os) = ground (arith, length-select slug os)

length-select_lt :
    (slug : Text) (os : List Organization) (o : Organization)
    → find_first (has_slug slug) os ≡ some o
    → length (select (lacks slug) os) < length os
unfolding find_first select
length-select_lt slug [] o found = cc
length-select_lt slug (x ∷ xs) o found = elim (Bool-cases (same_text x.slug slug)) [
  | inl e ↦ ground (arith, length-select slug xs)
  | inr e ↦ ground (arith, length-select_lt slug xs o (rw (e, find_first) at found))
]

-- The loop sees only the candidates from its round on.
seek_slug-same :
    (r : Runtime) (name : Text) (rounds n : ℕ) (os os' : List Organization)
    → ((j : ℕ)
        → n ≤ j
        → find_first (has_slug (candidate r name j)) os
          ≡ find_first (has_slug (candidate r name j)) os')
    → seek_slug r name rounds n os ≡ seek_slug r name rounds n os'
unfolding seek_slug
seek_slug-same r name zero n os os' same = refl
seek_slug-same r name (suc rounds) n os os' same =
    ap (λ o. if is_some o then seek_slug r name rounds (suc n) os else some (candidate r name n))
      (same n (omega arith))
    ∙ ap
        (λ rest.
          if is_some (find_first (has_slug (candidate r name n)) os')
          then rest
          else some (candidate r name n))
        (seek_slug-same r name rounds (suc n) os os' (λ j h. same j (omega arith)))

-- A slug that the loop has found: a candidate that no organization has.
record Found (r : Runtime) (name : Text) (rounds n : ℕ) (os : List Organization) : Type 0 where
  round : ℕ
  from : n ≤ round
  result : seek_slug r name rounds n os ≡ some (candidate r name round)
  free : find_first (has_slug (candidate r name round)) os ≡ none

-- It finds one in more rounds than there are organizations.
seek_slug_total :
    (r : Runtime) (name : Text) (rounds n : ℕ) (os : List Organization)
    → IsDecimal r
    → length os < rounds
    → Found r name rounds n os
unfolding seek_slug
seek_slug_total r name zero n os laws h = absurd (omega arith)
seek_slug_total r name (suc rounds) n os laws h =
    elim (Option-cases (find_first (has_slug (candidate r name n)) os)) [
      | inl missing ↦ record {
        round = n;
        from = omega arith;
        result = rw (missing, seek_slug) refl;
        free = missing;
      }
      | inr (o, found) ↦
          let others = select (lacks (candidate r name n)) os in
          let shorter = length-select_lt (candidate r name n) os o found in
          let later = seek_slug_total r name rounds (suc n) others laws (omega arith) in
          let apart : (j : ℕ) → suc n ≤ j → candidate r name j ≢ candidate r name n =
            λ j le e. absurd (omega (arith, candidate_injective r name j n laws e, le)) in
          record {
            round = later.round;
            from = omega (arith, later.from);
            result =
                rw (found, seek_slug)
                  (seek_slug-same r name rounds (suc n) os others
                      (λ j le. sym (find_first-select _ _ os (apart j le)))
                    ∙ later.result);
            free = sym (find_first-select _ _ os (apart later.round later.from)) ∙ later.free;
          }
    ]

pub generate_unique_slug_free :
    (r : Runtime) (name : Text) (os : List Organization)
    → IsDecimal r
    → (slug : Text) × (generate_unique_slug r name os ≡ some slug)
      × (find_first (has_slug slug) os ≡ none)
unfolding generate_unique_slug
generate_unique_slug_free r name os laws =
    let found = seek_slug_total r name (suc (length os)) zero os laws (omega arith) in
    (candidate r name found.round, found.result, found.free)

-- A creation of an organization always succeeds, within as many rounds of the search for a slug as
-- there are organizations and one more: with a slug that no organization has, and with its creator
-- as its owner, if different numbers are written differently.
pub create_total :
    (r : Runtime) (user : ℕ) (name : Text) (db : OrganizationDb)
    → IsDecimal r
    → (o : Organization) × (db' : OrganizationDb) × (create r user name db ≡ ok o db')
      × (find_first (has_slug o.slug) db.organizations ≡ none)
      × (db'.organizations ≡ db.organizations ++ o ∷ [])
      × (db'.members ≡ db.members ++ new_member (suc db.next_id) o.id user owner ∷ [])
unfolding create
create_total r user name db laws =
    let (slug, made, free) = generate_unique_slug_free r name db.organizations laws in
    (
      record { id = db.next_id; name = name; slug = slug },
      record_audit organization_created user db.next_id (insert_organization user name slug db),
      ap (λ o. create_with user name o db) made,
      free,
      refl,
      refl,
    )
