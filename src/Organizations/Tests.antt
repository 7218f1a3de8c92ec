-- ===== src/Organizations/Tests.antt =====
-- The theorems on organizations, applied: one organization, with two owners.
use paywall.Prelude.{inr, ◌≡◌, refl, none, List, [], ◌∷◌, ◌++◌, arith, ok, find_first, count_all}
use paywall.Organizations.{
  owner, member, Organization, OrganizationDb, has_slug, new_member, create,
}
use paywall.Organizations.Slugify.{Runtime, slugify}
use paywall.Organizations.Slugs.{IsDecimal, create_total}
use paywall.Organizations.Owners.{Owned}
use paywall.Organizations.Histories.{
  OrganizationRequest, creates, deletes, adds, changes_role, removes, serve_all, serve_all-Owned,
}

-- Texts as they are, and a number as one character.
abbrev plain : Runtime
plain = record { to_lower_case = λ t. t; trim = λ t. t; to_decimal = λ n. n ∷ [] }

plain-IsDecimal : IsDecimal plain
plain-IsDecimal = record { apart = λ i j h. ground arith }

-- "a b!" becomes "a-b".
slugify_text : slugify plain (97 ∷ 32 ∷ 98 ∷ 33 ∷ []) ≡ 97 ∷ 45 ∷ 98 ∷ []
unfolding slugify
slugify_text = refl

abbrev db : OrganizationDb
db = record {
  users = record { id = 1; email = 71 } ∷ record { id = 2; email = 72 } ∷ [];
  organizations = record { id = 10; name = 97 ∷ []; slug = 97 ∷ [] } ∷ [];
  members = new_member 20 10 1 owner ∷ new_member 21 10 2 owner ∷ [];
  organization_audit = [];
  next_id = 100;
}

db-Owned : Owned 10 db
unfolding count_all
db-Owned =
    (record { unique = λ key. ground arith; fresh = λ key h. ground arith }, inr (omega arith))

create_total_example :
    (o : Organization) × (db' : OrganizationDb) × (create plain 1 (97 ∷ []) db ≡ ok o db')
    × (find_first (has_slug o.slug) db.organizations ≡ none)
    × (db'.organizations ≡ db.organizations ++ o ∷ [])
    × (db'.members ≡ db.members ++ new_member 101 o.id 1 owner ∷ [])
create_total_example = create_total plain 1 (97 ∷ []) db plain-IsDecimal

abbrev requests : List OrganizationRequest
requests =
    changes_role 10 20 member 2
    ∷ removes 10 21 2
    ∷ adds 10 71 owner 2
    ∷ creates 2 (97 ∷ [])
    ∷ deletes 100 2
    ∷ changes_role 10 20 owner 2
    ∷ removes 10 21 2
    ∷ []

serve_all-Owned_example : Owned 10 (serve_all plain requests db)
serve_all-Owned_example = serve_all-Owned plain 10 requests db db-Owned
