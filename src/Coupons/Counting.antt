-- ===== src/Coupons/Counting.antt =====
-- The number of redemptions of a coupon, as its row counts it and as the rows of redemptions show it.
use paywall.Prelude.{
  ℕ, ◌≤◌, ◌≡◌, refl, sym, ◌∙◌, ap, inl, inr, Bool, Option, none, some, [], ◌∷◌, ◌==◌, ==_iff, arith,
  if◌then◌else◌, Bool-cases, Option-cases, or_else, find_first, find_first-append,
  find_first-update_inv, some_eq, count_all, Request, ◌>>=◌, return, or_throw, read, guard,
  state_of, not_found, write, Error, Within, Within->>=, Within-guard, Within-or_throw, Within-read,
  Within-return, Within-write,
}
use paywall.Coupons.{
  has_code_in, coupon_updated, coupon_archived, archived, Coupon, SubscriptionCoupon, CouponDb,
  CreateCouponDto, UpdateCouponDto, CreatePromotionCodeDto, CouponAction, has_coupon_id,
  record_coupon_audit, rewrite_coupon, new_coupon, insert_coupon, create_coupon, updated_coupon,
  update_coupon, archive_coupon, get_owned_coupon,
}
use paywall.Coupons.Promotions.{create_promotion_code, deactivate_promotion_code}

abbrev pub is_redemption_of : ℕ → SubscriptionCoupon → Bool
is_redemption_of key r = r.coupon_id == key

-- How often a coupon was redeemed, removed redemptions included.
unfoldable pub redemptions_of : ℕ → CouponDb → ℕ
redemptions_of key db = count_all (is_redemption_of key) db.subscription_coupons

-- Every coupon counts its redemptions, and an id that is still to be given has none.
pub record Counted (db : CouponDb) : Type 0 where
  pub counts :
      (key : ℕ) (c : Coupon)
      → find_first (has_coupon_id key) db.coupons ≡ some c
      → c.redemption_count ≡ redemptions_of key db
  pub fresh : (key : ℕ) → db.next_id ≤ key → redemptions_of key db ≡ 0
  pub given : (key : ℕ) → db.next_id ≤ key → find_first (has_coupon_id key) db.coupons ≡ none

-- Writes that leave both tables alone.
pub Counted-same :
    (db db' : CouponDb)
    → db'.coupons ≡ db.coupons
    → db'.subscription_coupons ≡ db.subscription_coupons
    → db.next_id ≤ db'.next_id
    → Counted db
    → Counted db'
unfolding redemptions_of
Counted-same db db' same same' later inv = record {
  counts = λ key c found.
      inv.counts key c (ap (find_first (has_coupon_id key)) (sym same) ∙ found)
      ∙ ap (count_all (is_redemption_of key)) (sym same');
  fresh = λ key h. ap (count_all (is_redemption_of key)) same' ∙ inv.fresh key (omega arith);
  given = λ key h. ap (find_first (has_coupon_id key)) same ∙ inv.given key (omega arith);
}

abbrev Keeps : CouponDb → CouponDb → Type 0
Keeps db db' = Counted db → Counted db'

-- A write that keeps the coupons' counts and adds no redemption.
abbrev Keeps-refl : (db : CouponDb) → Keeps db db
Keeps-refl db inv = inv

abbrev Keeps-trans : (a b c : CouponDb) → Keeps a b → Keeps b c → Keeps a c
Keeps-trans a b c f g inv = g (f inv)

bind :
    {A B : Type 0} (m : Request CouponDb A) (f : A → Request CouponDb B)
    → Within Keeps m
    → ((a : A) → Within Keeps (f a))
    → Within Keeps (m >>= f)
bind m f = Within->>= Keeps Keeps-refl Keeps-trans m f

read-Keeps : {A : Type 0} (f : CouponDb → A) → Within Keeps (read f)
read-Keeps f = Within-read Keeps Keeps-refl Keeps-trans f

or_throw-Keeps : {A : Type 0} (o : Option A) (e : Error) → Within Keeps (or_throw o e)
or_throw-Keeps o e = Within-or_throw Keeps Keeps-refl Keeps-trans o e

guard-Keeps : (b : Bool) (e : Error) → Within Keeps (guard b e)
guard-Keeps b e = Within-guard Keeps Keeps-refl Keeps-trans b e

return-Keeps : {A : Type 0} (a : A) → Within Keeps (return a)
return-Keeps a = Within-return Keeps Keeps-refl Keeps-trans a

write-Keeps :
    (f : CouponDb → CouponDb) → ((db : CouponDb) → Keeps db (f db)) → Within Keeps (write f)
write-Keeps f h = Within-write Keeps Keeps-refl Keeps-trans f h

audit-Keeps :
    (action : CouponAction) (user organization : ℕ)
    → Within Keeps (write (record_coupon_audit action user organization))
unfolding redemptions_of
audit-Keeps action user organization =
    write-Keeps _ λ db inv. record { counts = inv.counts; fresh = inv.fresh; given = inv.given }

pub rewrite_none :
    (id key : ℕ) (f : Coupon → Coupon) (db : CouponDb)
    → ((c : Coupon) → (f c).id ≡ c.id)
    → find_first (has_coupon_id key) db.coupons ≡ none
    → find_first (has_coupon_id key) (rewrite_coupon id f db).coupons ≡ none
rewrite_none id key f db same missing =
    elim (Option-cases (find_first (has_coupon_id key) (rewrite_coupon id f db).coupons)) [
      | inl e ↦ e
      | inr (a, e) ↦
          let (b, found, _) =
            find_first-update_inv (has_coupon_id key) (has_coupon_id id) f db.coupons
              (λ x. ap (λ k. k == key) (same x)) e in
          cc
    ]

rewrite-Keeps :
    (id : ℕ) (f : Coupon → Coupon)
    → ((c : Coupon) → ((f c).id ≡ c.id) × ((f c).redemption_count ≡ c.redemption_count))
    → Within Keeps (write (rewrite_coupon id f))
unfolding redemptions_of
rewrite-Keeps id f same = write-Keeps _ λ db inv. record {
  counts = λ key c found.
      let (b, found', cases) =
        find_first-update_inv (has_coupon_id key) (has_coupon_id id) f db.coupons
          (λ x. ap (λ k. k == key) (same x).0) found in
      elim cases [
        | inl (_, e) ↦ ap (λ d. d.redemption_count) e ∙ (same b).1 ∙ inv.counts key b found'
        | inr (_, e) ↦ ap (λ d. d.redemption_count) e ∙ inv.counts key b found'
      ];
  fresh = inv.fresh;
  given = λ key h. rewrite_none id key f db (λ x. (same x).0) (inv.given key h);
}

-- A new coupon has no redemptions.
insert-Keeps :
    (organization user : ℕ) (dto : CreateCouponDto) (db : CouponDb)
    → Counted db
    → Counted (insert_coupon (new_coupon db.next_id organization user dto) db)
unfolding redemptions_of find_first
insert-Keeps organization user dto db inv = record {
  counts = λ key c found.
      go key c (find_first (has_coupon_id key) db.coupons) refl
        (sym (find_first-append (has_coupon_id key) db.coupons (new ∷ [])) ∙ found);
  fresh = λ key h. inv.fresh key (omega arith);
  given = λ key h.
      find_first-append (has_coupon_id key) db.coupons (new ∷ [])
      ∙ ap (λ o. or_else o (if db.next_id == key then some new else none))
          (inv.given key (omega arith))
      ∙ ground arith;
}
  where
    new : Coupon
    new = new_coupon db.next_id organization user dto

    go :
        (key : ℕ) (c : Coupon) (o : Option Coupon)
        → find_first (has_coupon_id key) db.coupons ≡ o
        → or_else o (if db.next_id == key then some new else none) ≡ some c
        → c.redemption_count ≡ count_all (is_redemption_of key) db.subscription_coupons
    go key c (some d) e h = ap (λ x. x.redemption_count) (sym (some_eq h)) ∙ inv.counts key d e
    go key c none e h = elim (Bool-cases (db.next_id == key)) [
      | inl same ↦
          ap (λ x. x.redemption_count) (sym (some_eq (rw same at h)))
          ∙ sym (inv.fresh key (omega (arith, (==_iff db.next_id key).0 same)))
      | inr other ↦ cc (rw other at h)
    ]

create_coupon-Counted :
    (organization user : ℕ) (dto : CreateCouponDto) (db : CouponDb)
    → Counted db
    → Counted (state_of (create_coupon organization user dto db))
unfolding create_coupon
create_coupon-Counted organization user dto db inv =
    elim (Option-cases (find_first (has_code_in organization dto.code) db.coupons)) [
      | inl free ↦
          rw (free, create_coupon, ◌>>=◌)
            (Counted-same (insert_coupon (new_coupon db.next_id organization user dto) db) _ refl
              refl (omega arith) (insert-Keeps organization user dto db inv))
      | inr (c, taken) ↦ rw (taken, create_coupon, ◌>>=◌) inv
    ]

get_owned-Keeps : (id organization : ℕ) → Within Keeps (get_owned_coupon id organization)
unfolding get_owned_coupon
get_owned-Keeps id organization =
    bind _ _ (read-Keeps (λ db. find_first (has_coupon_id id) db.coupons)) λ found.
      bind _ _ (or_throw-Keeps found not_found) λ c.
        bind _ _ (guard-Keeps (c.organization_id == organization) not_found) λ _. return-Keeps c

update_coupon-Keeps :
    (id organization user : ℕ) (dto : UpdateCouponDto)
    → Within Keeps (update_coupon id organization user dto)
unfolding update_coupon
update_coupon-Keeps id organization user dto = bind _ _ (get_owned-Keeps id organization) λ c.
    bind _ _ (rewrite-Keeps id (updated_coupon dto) (λ d. (refl, refl))) λ _.
      bind _ _ (audit-Keeps (coupon_updated id) user organization)
        λ _. return-Keeps (updated_coupon dto c)

archive_coupon-Keeps :
    (id organization user : ℕ) → Within Keeps (archive_coupon id organization user)
unfolding archive_coupon
archive_coupon-Keeps id organization user = bind _ _ (get_owned-Keeps id organization) λ c.
    bind _ _ (rewrite-Keeps id (λ d. record d { status = archived }) (λ d. (refl, refl))) λ _.
      bind _ _ (audit-Keeps (coupon_archived id) user organization)
        λ _. return-Keeps (record c { status = archived })

create_promotion_code-Counted :
    (coupon user : ℕ) (dto : CreatePromotionCodeDto) (db : CouponDb)
    → Counted db
    → Counted (state_of (create_promotion_code coupon user dto db))
unfolding create_promotion_code
create_promotion_code-Counted coupon user dto db inv =
    Counted-same db _ (ground arith) (ground arith) (ground arith) inv

deactivate_promotion_code-Counted :
    (coupon promotion user : ℕ) (db : CouponDb)
    → Counted db
    → Counted (state_of (deactivate_promotion_code coupon promotion user db))
unfolding deactivate_promotion_code
deactivate_promotion_code-Counted coupon promotion user db inv =
    Counted-same db _ (ground arith) (ground arith) (ground arith) inv

-- The requests to the two services.
pub data CouponRequest : Type 0 where
  creates_coupon : ℕ → ℕ → CreateCouponDto → CouponRequest
  updates_coupon : ℕ → ℕ → ℕ → UpdateCouponDto → CouponRequest
  archives_coupon deactivates_promotion : ℕ → ℕ → ℕ → CouponRequest
  creates_promotion : ℕ → ℕ → CreatePromotionCodeDto → CouponRequest

unfoldable pub serve_coupon : CouponRequest → CouponDb → CouponDb
serve_coupon (creates_coupon organization user dto) db =
    state_of (create_coupon organization user dto db)
serve_coupon (updates_coupon id organization user dto) db =
    state_of (update_coupon id organization user dto db)
serve_coupon (archives_coupon id organization user) db =
    state_of (archive_coupon id organization user db)
serve_coupon (creates_promotion coupon user dto) db =
    state_of (create_promotion_code coupon user dto db)
serve_coupon (deactivates_promotion coupon promotion user) db =
    state_of (deactivate_promotion_code coupon promotion user db)

pub serve_coupon-Counted :
    (q : CouponRequest) (db : CouponDb) → Counted db → Counted (serve_coupon q db)
unfolding serve_coupon
serve_coupon-Counted (creates_coupon organization user dto) db inv =
    create_coupon-Counted organization user dto db inv
serve_coupon-Counted (updates_coupon id organization user dto) db inv =
    (update_coupon-Keeps id organization user dto).holds db inv
serve_coupon-Counted (archives_coupon id organization user) db inv =
    (archive_coupon-Keeps id organization user).holds db inv
serve_coupon-Counted (creates_promotion coupon user dto) db inv =
    create_promotion_code-Counted coupon user dto db inv
serve_coupon-Counted (deactivates_promotion coupon promotion user) db inv =
    deactivate_promotion_code-Counted coupon promotion user db inv
