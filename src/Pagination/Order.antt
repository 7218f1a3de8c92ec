-- ===== src/Pagination/Order.antt =====
-- The order of a list: newest first, with the id to tell rows of one moment apart.
use paywall.Prelude.{
  select, suc, ◌+◌, Bool, length, ◌≡◌, ◌≢◌, refl, ◌∙◌, ap, inl, inr, true, false, List, [], ◌∷◌,
  ◌++◌, arith, if◌then◌else◌, Bool-cases, Every, nothing, and, Every-map, count_all,
}
use paywall.Pagination.{Item, Runtime, is_before, insert_row, order_by}
use paywall.Pagination.Cursors.{IsRuntime, IsId}

is_before_irrefl : (r : Runtime) (a : Item) → IsRuntime r → is_before r a a ≡ false
is_before_irrefl r a laws = ground (arith, laws.lt_irrefl a.id)

is_before_trans :
    (r : Runtime) (a b c : Item)
    → IsRuntime r
    → is_before r a b ≡ true
    → is_before r b c ≡ true
    → is_before r a c ≡ true
is_before_trans r a b c laws h h' = ground (arith, laws.lt_trans c.id b.id a.id)

is_before_total :
    (r : Runtime) (a b : Item)
    → IsRuntime r
    → a.id ≢ b.id
    → is_before r a b ≡ false
    → is_before r b a ≡ true
is_before_total r a b laws ne h = ground (arith, laws.lt_total b.id a.id)

module _ {A : Type 0} (r : Runtime) (item : A → Item) where
  -- Newest first, strictly.
  pub data Newest : List A → Type 0 where
    empty : Newest []
    first :
        {x : A} {xs : List A}
        → Every (λ y. is_before r (item x) (item y) ≡ true) xs
        → Newest xs
        → Newest (x ∷ xs)

  insert_row-Every :
      {P : A → Type 0} (x : A) (xs : List A) → P x → Every P xs → Every P (insert_row r item x xs)
  unfolding insert_row
  insert_row-Every x [] p nothing = and p nothing
  insert_row-Every x (y ∷ ys) p (and q qs) = elim (Bool-cases (is_before r (item x) (item y))) [
    | inl e ↦ rw e (and p (and q qs))
    | inr e ↦ rw e (and q (insert_row-Every x ys p qs))
  ]

  pub order_by-Every : {P : A → Type 0} (xs : List A) → Every P xs → Every P (order_by r item xs)
  unfolding order_by
  order_by-Every [] nothing = nothing
  order_by-Every (x ∷ xs) (and p ps) = insert_row-Every x _ p (order_by-Every xs ps)

  insert_row-Newest :
      (x : A) (xs : List A)
      → IsRuntime r
      → Every (λ y. (item x).id ≢ (item y).id) xs
      → Newest xs
      → Newest (insert_row r item x xs)
  unfolding insert_row
  insert_row-Newest x [] laws nothing empty = first nothing empty
  insert_row-Newest x (y ∷ ys) laws (and ne nes) (first below rest) =
      elim (Bool-cases (is_before r (item x) (item y))) [
        | inl e ↦ rw e (
            first
              (and e (Every-map (λ z. is_before_trans r (item x) (item y) (item z) laws e) below))
              (first below rest))
        | inr e ↦ rw e (
            first (insert_row-Every x ys (is_before_total r (item x) (item y) laws ne e) below)
              (insert_row-Newest x ys laws nes rest))
      ]

  -- A table: its ids are ids, and no two rows have the same.
  pub data IsTable : List A → Type 0 where
    no_rows : IsTable []
    row :
        {x : A} {xs : List A}
        → IsId (item x).id
        → Every (λ y. (item x).id ≢ (item y).id) xs
        → IsTable xs
        → IsTable (x ∷ xs)

  pub order_by-Newest : (xs : List A) → IsRuntime r → IsTable xs → Newest (order_by r item xs)
  unfolding order_by
  order_by-Newest [] laws no_rows = empty
  order_by-Newest (x ∷ xs) laws (row id ne t) =
      insert_row-Newest x _ laws (order_by-Every xs ne) (order_by-Newest xs laws t)

  IsTable-ids : (xs : List A) → IsTable xs → Every (λ y. IsId (item y).id) xs
  IsTable-ids [] no_rows = nothing
  IsTable-ids (x ∷ xs) (row id ne t) = and id (IsTable-ids xs t)

  pub order_by-ids : (xs : List A) → IsTable xs → Every (λ y. IsId (item y).id) (order_by r item xs)
  order_by-ids xs t = order_by-Every xs (IsTable-ids xs t)

  select_all :
      (a : A) (ys : List A)
      → Every (λ y. is_before r (item a) (item y) ≡ true) ys
      → select (λ y. is_before r (item a) (item y)) ys ≡ ys
  unfolding select
  select_all a [] nothing = refl
  select_all a (y ∷ ys) (and e es) = rw e (ap (λ zs. y ∷ zs) (select_all a ys es))

  -- A cursor leaves the rows after its own.
  pub select-append :
      (xs : List A) (a : A) (ys : List A)
      → IsRuntime r
      → Newest (xs ++ a ∷ ys)
      → select (λ y. is_before r (item a) (item y)) (xs ++ a ∷ ys) ≡ ys
  unfolding select
  select-append [] a ys laws (first below rest) =
      rw (is_before_irrefl r (item a) laws) (select_all a ys below)
  select-append (x ∷ xs) a ys laws (first below rest) =
      rw (not_before (at xs below)) (select-append xs a ys laws rest)
    where
      at :
          (zs : List A)
          → Every (λ y. is_before r (item x) (item y) ≡ true) (zs ++ a ∷ ys)
          → is_before r (item x) (item a) ≡ true
      at [] (and e es) = e
      at (z ∷ zs) (and e es) = at zs es

      not_before : is_before r (item x) (item a) ≡ true → is_before r (item a) (item x) ≡ false
      not_before e = elim (Bool-cases (is_before r (item a) (item x))) [
        | inl e' ↦ absurd (
            cc (
              is_before_trans r (item x) (item a) (item x) laws e e',
              is_before_irrefl r (item x) laws,
            ))
        | inr e' ↦ e'
      ]

  length-insert_row : (x : A) (xs : List A) → length (insert_row r item x xs) ≡ suc (length xs)
  unfolding insert_row
  length-insert_row x [] = refl
  length-insert_row x (y ∷ ys) = ground (arith, length-insert_row x ys)

  pub length-order_by : (xs : List A) → length (order_by r item xs) ≡ length xs
  unfolding order_by
  length-order_by [] = refl
  length-order_by (x ∷ xs) = length-insert_row x _ ∙ ap suc (length-order_by xs)

  count_all-insert_row :
      (p : A → Bool) (x : A) (xs : List A)
      → count_all p (insert_row r item x xs) ≡ (if p x then 1 else 0) + count_all p xs
  unfolding insert_row count_all
  count_all-insert_row p x [] = refl
  count_all-insert_row p x (y ∷ ys) = ground (arith, count_all-insert_row p x ys)

  pub count_all-order_by :
      (p : A → Bool) (xs : List A) → count_all p (order_by r item xs) ≡ count_all p xs
  unfolding order_by count_all
  count_all-order_by p [] = refl
  count_all-order_by p (x ∷ xs) =
      omega (arith, count_all-insert_row p x (order_by r item xs), count_all-order_by p xs)
