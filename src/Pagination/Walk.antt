-- ===== src/Pagination/Walk.antt =====
-- A client that follows the cursors from the first page on.
use paywall.Prelude.{
  Text, select, ℕ, zero, suc, ◌≤◌, ◌<◌, ◌≡◌, refl, sym, ◌∙◌, ap, inl, inr, Bool, true, false,
  Option, none, some, List, [], ◌∷◌, ◌++◌, ltb, arith, lt_or_le, length, count_all, Every, and,
  Every-append_right,
}
use mathlib.Core.Path.{subst}
use mathlib.Core.List.{append_assoc}
use paywall.Prelude.Int.{ℤ}
use paywall.Pagination.{
  Item, Runtime, encode_cursor, normalize_page_size, build_cursor_where_clause, is_before, slice,
  last, Page, order_by, next_cursor_of, paginate_results, list_page, walk,
}
use paywall.Pagination.Cursors.{
  IsRuntime, IsId, build_cursor-encode_cursor, normalize_page_size_bounds,
}
use paywall.Pagination.Order.{
  Newest, IsTable, order_by-Newest, order_by-ids, select-append, length-order_by,
  count_all-order_by,
}

module _ {A : Type 0} where
  slice_short : (n : ℕ) (xs : List A) → length xs ≤ n → slice n xs ≡ xs
  unfolding slice
  slice_short zero [] h = refl
  slice_short zero (x ∷ xs) h = absurd (omega arith)
  slice_short (suc n) [] h = refl
  slice_short (suc n) (x ∷ xs) h = ap (λ ys. x ∷ ys) (slice_short n xs (omega arith))

  -- A list of more than `n + 1` elements: its first `n + 1`, the last of these, and the others.
  record Cut (n : ℕ) (xs : List A) : Type 0 where
    before : List A
    at : A
    rest : List A
    whole : xs ≡ before ++ at ∷ rest
    taken : slice (suc n) xs ≡ before ++ at ∷ []
    taken_more : slice (suc n) (slice (suc (suc n)) xs) ≡ before ++ at ∷ []
    fewer : length rest < length xs
    more : suc (suc n) ≤ length (slice (suc (suc n)) xs)

  append_one : (xs : List A) (a : A) (ys : List A) → (xs ++ a ∷ []) ++ ys ≡ xs ++ a ∷ ys
  append_one [] a ys = refl
  append_one (x ∷ xs) a ys = ap (λ zs. x ∷ zs) (append_one xs a ys)

  last-append : (xs : List A) (a : A) → last (xs ++ a ∷ []) ≡ some a
  unfolding last
  last-append [] a = refl
  last-append (x ∷ []) a = refl
  last-append (x ∷ y ∷ ys) a = last-append (y ∷ ys) a

  cut : (n : ℕ) (xs : List A) → suc n < length xs → Cut n xs
  unfolding slice
  cut zero [] h = absurd (omega arith)
  cut (suc n) [] h = absurd (omega arith)
  cut zero (x ∷ []) h = absurd (omega arith)
  cut zero (x ∷ y ∷ ys) h = record {
    before = [];
    at = x;
    rest = y ∷ ys;
    whole = refl;
    taken = refl;
    taken_more = refl;
    fewer = omega arith;
    more = omega arith;
  }
  cut (suc n) (x ∷ xs) h =
      let c = cut n xs (omega arith) in
      record {
        before = x ∷ c.before;
        at = c.at;
        rest = c.rest;
        whole = ap (λ ys. x ∷ ys) c.whole;
        taken = ap (λ ys. x ∷ ys) c.taken;
        taken_more = ap (λ ys. x ∷ ys) c.taken_more;
        fewer = omega (arith, c.fewer);
        more = omega (arith, c.more);
      }

module _ {A : Type 0} (r : Runtime) (item : A → Item) where
  abbrev page_of : List A → Option Text → Page A
  page_of items next_cursor = record { items = items; next_cursor = next_cursor }

  -- The last page.
  paginate_short :
      (xs : List A) (n : ℕ)
      → length xs ≤ n
      → paginate_results r item (slice (suc n) xs) n ≡ page_of xs none
  unfolding paginate_results
  paginate_short xs n h = rw (slice_short (suc n) xs (omega arith), short, next_cursor_of) refl
    where
      short : ltb n (length xs) ≡ false
      short = ground arith

  -- A page before others.
  paginate_long :
      (xs : List A) (n : ℕ) (c : Cut n xs)
      → paginate_results r item (slice (suc (suc n)) xs) (suc n)
        ≡ page_of (c.before ++ c.at ∷ []) (some (encode_cursor r (item c.at)))
  unfolding paginate_results
  paginate_long xs n c = rw (more, c.taken_more, last-append c.before c.at, next_cursor_of) refl
    where
      more : ltb (suc n) (length (slice (suc (suc n)) xs)) ≡ true
      more = ground (arith, c.more)

  list_page_eq :
      (rows : List A) (limit : Option ℤ) (cursor : Option Text) (clause : Item → Bool)
      (rest : List A)
      → build_cursor_where_clause r cursor ≡ some clause
      → select (λ row. clause (item row)) (order_by r item rows) ≡ rest
      → list_page r item rows limit cursor
        ≡ some (
            paginate_results r item
              (slice (suc (normalize_page_size limit)) rest)
              (normalize_page_size limit))
  unfolding list_page
  list_page_eq rows limit cursor clause rest read left = rw (read, left, list_page) refl

  -- The rows in order, cut at the end of a page.
  order_by_split :
      (rows : List A) (m : ℕ) (seen rest : List A) (c : Cut m rest)
      → order_by r item rows ≡ seen ++ rest
      → order_by r item rows ≡ (seen ++ c.before) ++ c.at ∷ c.rest
  order_by_split rows m seen rest c split =
      split ∙ ap (λ ys. seen ++ ys) c.whole ∙ sym (append_assoc seen c.before (c.at ∷ c.rest))

  -- The cursor of a page is read back, and leaves the rows after the page.
  cursor_resumes :
      (rows : List A) (xs : List A) (a : A) (ys : List A)
      → IsRuntime r
      → IsTable r item rows
      → order_by r item rows ≡ xs ++ a ∷ ys
      → (build_cursor_where_clause r (some (encode_cursor r (item a)))
          ≡ some (is_before r (item a)))
        × (select (λ row. is_before r (item a) (item row)) (order_by r item rows) ≡ ys)
  cursor_resumes rows xs a ys laws table place = (
    build_cursor-encode_cursor r (item a) laws (at (Every-append_right xs ids)),
    ap (select (λ row. is_before r (item a) (item row))) place
        ∙ select-append r item xs a ys laws
            (subst (Newest r item) place (order_by-Newest r item rows laws table)),
  )
    where
      ids : Every (λ y. IsId (item y).id) (xs ++ a ∷ ys)
      ids = subst (Every (λ y. IsId (item y).id)) place (order_by-ids r item rows table)

      at : {x : A} {zs : List A} → Every (λ y. IsId (item y).id) (x ∷ zs) → IsId (item x).id
      at (and i is) = i

  -- The walk from a cursor that leaves `rest`.
  walk_from :
      (n m : ℕ) (rows : List A) (limit : Option ℤ) (cursor : Option Text) (clause : Item → Bool)
      (seen rest : List A)
      → IsRuntime r
      → IsTable r item rows
      → normalize_page_size limit ≡ suc m
      → build_cursor_where_clause r cursor ≡ some clause
      → select (λ row. clause (item row)) (order_by r item rows) ≡ rest
      → order_by r item rows ≡ seen ++ rest
      → length rest < n
      → walk r item n rows limit cursor ≡ some rest
  unfolding walk
  walk_from zero m rows limit cursor clause seen rest laws table size read left split short =
      absurd (omega arith)
  walk_from (suc n) m rows limit cursor clause seen rest laws table size read left split short =
      elim (lt_or_le (suc m) (length rest)) [
        | inl longer ↦
            let c = cut m rest longer in
            let place = order_by_split rows m seen rest c split in
            let (read', left') =
              cursor_resumes rows (seen ++ c.before) c.at c.rest laws table place in
            rw
              (
                page (paginate_long rest m c),
                walk,
                walk_from n m rows limit (some (encode_cursor r (item c.at)))
                    (is_before r (item c.at)) ((seen ++ c.before) ++ c.at ∷ []) c.rest laws table
                    size read' left' (place ∙ sym (append_one (seen ++ c.before) c.at c.rest))
                    (omega (arith, c.fewer)),
              )
              (ap some (append_one c.before c.at c.rest ∙ sym c.whole))
        | inr fits ↦ rw (page (paginate_short rest (suc m) fits), walk) refl
      ]
    where
      page :
          {p : Page A}
          → paginate_results r item (slice (suc (suc m)) rest) (suc m) ≡ p
          → list_page r item rows limit cursor ≡ some p
      page e =
          list_page_eq rows limit cursor clause rest read left
          ∙ ap (λ k. some (paginate_results r item (slice (suc k) rest) k)) size
          ∙ ap some e

  walk-order_by :
      (rows : List A) (limit : Option ℤ)
      → IsRuntime r
      → IsTable r item rows
      → walk r item (suc (length rows)) rows limit none ≡ some (order_by r item rows)
  unfolding build_cursor_where_clause select
  walk-order_by rows limit laws table =
      let (m, size) = positive (normalize_page_size limit) (normalize_page_size_bounds limit).0 in
      walk_from (suc (length rows)) m rows limit none (λ x. true) [] (order_by r item rows) laws
        table size start (everything (order_by r item rows)) refl
        (omega (arith, length-order_by r item rows))
    where
      positive : (k : ℕ) → 1 ≤ k → (m : ℕ) × (k ≡ suc m)
      positive zero h = absurd (omega arith)
      positive (suc m) h = (m, refl)

      start : build_cursor_where_clause r none ≡ some (λ x. true)
      start = refl

      everything : (xs : List A) → select (λ row. true) xs ≡ xs
      everything [] = refl
      everything (x ∷ xs) = ap (λ ys. x ∷ ys) (everything xs)

  -- A client that starts without a cursor and follows the cursors, for any page size, gets after at
  -- most one page more than there are rows a list that is ordered strictly newest first and holds
  -- each row of the table as often as the table, provided the ids are distinct, not empty and
  -- without a bar, and the runtime reads back what it encodes and orders texts strictly and totally.
  pub walk_complete :
      (rows : List A) (limit : Option ℤ)
      → IsRuntime r
      → IsTable r item rows
      → (xs : List A) × (walk r item (suc (length rows)) rows limit none ≡ some xs)
        × Newest r item xs
        × ((p : A → Bool) → count_all p xs ≡ count_all p rows)
  walk_complete rows limit laws table = (
    order_by r item rows,
    walk-order_by rows limit laws table,
    order_by-Newest r item rows laws table,
    λ p. count_all-order_by r item p rows,
  )
