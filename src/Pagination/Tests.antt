-- ===== src/Pagination/Tests.antt =====
-- The theorems on cursors and pages at an example.
use paywall.Prelude.{
  Text, ℕ, ◌+◌, ◌-◌, ◌≡◌, ◌≢◌, refl, Bool, true, false, Option, none, some, List, [], ◌∷◌, ◌==◌,
  ◌<◌, ◌||◌, ◌&&◌, ltb, arith, nothing, and, count_all,
}
use paywall.Prelude.Int.{pos}
use paywall.Dates.{Date}
use paywall.Pagination.{Item, Runtime, encode_cursor, decode_cursor, walk}
use paywall.Pagination.Cursors.{IsRuntime, IsId, decode_cursor-encode_cursor}
use paywall.Pagination.Order.{Newest, IsTable, no_rows, row}
use paywall.Pagination.Walk.{walk_complete}

-- Texts as they are, dates as one character above the bar, and the lexicographic order.
abbrev read_date : Text → Option Date
read_date (c ∷ []) = some (c - 125)
read_date _ = none

abbrev lex : Text → Text → Bool
lex [] [] = false
lex [] (y ∷ ys) = true
lex (x ∷ xs) [] = false
lex (x ∷ xs) (y ∷ ys) = ltb x y || ((x == y) && lex xs ys)

lex_irrefl : (s : Text) → lex s s ≡ false
lex_irrefl [] = refl
lex_irrefl (x ∷ xs) = ground (arith, lex_irrefl xs)

lex_trans : (s t u : Text) → lex s t ≡ true → lex t u ≡ true → lex s u ≡ true
lex_trans [] [] u h h' = cc
lex_trans [] (y ∷ ys) [] h h' = cc
lex_trans [] (y ∷ ys) (z ∷ zs) h h' = refl
lex_trans (x ∷ xs) [] u h h' = cc
lex_trans (x ∷ xs) (y ∷ ys) [] h h' = cc
lex_trans (x ∷ xs) (y ∷ ys) (z ∷ zs) h h' = ground (arith, lex_trans xs ys zs)

lex_total : (s t : Text) → s ≢ t → lex s t ≡ false → lex t s ≡ true
lex_total [] [] ne h = absurd (ne refl)
lex_total [] (y ∷ ys) ne h = cc
lex_total (x ∷ xs) [] ne h = refl
lex_total (x ∷ xs) (y ∷ ys) ne h = ground (arith, lex_total xs ys)

abbrev plain_runtime : Runtime
plain_runtime = record {
  to_base64url = λ t. t;
  of_base64url = λ t. t;
  to_iso_string = λ d. (d + 125) ∷ [];
  parse_date = read_date;
  text_lt = lex;
}

plain_runtime-IsRuntime : IsRuntime plain_runtime
plain_runtime-IsRuntime = record {
  base64url_back = λ t. refl;
  base64url_empty = refl;
  date_back = λ d. ground arith;
  date_full = λ d h. cc;
  date_plain = λ d. ground arith;
  lt_irrefl = lex_irrefl;
  lt_trans = lex_trans;
  lt_total = lex_total;
}

abbrev item_at : ℕ → Date → Item
item_at c d = record { id = c ∷ []; created_at = d }

item_at-IsId : (c : ℕ) → c < 124 → IsId (c ∷ [])
item_at-IsId c h = record { full = λ e. cc; plain = ground arith }

decode_cursor-encode_cursor_example :
    decode_cursor plain_runtime (encode_cursor plain_runtime (item_at 7 9)) ≡ some (item_at 7 9)
decode_cursor-encode_cursor_example =
    decode_cursor-encode_cursor plain_runtime (item_at 7 9) plain_runtime-IsRuntime
      (item_at-IsId 7 (omega arith))

-- Three rows, two of them of the same moment.
abbrev three : List Item
three = item_at 3 5 ∷ item_at 1 9 ∷ item_at 2 5 ∷ []

three-IsTable : IsTable plain_runtime (λ i. i) three
three-IsTable =
    row (item_at-IsId 3 (omega arith)) (and (λ e. ground arith) (and (λ e. ground arith) nothing)) (
      row (item_at-IsId 1 (omega arith)) (and (λ e. ground arith) nothing)
        (row (item_at-IsId 2 (omega arith)) nothing no_rows))

walk_complete_example :
    (xs : List Item) × (walk plain_runtime (λ i. i) 4 three (some (pos 1)) none ≡ some xs)
    × Newest plain_runtime (λ i. i) xs
    × ((p : Item → Bool) → count_all p xs ≡ count_all p three)
walk_complete_example =
    walk_complete plain_runtime (λ i. i) three (some (pos 1)) plain_runtime-IsRuntime three-IsTable
