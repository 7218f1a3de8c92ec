-- ===== src/Pagination.antt =====
-- Pages of a list by cursors: apps/api/src/common/utils/cursor-pagination.util.ts, and the way the
-- services' list methods use it (`list` of apps/api/src/subscriptions/subscriptions.service.ts).
pub mod Cursors
pub mod Order
pub mod Walk
mod Tests
use paywall.Prelude.{
  ℕ, zero, suc, min, max, Bool, true, false, not, ◌&&◌, ◌||◌, Option, none, some, List, [], ◌∷◌,
  ◌++◌, ◌==◌, ltb, if◌then◌else◌, length, select, Text,
}
use paywall.Prelude.Int.{ℤ, pos, negsuc}
use paywall.Dates.{Date}

-- The columns that a cursor is made of.
pub record Item : Type 0 where
  pub id : Text
  pub created_at : Date

-- What the code calls outside of the repository: Buffer's base64url, toISOString and Date.parse,
-- and the database's order of texts.
pub record Runtime : Type 0 where
  pub to_base64url : Text → Text
  pub of_base64url : Text → Text
  pub to_iso_string : Date → Text
  pub parse_date : Text → Option Date
  pub text_lt : Text → Text → Bool

-- The character |.
abbrev pub bar : ℕ
bar = 124

-- `${item.createdAt.toISOString()}|${item.id}`, in base64url
unfoldable pub encode_cursor : Runtime → Item → Text
encode_cursor r item = r.to_base64url (r.to_iso_string item.created_at ++ bar ∷ item.id)

abbrev prepend : ℕ → List Text → List Text
prepend x [] = (x ∷ []) ∷ []
prepend x (w ∷ ws) = (x ∷ w) ∷ ws

-- `split`
unfoldable pub split_on : ℕ → Text → List Text
split_on separator [] = [] ∷ []
split_on separator (x ∷ xs) =
    let rest = split_on separator xs in if x == separator then [] ∷ rest else prepend x rest

-- The test for an empty text, and of a valid date, on the first two pieces. `none` is the throw.
abbrev pub read_pieces : Runtime → List Text → Option Item
read_pieces r ((d ∷ ds) ∷ (i ∷ is) ∷ ws) = elim (r.parse_date (d ∷ ds)) [
  | none ↦ none
  | some created_at ↦ some (record { id = i ∷ is; created_at = created_at })
]
read_pieces r _ = none

unfoldable pub decode_cursor : Runtime → Text → Option Item
unfolding split_on
decode_cursor r cursor = read_pieces r (split_on bar (r.of_base64url cursor))

abbrev pub default_page_size : ℕ
default_page_size = 20

abbrev pub max_page_size : ℕ
max_page_size = 100

unfoldable pub normalize_page_size : Option ℤ → ℕ
normalize_page_size none = default_page_size
normalize_page_size (some (pos zero)) = default_page_size
normalize_page_size (some (pos (suc n))) = min (max 1 (suc n)) max_page_size
normalize_page_size (some (negsuc n)) = min 1 max_page_size

-- "Everything strictly before this cursor", as the database tests it.
abbrev pub is_before : Runtime → Item → Item → Bool
is_before r cursor item =
    ltb item.created_at cursor.created_at
    || (item.created_at == cursor.created_at && r.text_lt item.id cursor.id)

-- The condition on the rows; no cursor, or an empty one, gives none. `none` is the throw.
unfoldable pub build_cursor_where_clause : Runtime → Option Text → Option (Item → Bool)
unfolding decode_cursor
build_cursor_where_clause r none = some (λ item. true)
build_cursor_where_clause r (some []) = some (λ item. true)
build_cursor_where_clause r (some (c ∷ cs)) = elim (decode_cursor r (c ∷ cs)) [
  | none ↦ none
  | some cursor ↦ some (is_before r cursor)
]

module _ {A : Type 0} where
  -- `slice(0, n)`, and `take: n` of a query
  unfoldable pub slice : ℕ → List A → List A
  slice zero xs = []
  slice (suc n) [] = []
  slice (suc n) (x ∷ xs) = x ∷ slice n xs

  -- `at(-1)`
  unfoldable pub last : List A → Option A
  last [] = none
  last (x ∷ []) = some x
  last (x ∷ y ∷ ys) = last (y ∷ ys)

pub record Page (A : Type 0) : Type 0 where
  pub items : List A
  pub next_cursor : Option Text

-- The rows `A` have the columns of an item, and more.
module _ {A : Type 0} (r : Runtime) (item : A → Item) where
  -- `orderBy: CURSOR_ORDER_BY`, newest first
  unfoldable pub insert_row : A → List A → List A
  insert_row x [] = x ∷ []
  insert_row x (y ∷ ys) =
      let rest = insert_row x ys in if is_before r (item x) (item y) then x ∷ y ∷ ys else y ∷ rest

  unfoldable pub order_by : List A → List A
  unfolding insert_row
  order_by [] = []
  order_by (x ∷ xs) = insert_row x (order_by xs)

  -- `hasMore && last ? encodeCursor(last) : null`
  abbrev pub next_cursor_of : Bool → Option A → Option Text
  unfolding encode_cursor
  next_cursor_of true (some row) = some (encode_cursor r (item row))
  next_cursor_of _ _ = none

  unfoldable pub paginate_results : List A → ℕ → Page A
  unfolding slice last encode_cursor
  paginate_results rows limit =
      let has_more = ltb limit (length rows) in
      let items = if has_more then slice limit rows else rows in
      record { items = items; next_cursor = next_cursor_of has_more (last items) }

  -- A list method, on the rows that its own condition leaves. `none` is the throw of a bad cursor.
  unfoldable pub list_page : List A → Option ℤ → Option Text → Option (Page A)
  unfolding normalize_page_size build_cursor_where_clause paginate_results order_by select slice
  list_page rows limit cursor =
      let size = normalize_page_size limit in
      elim (build_cursor_where_clause r cursor) [
        | none ↦ none
        | some clause ↦ some (
            paginate_results (slice (suc size) (select (λ row. clause (item row)) (order_by rows)))
              size)
      ]

  -- A client that follows the cursors, on `n` pages at most.
  unfoldable pub walk : ℕ → List A → Option ℤ → Option Text → Option (List A)
  unfolding list_page
  walk zero rows limit cursor = none
  walk (suc n) rows limit cursor = elim (list_page rows limit cursor) [
    | none ↦ none
    | some page ↦ elim page.next_cursor [
      | none ↦ some page.items
      | some next ↦ elim (walk n rows limit (some next)) [
        | none ↦ none
        | some rest ↦ some (page.items ++ rest)
      ]
    ]
  ]
