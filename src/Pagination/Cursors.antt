-- ===== src/Pagination/Cursors.antt =====
-- Cursors as texts: encoding and decoding.
use paywall.Prelude.{
  Text, ℕ, zero, suc, ◌≤◌, ◌≡◌, ◌≢◌, refl, sym, ◌∙◌, ap, Bool, true, false, ◌||◌, Option, none,
  some, [], ◌∷◌, ◌++◌, ◌==◌, arith,
}
use paywall.Prelude.Int.{ℤ, pos, negsuc}
use paywall.Dates.{Date}
use paywall.Pagination.{
  Item, Runtime, bar, encode_cursor, split_on, read_pieces, decode_cursor, normalize_page_size,
  build_cursor_where_clause, is_before, max_page_size,
}

abbrev pub contains : ℕ → Text → Bool
contains c [] = false
contains c (x ∷ xs) = (x == c) || contains c xs

-- What the code relies on: base64url and ISO dates are read back, an ISO date is not empty and
-- holds no bar, and texts are ordered strictly and totally.
pub record IsRuntime (r : Runtime) : Type 0 where
  pub base64url_back : (t : Text) → r.of_base64url (r.to_base64url t) ≡ t
  pub base64url_empty : r.of_base64url [] ≡ []
  pub date_back : (d : Date) → r.parse_date (r.to_iso_string d) ≡ some d
  pub date_full : (d : Date) → r.to_iso_string d ≢ []
  pub date_plain : (d : Date) → contains bar (r.to_iso_string d) ≡ false
  pub lt_irrefl : (s : Text) → r.text_lt s s ≡ false
  pub lt_trans : (s t u : Text) → r.text_lt s t ≡ true → r.text_lt t u ≡ true → r.text_lt s u ≡ true
  pub lt_total : (s t : Text) → s ≢ t → r.text_lt s t ≡ false → r.text_lt t s ≡ true

-- An id is a text that is not empty and holds no bar, as a uuid.
pub record IsId (t : Text) : Type 0 where
  pub full : t ≢ []
  pub plain : contains bar t ≡ false

split_on-append :
    (c : ℕ) (xs ys : Text) → contains c xs ≡ false → split_on c (xs ++ c ∷ ys) ≡ xs ∷ split_on c ys
unfolding split_on
split_on-append c [] ys h = ground arith
split_on-append c (x ∷ xs) ys h = ground (arith, split_on-append c xs ys)

split_on_plain : (c : ℕ) (xs : Text) → contains c xs ≡ false → split_on c xs ≡ xs ∷ []
unfolding split_on
split_on_plain c [] h = refl
split_on_plain c (x ∷ xs) h = ground (arith, split_on_plain c xs)

split_on-cursor :
    (d i : Text)
    → contains bar d ≡ false
    → contains bar i ≡ false
    → split_on bar (d ++ bar ∷ i) ≡ d ∷ i ∷ []
split_on-cursor d i hd hi = split_on-append bar d i hd ∙ ap (λ ws. d ∷ ws) (split_on_plain bar i hi)

read_pieces_two :
    (r : Runtime) (d i : Text) (created_at : Date)
    → d ≢ []
    → i ≢ []
    → r.parse_date d ≡ some created_at
    → read_pieces r (d ∷ i ∷ []) ≡ some (record { id = i; created_at = created_at })
read_pieces_two r [] i created_at hd hi h = absurd (hd refl)
read_pieces_two r (d ∷ ds) [] created_at hd hi h = absurd (hi refl)
read_pieces_two r (d ∷ ds) (i ∷ is) created_at hd hi h = rw (h, read_pieces) refl

-- The cursor of a row, whose id is not empty and has no bar, is decoded to the row's id and time of
-- creation, if the runtime reads back what it encodes.
pub decode_cursor-encode_cursor :
    (r : Runtime) (item : Item)
    → IsRuntime r
    → IsId item.id
    → decode_cursor r (encode_cursor r item) ≡ some item
unfolding decode_cursor encode_cursor
decode_cursor-encode_cursor r item laws id =
    ap (λ t. read_pieces r (split_on bar t)) (laws.base64url_back _)
    ∙ ap (read_pieces r) (
        split_on-cursor (r.to_iso_string item.created_at) item.id (laws.date_plain item.created_at)
          id.plain)
    ∙ read_pieces_two r (r.to_iso_string item.created_at) item.id item.created_at
        (laws.date_full item.created_at) id.full (laws.date_back item.created_at)

-- It is not empty, so the next request does not take it for no cursor.
encode_cursor_full :
    (r : Runtime) (item : Item) → IsRuntime r → IsId item.id → encode_cursor r item ≢ []
unfolding encode_cursor
encode_cursor_full r item laws id h = absurd (
    go (r.to_iso_string item.created_at)
      (sym (laws.base64url_back _) ∙ ap r.of_base64url h ∙ laws.base64url_empty))
  where
    go : (t : Text) → t ++ bar ∷ item.id ≢ []
    go [] e = cc
    go (x ∷ xs) e = cc

pub build_cursor-encode_cursor :
    (r : Runtime) (item : Item)
    → IsRuntime r
    → IsId item.id
    → build_cursor_where_clause r (some (encode_cursor r item)) ≡ some (is_before r item)
unfolding build_cursor_where_clause
build_cursor-encode_cursor r item laws id =
    go (encode_cursor r item) (encode_cursor_full r item laws id)
      (decode_cursor-encode_cursor r item laws id)
  where
    go :
        (t : Text)
        → t ≢ []
        → decode_cursor r t ≡ some item
        → build_cursor_where_clause r (some t) ≡ some (is_before r item)
    go [] full h = absurd (full refl)
    go (c ∷ cs) full h = rw (h, build_cursor_where_clause) refl

pub normalize_page_size_bounds :
    (limit : Option ℤ)
    → (1 ≤ normalize_page_size limit) × (normalize_page_size limit ≤ max_page_size)
unfolding normalize_page_size
normalize_page_size_bounds none = (omega arith, omega arith)
normalize_page_size_bounds (some (pos zero)) = (omega arith, omega arith)
normalize_page_size_bounds (some (pos (suc n))) = (omega arith, omega arith)
normalize_page_size_bounds (some (negsuc n)) = (omega arith, omega arith)
