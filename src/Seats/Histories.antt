-- ===== src/Seats/Histories.antt =====
-- Sequences of requests to SeatsService.
use paywall.Prelude.{
  ℕ, suc, zero, ◌+◌, ◌≤◌, ◌<◌, ◌≡◌, refl, inl, inr, List, [], ◌∷◌, ◌++◌, arith, lt_or_le, count_all,
  count_all-append, count_all-implies, state_of, read, guard, bad_request, Within, Within-guard,
}
use paywall.Dates.{Date}
use paywall.Seats.{
  Seat, SeatDb, is_seat_at, is_open_at, new_seats, add_seats, bulk_create, fill_seats, fits_limit,
  is_seat_of, seats_created, assign, get_owned_seat_license, remove_assignment, transfer,
}
use paywall.Seats.Occupancy.{Occupied, current_on, open_at, rows_at}
use paywall.Seats.Requests.{
  Keeps, bind, audit-Occupied, license-Keeps, assign-Occupied, remove_assignment-Keeps,
  transfer-Keeps,
}

-- New seats lie at the ids from the next one on.
new_seats-before :
    (license first n key : ℕ)
    → key < first
    → count_all (is_seat_at key) (new_seats license first n) ≡ 0
unfolding count_all new_seats
new_seats-before license first zero key h = refl
new_seats-before license first (suc n) key h =
    ground (arith, new_seats-before license (suc first) n key (omega arith))

new_seats-after :
    (license first n key : ℕ)
    → first + n ≤ key
    → count_all (is_seat_at key) (new_seats license first n) ≡ 0
unfolding count_all new_seats
new_seats-after license first zero key h = refl
new_seats-after license first (suc n) key h =
    ground (arith, new_seats-after license (suc first) n key (omega arith))

add_seats-Occupied : (license n : ℕ) (db : SeatDb) → Occupied db → Occupied (add_seats license n db)
unfolding open_at rows_at current_on
add_seats-Occupied license n db inv = record {
  at_most_one = inv.at_most_one;
  open_empty = opened;
  fresh_empty = λ k h. inv.fresh_empty k (omega arith);
  fresh_rows = λ k h.
      rw
        (
          count_all-append (is_seat_at k) db.seats (new_seats license db.next_id n),
          inv.fresh_rows k (omega arith),
        )
        (omega (arith, new_seats-after license db.next_id n k h));
}
  where
    new : List Seat
    new = new_seats license db.next_id n

    opened : (k : ℕ) → 0 < count_all (is_open_at k) (db.seats ++ new) → current_on k db ≡ 0
    opened k h = elim (lt_or_le k db.next_id) [
      | inr later ↦ inv.fresh_empty k later
      | inl given ↦ inv.open_empty k (
          omega (
            arith,
            h,
            count_all-append (is_open_at k) db.seats new,
            count_all-implies (is_open_at k) (is_seat_at k) new (λ s e. ground arith),
            new_seats-before license db.next_id n k given,
          ))
    ]

bulk_create-Keeps :
    (license organization user n : ℕ) → Within Keeps (bulk_create license organization user n)
unfolding bulk_create
bulk_create-Keeps license organization user n =
    bind (get_owned_seat_license license organization) _ (license-Keeps license organization) λ l.
      bind (read (λ db. count_all (is_seat_of license) db.seats)) _
        (record { holds = λ db inv. inv })
        λ existing.
          bind (guard (fits_limit l.seat_limit (existing + n)) bad_request)
            (λ _. fill_seats license user n)
            (Within-guard Keeps (λ db h. h) (λ a b c f g h. g (f h))
              (fits_limit l.seat_limit (existing + n)) bad_request)
            λ _. record {
              holds = λ db inv.
                  audit-Occupied (seats_created n) user license (add_seats license n db)
                    (add_seats-Occupied license n db inv);
            }

-- The requests that write, with the acting user.
pub data SeatRequest : Type 0 where
  creates_seats : ℕ → ℕ → ℕ → ℕ → SeatRequest
  assigns_seat removes_seat : ℕ → ℕ → ℕ → ℕ → SeatRequest
  transfers_seat : ℕ → ℕ → ℕ → ℕ → ℕ → SeatRequest

unfoldable pub serve : (ℕ → SeatDb → SeatDb) → Date × SeatRequest → SeatDb → SeatDb
serve others (now, creates_seats license organization acting n) db =
    state_of (bulk_create license organization acting n db)
serve others (now, assigns_seat license organization acting user) db =
    state_of (assign others license organization acting user db)
serve others (now, removes_seat license organization key acting) db =
    state_of (remove_assignment now license organization key acting db)
serve others (now, transfers_seat license organization key acting user) db =
    state_of (transfer now license organization key acting user db)

unfoldable pub serve_all : (ℕ → SeatDb → SeatDb) → List (Date × SeatRequest) → SeatDb → SeatDb
unfolding serve
serve_all others [] db = db
serve_all others (r ∷ rs) db = serve_all others rs (serve others r db)

serve-Occupied :
    (others : ℕ → SeatDb → SeatDb) (r : Date × SeatRequest) (db : SeatDb)
    → ((k : ℕ) (db : SeatDb) → Occupied db → Occupied (others k db))
    → Occupied db
    → Occupied (serve others r db)
unfolding serve
serve-Occupied others (now, creates_seats l o u n) db quiet inv =
    (bulk_create-Keeps l o u n).holds db inv
serve-Occupied others (now, assigns_seat l o u v) db quiet inv =
    assign-Occupied others l o u v db quiet inv
serve-Occupied others (now, removes_seat l o k u) db quiet inv =
    (remove_assignment-Keeps now l o k u).holds db inv
serve-Occupied others (now, transfers_seat l o k u v) db quiet inv =
    (transfer-Keeps now l o k u v).holds db inv

-- Through any sequence of requests to the seats service, whichever of them throw, and whatever other
-- requests that keep the invariant write between the search for a seat and its claim: no seat has
-- two ACTIVE assignments, none has one while it is AVAILABLE, and no id still to be given is in use,
-- if this held before.
pub serve_all-Occupied :
    (others : ℕ → SeatDb → SeatDb) (rs : List (Date × SeatRequest)) (db : SeatDb)
    → ((k : ℕ) (db : SeatDb) → Occupied db → Occupied (others k db))
    → Occupied db
    → Occupied (serve_all others rs db)
unfolding serve_all
serve_all-Occupied others [] db quiet inv = inv
serve_all-Occupied others (r ∷ rs) db quiet inv =
    serve_all-Occupied others rs (serve others r db) quiet (serve-Occupied others r db quiet inv)
