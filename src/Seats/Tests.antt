-- ===== src/Seats/Tests.antt =====
-- The theorems on seats, applied: a license with a limit of two seats and one seat, which another
-- request claims first.
use paywall.Prelude.{
  ◌+◌, ◌≤◌, ◌≡◌, refl, true, some, List, [], ◌∷◌, arith, ok, err, foreign_key_violation, ◌<◌,
  state_of, count_all, find_first,
}
use paywall.Dates.{Date}
use paywall.Seats.{
  License, Seat, SeatDb, SeatAssignment, available, current, is_seat_of, is_open_at, claim,
  new_seats, bulk_create, assign,
}
use paywall.Seats.Occupancy.{Occupied, current_on, open_at, rows_at, claim-Occupied}
use paywall.Seats.Histories.{
  SeatRequest, creates_seats, assigns_seat, removes_seat, transfers_seat, serve_all,
  serve_all-Occupied,
}
use paywall.Seats.Capacity.{bulk_create-limit, assign_alone, assign_unknown}

abbrev license : License
license = record { id = 1; organization_id = 10; is_seat = true; seat_limit = some 2 }

abbrev seat : Seat
seat = record { id = 5; license_id = 1; status = available }

abbrev db : SeatDb
db = record {
  users = 9 ∷ 33 ∷ 34 ∷ [];
  licenses = license ∷ [];
  seats = seat ∷ [];
  assignments = [];
  seat_audit = [];
  next_id = 100;
}

db-Occupied : Occupied db
unfolding current_on open_at rows_at count_all
db-Occupied = record {
  at_most_one = λ key. omega arith;
  open_empty = λ key h. refl;
  fresh_empty = λ key h. refl;
  fresh_rows = λ key h. ground arith;
}

abbrev requests : List (Date × SeatRequest)
requests =
    (7, creates_seats 1 10 9 1)
    ∷ (8, assigns_seat 1 10 9 33)
    ∷ (9, transfers_seat 1 10 101 9 34)
    ∷ (9, removes_seat 1 10 102 9)
    ∷ []

serve_all-Occupied_example : Occupied (serve_all (λ k. claim 5) requests db)
serve_all-Occupied_example =
    serve_all-Occupied (λ k. claim 5) requests db (λ k. claim-Occupied 5) db-Occupied

bulk_create-limit_example :
    (count_all (is_seat_of 1) (state_of (bulk_create 1 10 9 1 db)).seats
      ≡ count_all (is_seat_of 1) db.seats + 1)
    × (count_all (is_seat_of 1) (state_of (bulk_create 1 10 9 1 db)).seats ≤ 2)
unfolding bulk_create find_first count_all
bulk_create-limit_example =
    bulk_create-limit 1 10 9 1 2 license db (new_seats 1 100 1) (state_of (bulk_create 1 10 9 1 db))
      refl refl refl

assign_alone_example :
    (a : SeatAssignment) × (db' : SeatDb) × (assign (λ n d. d) 1 10 9 33 db ≡ ok a db')
    × (db'.assignments ≡ a ∷ [])
    × (a.seat_id ≡ 5)
    × (a.user_id ≡ 33)
    × (a.status ≡ current)
    × (count_all (is_open_at 5) db'.seats ≡ 0)
unfolding find_first
assign_alone_example = assign_alone 1 10 9 33 33 license seat db refl refl refl refl refl

assign_unknown_example :
    (db' : SeatDb) × (assign (λ n d. d) 1 10 9 44 db ≡ err foreign_key_violation db')
    × (db'.assignments ≡ [])
    × (0 < count_all (is_open_at 5) db.seats)
    × (count_all (is_open_at 5) db'.seats ≡ 0)
unfolding find_first
assign_unknown_example = assign_unknown 1 10 9 44 license seat db refl refl refl refl refl
