-- ===== src/Seats/Capacity.antt =====
-- What a request promises: the seat limit of a license, and a seat for who asks alone.
use paywall.Prelude.{
  ℕ, suc, zero, ◌+◌, ◌≤◌, ◌≡◌, refl, ap, ◌∙◌, true, false, none, some, List, ◌++◌, ◌==◌, arith,
  eq_refl, find_first, find_first-true, find_first-count, ◌<◌, count_all, count_all-append, ok, err,
  foreign_key_violation, [], ◌∷◌, state_of, ◌>>=◌,
}
use paywall.Seats.{
  License, Seat, SeatDb, SeatAssignment, current, is_seat_of, is_open_in, is_open_at, new_seats,
  bulk_create, get_owned_seat_license, claim, is_user, new_assignment, create_assignment, occupy,
  assign_loop, assign, record_seat_audit,
}
use paywall.Seats.Occupancy.{open_at, claim-open_at}

new_seats-count :
    (license first n : ℕ) → count_all (is_seat_of license) (new_seats license first n) ≡ n
unfolding count_all new_seats
new_seats-count license first zero = refl
new_seats-count license first (suc n) =
    ground (arith, eq_refl license, new_seats-count license (suc first) n)

-- A bulk creation that succeeds on a license with a seat limit adds exactly the seats asked for and
-- leaves no more seats on the license than the limit.
pub bulk_create-limit :
    (license organization user n limit : ℕ) (l : License) (db : SeatDb) (created : List Seat)
    (db' : SeatDb)
    → find_first (λ x. x.id == license) db.licenses ≡ some l
    → l.seat_limit ≡ some limit
    → bulk_create license organization user n db ≡ ok created db'
    → (count_all (is_seat_of license) db'.seats ≡ count_all (is_seat_of license) db.seats + n)
      × (count_all (is_seat_of license) db'.seats ≤ limit)
unfolding bulk_create get_owned_seat_license
bulk_create-limit license organization user n limit l db created db' found limited h =
    let total : count_all (is_seat_of license) (db.seats ++ new_seats license db.next_id n)
        ≡ count_all (is_seat_of license) db.seats + n =
      count_all-append (is_seat_of license) db.seats (new_seats license db.next_id n)
      ∙ ap (λ m. count_all (is_seat_of license) db.seats + m)
          (new_seats-count license db.next_id n) in
    ground (arith, total)

open_seat-counted :
    (license : ℕ) (s : Seat) (db : SeatDb)
    → find_first (is_open_in license) db.seats ≡ some s
    → 0 < count_all (is_open_at s.id) db.seats
open_seat-counted license s db open_seat =
    let fits = find_first-true (is_open_in license) db.seats open_seat in
    find_first-count (is_open_in license) (is_open_at s.id) db.seats s open_seat
      (ground (arith, eq_refl s.id))

-- The first attempt of a request that meets no other request.
assign_alone-occupy :
    (license organization acting user : ℕ) (l : License) (s : Seat) (db : SeatDb)
    → find_first (λ x. x.id == license) db.licenses ≡ some l
    → l.organization_id ≡ organization
    → l.is_seat ≡ true
    → find_first (is_open_in license) db.seats ≡ some s
    → assign (λ n d. d) license organization acting user db
      ≡ occupy license acting user s.id (claim s.id db)
unfolding assign get_owned_seat_license
assign_alone-occupy license organization acting user l s db found owned seats open_seat =
    let counted = open_seat-counted license s db open_seat in
    let not_lost : (count_all (is_open_at s.id) db.seats == 0) ≡ false = ground arith in
    rw (found, assign, get_owned_seat_license, ◌>>=◌)
      (rw (owned, eq_refl organization, seats)
        (rw (assign_loop, open_seat, ◌>>=◌) (rw (not_lost) refl)))

-- A request for a seat that meets no other request, on a SEAT license of the organization with an
-- AVAILABLE seat, takes the first such seat, which is then no longer AVAILABLE. If the user exists
-- it succeeds, and adds one row, an ACTIVE assignment of that seat to the user.
pub assign_alone :
    (license organization acting user u : ℕ) (l : License) (s : Seat) (db : SeatDb)
    → find_first (λ x. x.id == license) db.licenses ≡ some l
    → l.organization_id ≡ organization
    → l.is_seat ≡ true
    → find_first (is_open_in license) db.seats ≡ some s
    → find_first (is_user user) db.users ≡ some u
    → (a : SeatAssignment) × (db' : SeatDb) × (assign (λ n d. d) license organization acting user db
        ≡ ok a db')
      × (db'.assignments ≡ db.assignments ++ a ∷ [])
      × (a.seat_id ≡ s.id)
      × (a.user_id ≡ user)
      × (a.status ≡ current)
      × (count_all (is_open_at s.id) db'.seats ≡ 0)
unfolding occupy create_assignment record_seat_audit open_at
assign_alone license organization acting user u l s db found owned seats open_seat known = (
  new_assignment s.id user (claim s.id db),
  state_of (occupy license acting user s.id (claim s.id db)),
  assign_alone-occupy license organization acting user l s db found owned seats open_seat
      ∙ rw (known, occupy, create_assignment, ◌>>=◌),
  rw (known, occupy, create_assignment, ◌>>=◌),
  refl,
  refl,
  refl,
  rw (known, occupy, create_assignment, ◌>>=◌) (claim-open_at s.id db),
)

-- The same request for a user that does not exist throws, but has claimed the first AVAILABLE seat
-- by then: no AVAILABLE seat has its id any more, and no assignment was added.
pub assign_unknown :
    (license organization acting user : ℕ) (l : License) (s : Seat) (db : SeatDb)
    → find_first (λ x. x.id == license) db.licenses ≡ some l
    → l.organization_id ≡ organization
    → l.is_seat ≡ true
    → find_first (is_open_in license) db.seats ≡ some s
    → find_first (is_user user) db.users ≡ none
    → (db' : SeatDb) × (assign (λ n d. d) license organization acting user db
        ≡ err foreign_key_violation db')
      × (db'.assignments ≡ db.assignments)
      × (0 < count_all (is_open_at s.id) db.seats)
      × (count_all (is_open_at s.id) db'.seats ≡ 0)
unfolding occupy create_assignment open_at
assign_unknown license organization acting user l s db found owned seats open_seat unknown = (
  claim s.id db,
  assign_alone-occupy license organization acting user l s db found owned seats open_seat
      ∙ rw (unknown, occupy, create_assignment, ◌>>=◌),
  refl,
  open_seat-counted license s db open_seat,
  claim-open_at s.id db,
)
