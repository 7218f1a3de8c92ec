-- ===== src/Seats.antt =====
-- Seats of a license: apps/api/src/seats/seats.service.ts.
pub mod Occupancy
pub mod Requests
pub mod Histories
pub mod Capacity
mod Tests
use paywall.Prelude.{
  ℕ, suc, zero, ◌+◌, Bool, true, false, not, ◌&&◌, Option, none, some, List, [], ◌∷◌, ◌++◌, ◌==◌,
  ltb, if◌then◌else◌, Request, ◌>>=◌, ◌>>◌, return, throw, guard, or_throw, read, write,
  transaction, not_found, bad_request, conflict, foreign_key_violation, is_some, find_first,
  update_all, count_all,
}
use paywall.Dates.{Date}

pub data SeatStatus : Type 0 where
  available assigned waiting inactive : SeatStatus

abbrev pub is_available : SeatStatus → Bool
is_available available = true
is_available _ = false

pub data SeatAssignmentStatus : Type 0 where
  proposed current removed transferred : SeatAssignmentStatus

-- `status === SeatAssignmentStatus.ACTIVE`
abbrev pub is_current : SeatAssignmentStatus → Bool
is_current current = true
is_current _ = false

pub record Seat : Type 0 where
  pub id : ℕ
  pub license_id : ℕ
  pub status : SeatStatus

pub record SeatAssignment : Type 0 where
  pub id : ℕ
  pub seat_id : ℕ
  pub user_id : ℕ
  pub status : SeatAssignmentStatus
  pub unassigned_at : Option Date

-- A license, with the columns that are read; `is_seat` is `type === LicenseType.SEAT`.
pub record License : Type 0 where
  pub id : ℕ
  pub organization_id : ℕ
  pub is_seat : Bool
  pub seat_limit : Option ℕ

pub data SeatAction : Type 0 where
  seats_created : ℕ → SeatAction
  seat_assigned seat_removed : ℕ → ℕ → SeatAction
  seat_transferred : ℕ → ℕ → ℕ → SeatAction

pub record SeatAudit : Type 0 where
  pub action : SeatAction
  pub user_id : ℕ
  pub license_id : ℕ

pub record SeatDb : Type 0 where
  pub users : List ℕ
  pub licenses : List License
  pub seats : List Seat
  pub assignments : List SeatAssignment
  pub seat_audit : List SeatAudit
  pub next_id : ℕ

unfoldable pub record_seat_audit : SeatAction → ℕ → ℕ → SeatDb → SeatDb
record_seat_audit action user_id license_id db = record db {
  seat_audit =
      db.seat_audit ++ record { action = action; user_id = user_id; license_id = license_id } ∷ [];
}

unfoldable pub get_owned_seat_license : ℕ → ℕ → Request SeatDb License
get_owned_seat_license license_id organization_id = do
  found ← read (λ db. find_first (λ l. l.id == license_id) db.licenses)
  license ← or_throw found not_found
  guard (license.organization_id == organization_id) not_found
  guard license.is_seat bad_request
  return license

abbrev pub is_seat_at : ℕ → Seat → Bool
is_seat_at key s = s.id == key

abbrev pub is_seat_of : ℕ → Seat → Bool
is_seat_of license_id s = s.license_id == license_id

-- `where: { licenseId, status: AVAILABLE }` and `where: { id, status: AVAILABLE }`
abbrev pub is_open_in : ℕ → Seat → Bool
is_open_in license_id s = s.license_id == license_id && is_available s.status

abbrev pub is_open_at : ℕ → Seat → Bool
is_open_at key s = s.id == key && is_available s.status

-- The limit is not passed: `license.seatLimit != null && existingCount + dto.count > seatLimit`.
abbrev pub fits_limit : Option ℕ → ℕ → Bool
fits_limit none total = true
fits_limit (some limit) total = not (ltb limit total)

-- The rows of `createManyAndReturn`, with the ids from `first` on.
unfoldable pub new_seats : ℕ → ℕ → ℕ → List Seat
new_seats license_id first zero = []
new_seats license_id first (suc n) =
    record { id = first; license_id = license_id; status = available }
    ∷ new_seats license_id (suc first) n

abbrev pub add_seats : ℕ → ℕ → SeatDb → SeatDb
add_seats license_id n db = record db {
  seats = db.seats ++ new_seats license_id db.next_id n;
  next_id = db.next_id + n;
}

-- `createManyAndReturn` and the audit entry.
abbrev pub fill_seats : ℕ → ℕ → ℕ → Request SeatDb (List Seat)
fill_seats license_id user_id n = do
  first ← read (λ db. db.next_id)
  write (add_seats license_id n)
  write (record_seat_audit (seats_created n) user_id license_id)
  return (new_seats license_id first n)

unfoldable pub bulk_create : ℕ → ℕ → ℕ → ℕ → Request SeatDb (List Seat)
unfolding get_owned_seat_license new_seats record_seat_audit
bulk_create license_id organization_id user_id n = do
  license ← get_owned_seat_license license_id organization_id
  existing ← read (λ db. count_all (is_seat_of license_id) db.seats)
  guard (fits_limit license.seat_limit (existing + n)) bad_request
  fill_seats license_id user_id n

-- `seat.updateMany` on the candidate, if it is still AVAILABLE.
abbrev pub claim : ℕ → SeatDb → SeatDb
claim key db = record db {
  seats = update_all (is_open_at key) (λ s. record s { status = assigned }) db.seats;
}

abbrev pub is_user : ℕ → ℕ → Bool
is_user user_id u = u == user_id

abbrev pub new_assignment : ℕ → ℕ → SeatDb → SeatAssignment
new_assignment seat_id user_id db = record {
  id = db.next_id;
  seat_id = seat_id;
  user_id = user_id;
  status = current;
  unassigned_at = none;
}

abbrev pub place : ℕ → ℕ → SeatDb → SeatDb
place seat_id user_id db = record db {
  assignments = db.assignments ++ new_assignment seat_id user_id db ∷ [];
  next_id = suc db.next_id;
}

-- `seatAssignment.create`: the user of an assignment is a foreign key. The seat is one that was read.
unfoldable pub create_assignment : ℕ → ℕ → Request SeatDb SeatAssignment
create_assignment seat_id user_id = do
  user ← read (λ db. find_first (is_user user_id) db.users)
  guard (is_some user) foreign_key_violation
  row ← read (new_assignment seat_id user_id)
  write (place seat_id user_id)
  return row

unfoldable pub occupy : ℕ → ℕ → ℕ → ℕ → Request SeatDb SeatAssignment
unfolding create_assignment record_seat_audit
occupy license_id acting_user_id user_id seat_id = do
  assignment ← create_assignment seat_id user_id
  write (record_seat_audit (seat_assigned seat_id user_id) acting_user_id license_id)
  return assignment

-- The loop of `assign`, on the attempts that are left. `others n` is what other requests write between
-- the search for a candidate and its claim.
unfoldable pub assign_loop : (ℕ → SeatDb → SeatDb) → ℕ → ℕ → ℕ → ℕ → Request SeatDb SeatAssignment
unfolding occupy
assign_loop others license_id acting_user_id user_id zero = throw conflict
assign_loop others license_id acting_user_id user_id (suc n) =
    let retry = assign_loop others license_id acting_user_id user_id n in
    do
      found ← read (λ db. find_first (is_open_in license_id) db.seats)
      candidate ← or_throw found conflict
      write (others n)
      claimed ← read (λ db. count_all (is_open_at candidate.id) db.seats)
      write (claim candidate.id)
      if claimed == 0 then retry else occupy license_id acting_user_id user_id candidate.id

unfoldable pub assign : (ℕ → SeatDb → SeatDb) → ℕ → ℕ → ℕ → ℕ → Request SeatDb SeatAssignment
unfolding get_owned_seat_license assign_loop
assign others license_id organization_id acting_user_id user_id = do
  license ← get_owned_seat_license license_id organization_id
  assign_loop others license_id acting_user_id user_id 5

abbrev pub is_assignment : ℕ → SeatAssignment → Bool
is_assignment key a = a.id == key

-- The seat that an assignment includes, on the license.
abbrev seat_on : ℕ → ℕ → SeatDb → Option Seat
seat_on license_id key db = find_first (λ s. s.id == key && s.license_id == license_id) db.seats

unfoldable pub get_owned_active_assignment : ℕ → ℕ → Request SeatDb SeatAssignment
get_owned_active_assignment license_id assignment_id = do
  found ← read (λ db. find_first (is_assignment assignment_id) db.assignments)
  a ← or_throw found not_found
  seat ← read (seat_on license_id a.seat_id)
  s ← or_throw seat not_found
  guard (is_current a.status) bad_request
  return a

-- `seatAssignment.update`: the assignment ends.
abbrev pub end_assignment : ℕ → SeatAssignmentStatus → Date → SeatDb → SeatDb
end_assignment key status now db = record db {
  assignments =
      update_all (is_assignment key) (λ a. record a { status = status; unassigned_at = some now })
        db.assignments;
}

abbrev pub free_seat : ℕ → SeatDb → SeatDb
free_seat key db = record db {
  seats = update_all (is_seat_at key) (λ s. record s { status = available }) db.seats;
}

unfoldable pub remove_assignment : Date → ℕ → ℕ → ℕ → ℕ → Request SeatDb SeatAssignment
unfolding get_owned_seat_license get_owned_active_assignment record_seat_audit
remove_assignment now license_id organization_id assignment_id acting_user_id = do
  license ← get_owned_seat_license license_id organization_id
  a ← get_owned_active_assignment license_id assignment_id
  write (end_assignment a.id removed now)
  write (free_seat a.seat_id)
  write (record_seat_audit (seat_removed a.seat_id a.user_id) acting_user_id license_id)
  return (record a { status = removed; unassigned_at = some now })

-- The two statements of the transaction.
abbrev pub hand_over : Date → SeatAssignment → ℕ → Request SeatDb SeatAssignment
hand_over now a user_id = do
  write (end_assignment a.id transferred now)
  create_assignment a.seat_id user_id

unfoldable pub transfer : Date → ℕ → ℕ → ℕ → ℕ → ℕ → Request SeatDb SeatAssignment
unfolding get_owned_seat_license get_owned_active_assignment create_assignment record_seat_audit
transfer now license_id organization_id assignment_id acting_user_id user_id = do
  license ← get_owned_seat_license license_id organization_id
  a ← get_owned_active_assignment license_id assignment_id
  new ← transaction (hand_over now a user_id)
  write (record_seat_audit (seat_transferred a.seat_id a.user_id user_id) acting_user_id license_id)
  return new
