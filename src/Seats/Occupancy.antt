-- ===== src/Seats/Occupancy.antt =====
-- Who sits where: the invariant on seats and their assignments.
use paywall.Prelude.{
  ℕ, suc, ◌+◌, ◌≤◌, ◌<◌, ◌≡◌, refl, sym, inl, inr, Bool, true, false, ◌&&◌, some, [], ◌∷◌, ◌++◌,
  ◌==◌, arith, if◌then◌else◌, ==_iff, eq_refl, Bool-cases, find_first, count_all, count_all-append,
  count_all-update_same, count_all-update_le, count_all-update_none, count_all-update_lt,
  count_all-implies, ◌⊎◌, Option-cases, find_first, ok, err, foreign_key_violation, ◌>>=◌,
}
use paywall.Dates.{Date}
use paywall.Seats.{
  available, SeatAssignmentStatus, is_current, SeatAssignment, SeatDb, is_seat_at, is_open_at,
  claim, is_user, new_assignment, place, create_assignment, is_assignment, end_assignment,
  free_seat,
}

abbrev pub is_current_on : ℕ → SeatAssignment → Bool
is_current_on key a = a.seat_id == key && is_current a.status

-- The ACTIVE assignments on a seat, its AVAILABLE rows, and its rows.
unfoldable pub current_on : ℕ → SeatDb → ℕ
current_on key db = count_all (is_current_on key) db.assignments

unfoldable pub open_at : ℕ → SeatDb → ℕ
open_at key db = count_all (is_open_at key) db.seats

unfoldable pub rows_at : ℕ → SeatDb → ℕ
rows_at key db = count_all (is_seat_at key) db.seats

-- A seat has one ACTIVE assignment at most, none while it is AVAILABLE, and ids that are still to be
-- given have neither seats nor assignments.
pub record Occupied (db : SeatDb) : Type 0 where
  pub at_most_one : (key : ℕ) → current_on key db ≤ 1
  pub open_empty : (key : ℕ) → 0 < open_at key db → current_on key db ≡ 0
  pub fresh_empty : (key : ℕ) → db.next_id ≤ key → current_on key db ≡ 0
  pub fresh_rows : (key : ℕ) → db.next_id ≤ key → rows_at key db ≡ 0

pub open_at-le : (key : ℕ) (db : SeatDb) → open_at key db ≤ rows_at key db
unfolding open_at rows_at
open_at-le key db =
    count_all-implies (is_open_at key) (is_seat_at key) db.seats (λ s h. ground arith)

-- A seat that is open has an id that was given.
pub open_at-given : (key : ℕ) (db : SeatDb) → Occupied db → 0 < open_at key db → key < db.next_id
open_at-given key db inv h = grind (arith, inv.fresh_rows key, open_at-le key db)

-- A claim takes a seat out of the open ones and changes nothing else.
pub claim-open_at : (key : ℕ) (db : SeatDb) → open_at key (claim key db) ≡ 0
unfolding open_at
claim-open_at key db = count_all-update_none (is_open_at key) _ db.seats (λ s h. ground arith)

claim-open_at_le : (key k : ℕ) (db : SeatDb) → open_at k (claim key db) ≤ open_at k db
unfolding open_at
claim-open_at_le key k db =
    count_all-update_le (is_open_at k) (is_open_at key) _ db.seats (λ s h. ground arith)

claim-rows_at : (key k : ℕ) (db : SeatDb) → rows_at k (claim key db) ≡ rows_at k db
unfolding rows_at
claim-rows_at key k db =
    count_all-update_same (is_seat_at k) (is_open_at key) _ db.seats (λ s h. refl)

pub claim-Occupied : (key : ℕ) (db : SeatDb) → Occupied db → Occupied (claim key db)
unfolding current_on
claim-Occupied key db inv = record {
  at_most_one = inv.at_most_one;
  open_empty = λ k h. inv.open_empty k (omega (arith, claim-open_at_le key k db, h));
  fresh_empty = inv.fresh_empty;
  fresh_rows = λ k h. rw (claim-rows_at key k db) (inv.fresh_rows k h);
}

-- A new ACTIVE assignment on a seat that is closed and empty.
pub place-Occupied :
    (seat user : ℕ) (db : SeatDb)
    → Occupied db
    → open_at seat db ≡ 0
    → current_on seat db ≡ 0
    → seat < db.next_id
    → Occupied (place seat user db)
unfolding current_on open_at rows_at count_all
place-Occupied seat user db inv closed empty given = record {
  at_most_one = λ k. rw (added k) (one k);
  open_empty = λ k h. rw (added k) (none_open k h);
  fresh_empty = λ k h. rw (added k) (none_fresh k h);
  fresh_rows = λ k h. inv.fresh_rows k (omega arith);
}
  where
    row : SeatAssignment
    row = new_assignment seat user db

    added :
        (k : ℕ)
        → count_all (is_current_on k) (db.assignments ++ row ∷ [])
          ≡ count_all (is_current_on k) db.assignments + (if seat == k then 1 else 0)
    added k = rw (count_all-append (is_current_on k) db.assignments (row ∷ [])) (ground arith)

    here : (k : ℕ) → (seat == k) ≡ true → count_all (is_current_on k) db.assignments ≡ 0
    here k e = rw (sym ((==_iff seat k).0 e)) empty

    shut : (k : ℕ) → (seat == k) ≡ true → count_all (is_open_at k) db.seats ≡ 0
    shut k e = rw (sym ((==_iff seat k).0 e)) closed

    one : (k : ℕ) → count_all (is_current_on k) db.assignments + (if seat == k then 1 else 0) ≤ 1
    one k = elim (Bool-cases (seat == k)) [
      | inl e ↦ rw (e, here k e) (omega arith)
      | inr e ↦ rw e (omega (arith, inv.at_most_one k))
    ]

    none_open :
        (k : ℕ)
        → 0 < count_all (is_open_at k) db.seats
        → count_all (is_current_on k) db.assignments + (if seat == k then 1 else 0) ≡ 0
    none_open k h = elim (Bool-cases (seat == k)) [
      | inl e ↦ absurd (omega (arith, shut k e, h))
      | inr e ↦ rw e (omega (arith, inv.open_empty k h))
    ]

    none_fresh :
        (k : ℕ)
        → suc db.next_id ≤ k
        → count_all (is_current_on k) db.assignments + (if seat == k then 1 else 0) ≡ 0
    none_fresh k h = elim (Bool-cases (seat == k)) [
      | inl e ↦ absurd (omega (arith, (==_iff seat k).0 e, given, h))
      | inr e ↦ rw e (omega (arith, inv.fresh_empty k (omega arith)))
    ]

-- What a request leaves that creates an assignment, and what it leaves where the user is unknown.
pub create_assignment-cases :
    (seat user : ℕ) (db : SeatDb)
    → (create_assignment seat user db ≡ ok (new_assignment seat user db) (place seat user db))
      ⊎ (create_assignment seat user db ≡ err foreign_key_violation db)
unfolding create_assignment
create_assignment-cases seat user db = elim (Option-cases (find_first (is_user user) db.users)) [
  | inl e ↦ inr (rw (e, create_assignment, ◌>>=◌))
  | inr (u, e) ↦ inl (rw (e, create_assignment, ◌>>=◌))
]

-- An assignment that ends leaves its seat empty.
end_assignment-current_on_le :
    (key k : ℕ) (status : SeatAssignmentStatus) (now : Date) (db : SeatDb)
    → is_current status ≡ false
    → current_on k (end_assignment key status now db) ≤ current_on k db
unfolding current_on
end_assignment-current_on_le key k status now db ended =
    count_all-update_le (is_current_on k) (is_assignment key) _ db.assignments (λ a h. ground arith)

pub end_assignment-Occupied :
    (key : ℕ) (status : SeatAssignmentStatus) (now : Date) (db : SeatDb)
    → is_current status ≡ false
    → Occupied db
    → Occupied (end_assignment key status now db)
unfolding open_at rows_at
end_assignment-Occupied key status now db ended inv = record {
  at_most_one = λ k. omega (arith, fewer k, inv.at_most_one k);
  open_empty = λ k h. omega (arith, fewer k, inv.open_empty k h);
  fresh_empty = λ k h. omega (arith, fewer k, inv.fresh_empty k h);
  fresh_rows = inv.fresh_rows;
}
  where
    fewer : (k : ℕ) → current_on k (end_assignment key status now db) ≤ current_on k db
    fewer k = end_assignment-current_on_le key k status now db ended

pub end_assignment-empty :
    (a : SeatAssignment) (status : SeatAssignmentStatus) (now : Date) (db : SeatDb)
    → is_current status ≡ false
    → Occupied db
    → find_first (is_assignment a.id) db.assignments ≡ some a
    → is_current a.status ≡ true
    → (current_on a.seat_id (end_assignment a.id status now db) ≡ 0)
      × (open_at a.seat_id db ≡ 0)
      × (a.seat_id < db.next_id)
unfolding current_on
end_assignment-empty a status now db ended inv found active =
    let drop =
      count_all-update_lt (is_current_on a.seat_id) (is_assignment a.id)
        (λ b. record b { status = status; unassigned_at = some now }) db.assignments a
        (λ b h. ground arith) found (ground (arith, eq_refl a.seat_id)) in
    (
      omega (arith, drop, inv.at_most_one a.seat_id),
      grind (arith, drop, inv.open_empty a.seat_id),
      grind (arith, drop, inv.fresh_empty a.seat_id),
    )

pub free_seat-Occupied :
    (key : ℕ) (db : SeatDb) → Occupied db → current_on key db ≡ 0 → Occupied (free_seat key db)
unfolding current_on open_at rows_at
free_seat-Occupied key db inv empty = record {
  at_most_one = inv.at_most_one;
  open_empty = reopened;
  fresh_empty = inv.fresh_empty;
  fresh_rows = λ k h.
      rw
        (count_all-update_same (is_seat_at k) (is_seat_at key)
          (λ s. record s { status = available }) db.seats (λ s e. refl))
        (inv.fresh_rows k h);
}
  where
    reopened : (k : ℕ) → 0 < open_at k (free_seat key db) → current_on k db ≡ 0
    reopened k h = elim (Bool-cases (key == k)) [
      | inl e ↦ rw (sym ((==_iff key k).0 e)) empty
      | inr e ↦ inv.open_empty k (
          rw
            (count_all-update_same (is_open_at k) (is_seat_at key)
              (λ s. record s { status = available }) db.seats (λ s hit. ground arith))
            at h)
    ]
