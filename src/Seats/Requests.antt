-- ===== src/Seats/Requests.antt =====
-- What each request to SeatsService does to the occupied seats.
use paywall.Prelude.{
  ℕ, suc, zero, ◌<◌, ◌≡◌, refl, sym, ap, ◌∙◌, inl, inr, true, some, ◌==◌, arith, if◌then◌else◌,
  Bool-cases, ==_iff, find_first, find_first-true, count_all, Request, Outcome, ok, err, state_of,
  ◌>>=◌, ◌>>◌, return, read, write, or_throw, conflict, Within, Within->>=, Within-or_throw,
  transaction,
}
use paywall.Dates.{Date}
use paywall.Seats.{
  SeatAction, removed, transferred, is_current, SeatAssignment, SeatDb, hand_over, is_open_at,
  is_open_in, claim, occupy, assign_loop, assign, record_seat_audit, is_assignment, end_assignment,
  free_seat, get_owned_seat_license, get_owned_active_assignment, remove_assignment, transfer,
  seat_transferred, seat_removed,
}
use paywall.Seats.Occupancy.{
  Occupied, current_on, open_at, rows_at, claim-Occupied, claim-open_at, create_assignment-cases,
  place-Occupied, end_assignment-Occupied, end_assignment-empty, free_seat-Occupied, open_at-given,
}

abbrev pub Keeps : SeatDb → SeatDb → Type 0
Keeps db db' = Occupied db → Occupied db'

pub bind :
    {A B : Type 0} (m : Request SeatDb A) (f : A → Request SeatDb B)
    → Within Keeps m
    → ((a : A) → Within Keeps (f a))
    → Within Keeps (m >>= f)
bind m f = Within->>= Keeps (λ db h. h) (λ a b c f g h. g (f h)) m f

pub audit-Occupied :
    (action : SeatAction) (user license : ℕ) (db : SeatDb)
    → Occupied db
    → Occupied (record_seat_audit action user license db)
unfolding record_seat_audit current_on open_at rows_at
audit-Occupied action user license db inv = record {
  at_most_one = inv.at_most_one;
  open_empty = inv.open_empty;
  fresh_empty = inv.fresh_empty;
  fresh_rows = inv.fresh_rows;
}

license_state :
    (license organization : ℕ) (db : SeatDb)
    → state_of (get_owned_seat_license license organization db) ≡ db
unfolding get_owned_seat_license
license_state license organization db = ground arith

pub license-Keeps :
    (license organization : ℕ) → Within Keeps (get_owned_seat_license license organization)
license-Keeps license organization = record {
  holds = λ db inv. rw (license_state license organization db) inv;
}

-- What `getOwnedActiveAssignment` finds.
assignment_found :
    (license key : ℕ) (db : SeatDb) {a : SeatAssignment} {db' : SeatDb}
    → get_owned_active_assignment license key db ≡ ok a db'
    → (db' ≡ db)
      × (find_first (is_assignment key) db.assignments ≡ some a)
      × (is_current a.status ≡ true)
unfolding get_owned_active_assignment
assignment_found license key db {a} {db'} h = ground arith

assignment_state :
    (license key : ℕ) (db : SeatDb) → state_of (get_owned_active_assignment license key db) ≡ db
unfolding get_owned_active_assignment
assignment_state license key db = ground arith

occupy-Occupied :
    (license acting user seat : ℕ) (db : SeatDb)
    → Occupied db
    → open_at seat db ≡ 0
    → current_on seat db ≡ 0
    → seat < db.next_id
    → Occupied (state_of (occupy license acting user seat db))
unfolding occupy
occupy-Occupied license acting user seat db inv closed empty given =
    elim (create_assignment-cases seat user db) [
      | inl e ↦
          rw (e, occupy, ◌>>=◌)
            (audit-Occupied _ acting license _ (place-Occupied seat user db inv closed empty given))
      | inr e ↦ rw (e, occupy, ◌>>=◌) inv
    ]

-- The claim of a candidate and what follows it.
abbrev claim_or : Request SeatDb SeatAssignment → ℕ → ℕ → ℕ → ℕ → Request SeatDb SeatAssignment
claim_or retry license acting user seat = do
  claimed ← read (λ db. count_all (is_open_at seat) db.seats)
  write (claim seat)
  if claimed == 0 then retry else occupy license acting user seat

claim_or-Keeps :
    (retry : Request SeatDb SeatAssignment) (license acting user seat : ℕ)
    → Within Keeps retry
    → Within Keeps (claim_or retry license acting user seat)
unfolding open_at current_on
claim_or-Keeps retry license acting user seat again = record {
  holds = λ db inv. elim (Bool-cases (open_at seat db == 0)) [
    | inl e ↦ rw e (again.holds (claim seat db) (claim-Occupied seat db inv))
    | inr e ↦
        let is_open : 0 < open_at seat db = ground arith in
        rw e (
          occupy-Occupied license acting user seat (claim seat db) (claim-Occupied seat db inv)
            (claim-open_at seat db) (inv.open_empty seat is_open)
            (open_at-given seat db inv is_open))
  ];
}

assign_loop-Keeps :
    (others : ℕ → SeatDb → SeatDb) (license acting user : ℕ) (n : ℕ)
    → ((k : ℕ) (db : SeatDb) → Occupied db → Occupied (others k db))
    → Within Keeps (assign_loop others license acting user n)
unfolding assign_loop
assign_loop-Keeps others license acting user zero quiet = record { holds = λ db inv. inv }
assign_loop-Keeps others license acting user (suc n) quiet =
    bind (read (λ db. find_first (is_open_in license) db.seats)) _
      (record { holds = λ db inv. inv })
      λ found.
        bind (or_throw found conflict) _
          (Within-or_throw Keeps (λ db h. h) (λ a b c f g h. g (f h)) found conflict)
          λ candidate.
            bind (write (others n)) _ (record { holds = λ db inv. quiet n db inv })
              λ _.
                claim_or-Keeps (assign_loop others license acting user n) license acting user
                  candidate.id (assign_loop-Keeps others license acting user n quiet)

-- Assigning a seat, whatever other requests that keep the seats singly occupied write between the
-- search for a seat and its claim, and whether it succeeds or throws, keeps them singly occupied.
pub assign-Occupied :
    (others : ℕ → SeatDb → SeatDb) (license organization acting user : ℕ) (db : SeatDb)
    → ((k : ℕ) (db : SeatDb) → Occupied db → Occupied (others k db))
    → Occupied db
    → Occupied (state_of (assign others license organization acting user db))
unfolding assign
assign-Occupied others license organization acting user db quiet inv =
    (bind (get_owned_seat_license license organization) _ (license-Keeps license organization)
        λ _. assign_loop-Keeps others license acting user 5 quiet).holds
      db inv

module _ (now : Date) (license key acting : ℕ) where
  abbrev removal : Request SeatDb SeatAssignment
  removal = do
    a ← get_owned_active_assignment license key
    write (end_assignment a.id removed now)
    write (free_seat a.seat_id)
    write (record_seat_audit (seat_removed a.seat_id a.user_id) acting license)
    return (record a { status = removed; unassigned_at = some now })

  removal-Keeps : Within Keeps removal
  unfolding current_on
  removal-Keeps = record {
    holds = λ db inv. go db inv (get_owned_active_assignment license key db) refl;
  }
    where
      go :
          (db : SeatDb)
          → Occupied db
          → (o : Outcome SeatDb SeatAssignment) → get_owned_active_assignment license key db ≡ o
          → Occupied (state_of (removal db))
      go db inv (err e d) same =
          rw (same, ◌>>=◌) (rw (sym (ap state_of same) ∙ assignment_state license key db) inv)
      go db inv (ok a d) same =
          let (unchanged, found, active) = assignment_found license key db same in
          let same_id : a.id ≡ key =
            (==_iff a.id key).0 (find_first-true (is_assignment key) db.assignments found) in
          let (empty, closed, given) =
            end_assignment-empty a removed now db refl inv
              (ap (λ k. find_first (is_assignment k) db.assignments) same_id ∙ found) active in
          rw (same, ◌>>=◌)
            (rw unchanged (
              audit-Occupied _ acting license _ (
                free_seat-Occupied a.seat_id (end_assignment a.id removed now db)
                  (end_assignment-Occupied a.id removed now db refl inv) empty)))

  abbrev handover : ℕ → Request SeatDb SeatAssignment
  handover user = do
    a ← get_owned_active_assignment license key
    new ← transaction (hand_over now a user)
    write (record_seat_audit (seat_transferred a.seat_id a.user_id user) acting license)
    return new

  handover-Keeps : (user : ℕ) → Within Keeps (handover user)
  unfolding current_on open_at
  handover-Keeps user = record {
    holds = λ db inv. go db inv (get_owned_active_assignment license key db) refl;
  }
    where
      go :
          (db : SeatDb)
          → Occupied db
          → (o : Outcome SeatDb SeatAssignment) → get_owned_active_assignment license key db ≡ o
          → Occupied (state_of (handover user db))
      go db inv (err e d) same =
          rw (same, ◌>>=◌) (rw (sym (ap state_of same) ∙ assignment_state license key db) inv)
      go db inv (ok a d) same =
          let (unchanged, found, active) = assignment_found license key db same in
          let same_id : a.id ≡ key =
            (==_iff a.id key).0 (find_first-true (is_assignment key) db.assignments found) in
          let (empty, closed, given) =
            end_assignment-empty a transferred now db refl inv
              (ap (λ k. find_first (is_assignment k) db.assignments) same_id ∙ found) active in
          elim (create_assignment-cases a.seat_id user (end_assignment a.id transferred now db)) [
            | inl e ↦
                rw (same, ◌>>=◌)
                  (rw (unchanged, ◌>>=◌)
                    (rw (e, transaction, hand_over, ◌>>=◌)
                      (audit-Occupied _ acting license _ (
                        place-Occupied a.seat_id user (end_assignment a.id transferred now db)
                          (end_assignment-Occupied a.id transferred now db refl inv) closed empty
                          given))))
            | inr e ↦
                rw (same, ◌>>=◌)
                  (rw (unchanged, ◌>>=◌) (rw (e, transaction, hand_over, ◌>>=◌) (rw unchanged inv)))
          ]

pub remove_assignment-Keeps :
    (now : Date) (license organization key acting : ℕ)
    → Within Keeps (remove_assignment now license organization key acting)
unfolding remove_assignment
remove_assignment-Keeps now license organization key acting =
    bind (get_owned_seat_license license organization) _ (license-Keeps license organization)
      λ _. removal-Keeps now license key acting

pub transfer-Keeps :
    (now : Date) (license organization key acting user : ℕ)
    → Within Keeps (transfer now license organization key acting user)
unfolding transfer
transfer-Keeps now license organization key acting user =
    bind (get_owned_seat_license license organization) _ (license-Keeps license organization)
      λ _. handover-Keeps now license key acting user
