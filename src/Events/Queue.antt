-- ===== src/Events/Queue.antt =====
-- The waitlist is served in the order of its places.
use impact_graph.Base.{
  ℕ, suc, ◌≡◌, refl, ◌⊎◌, inl, inr, Bool, true, false, ◌&&◌, some, List, [], ◌∷◌, All, Exists,
  arith, Bool-cases, nat_eq, nat_eq_iff, if◌then◌else◌, ok,
}
use impact_graph.Events.{
  Event, Reservation, Status, Store, has_id, holds_seat, waits, update_where, queued_before,
  is_reserved, is_waitlisted, waitlist_head, waitlisted_count, promote_reservation,
}
use impact_graph.Events.Seats.{promoted, is_full, fill_seats}
use impact_graph.Events.Rows.{IsTable, Exists-map, count-disjoint, count-Exists}
use impact_graph.Events.Filled.{waitlist_head_sound, fill_rounds_inv}
use impact_graph.Events.Filling.{promote-IsTable}

-- A row is in the table.
abbrev pub Row : Reservation → List Reservation → Type 0
Row r rows = Exists (λ x. x ≡ r) rows

-- A row that still waits after a promotion waited before it.
waits-promote_reservation :
    (event id : ℕ) (rows : List Reservation) (w : Reservation)
    → waits event w ≡ true
    → Row w (promote_reservation id rows)
    → Row w rows
unfolding promote_reservation update_where
waits-promote_reservation event id [] w h m = absurd m
waits-promote_reservation event id (x ∷ xs) w h m = elim (Bool-cases (nat_eq x.id id)) [
  | inl changed ↦ elim (rw changed at m) [
    | inl same ↦ let k = rw (← same) at h in absurd (ground arith)
    | inr more ↦ inr (waits-promote_reservation event id xs w h more)
  ]
  | inr kept ↦ elim (rw kept at m) [
    | inl same ↦ inl same
    | inr more ↦ inr (waits-promote_reservation event id xs w h more)
  ]
]

-- A row of another identifier stays.
Row-promote_reservation :
    (id : ℕ) (rows : List Reservation) (r : Reservation)
    → nat_eq r.id id ≡ false
    → Row r rows
    → Row r (promote_reservation id rows)
unfolding promote_reservation update_where
Row-promote_reservation id [] r ne m = absurd m
Row-promote_reservation id (x ∷ xs) r ne m = elim m [
  | inl same ↦ let miss = rw (← same) at ne in rw miss (inl same)
  | inr more ↦ elim (Bool-cases (nat_eq x.id id)) [
    | inl changed ↦ rw changed (inr (Row-promote_reservation id xs r ne more))
    | inr kept ↦ rw kept (inr (Row-promote_reservation id xs r ne more))
  ]
]

-- What holds for every row holds for one of them.
All-Row :
    (P : Reservation → Type 0) (rows : List Reservation) (r : Reservation)
    → All P rows
    → Row r rows
    → P r
All-Row P [] r a m = absurd m
All-Row P (x ∷ xs) r a (inl same) = rw (← same) a.0
All-Row P (x ∷ xs) r a (inr m) = All-Row P xs r a.1 m

-- Two rows of one identifier agree on what waits for a seat.
same-Row :
    (rows : List Reservation) (id : ℕ) (p : Reservation → Bool) (r x : Reservation)
    → IsTable rows
    → Row r rows
    → Row x rows
    → r.id ≡ id
    → x.id ≡ id
    → p r ≡ true
    → p x ≡ false
    → ⊥
same-Row rows id p r x t mr mx ir ix pr px =
    let one = t.ids id in
    let split =
      count-disjoint (λ y. has_id id y && p y) (λ y. has_id id y && (if p y then false else true))
        (has_id id) (λ y h. ground arith) (λ y h. ground arith) rows in
    let a =
      count-Exists (λ y. has_id id y && p y) rows
        (Exists-map (λ y same. let k : (has_id id r && p r) ≡ true = ground arith in rw same k) rows
          mr) in
    let b =
      count-Exists (λ y. has_id id y && (if p y then false else true)) rows
        (Exists-map
          (λ y same.
            let k : (has_id id x && (if p x then false else true)) ≡ true = ground arith in
            rw same k)
          rows mx) in
    absurd (omega arith)

-- No place of the waitlist is before the row's.
abbrev Served : ℕ → Reservation → List Reservation → Type 0
Served event r rows =
    (w : Reservation) → Row w rows → waits event w ≡ true → queued_before r w ≡ true

-- Each that waited at first waits still, or has been served in its turn.
record InTurn (event : ℕ) (rows now_rows : List Reservation) : Type 0 where
  table : IsTable now_rows
  turn :
      (r : Reservation)
      → Row r rows
      → waits event r ≡ true
      → Row r now_rows ⊎ Served event r now_rows

promoted-InTurn :
    (e : Event) (now : ℕ) (rows : List Reservation) (s : Store) (head : Reservation)
    → InTurn e.id rows s.reservations
    → is_full e s ≡ false
    → waitlist_head e.id s.reservations ≡ some head
    → InTurn e.id rows (promoted s e now head).reservations
unfolding promoted
promoted-InTurn e now rows s head h room found =
    let best = waitlist_head_sound e.id s.reservations found in
    record {
      table = promote-IsTable head.id s.reservations h.table;
      turn = λ r m waiting. elim (h.turn r m waiting) [
        | inr served ↦ inr (λ w there still.
            served w (waits-promote_reservation e.id head.id s.reservations w still there) still)
        | inl here ↦ elim (Bool-cases (nat_eq r.id head.id)) [
          | inr other ↦ inl (Row-promote_reservation head.id s.reservations r other here)
          | inl same ↦ inr (λ w there still.
              let before = waits-promote_reservation e.id head.id s.reservations w still there in
              let ahead = All-Row _ s.reservations w best.first before still in
              elim (Bool-cases (queued_before r w)) [
                | inl fine ↦ fine
                | inr behind ↦ absurd (
                    same-Row s.reservations head.id (λ y. queued_before y w) head r h.table
                      best.member here refl ((nat_eq_iff r.id head.id).0 same) ahead behind)
              ])
        ]
      ];
    }

not_both : (st : Status) → is_reserved st ≡ true → is_waitlisted st ≡ false
not_both Status.reserved h = refl
not_both Status.waitlisted h = cc
not_both Status.cancelled h = refl

seated_not_waiting :
    (event : ℕ) (x : Reservation) → holds_seat event x ≡ true → waits event x ≡ false
seated_not_waiting event x h = ground (arith, not_both x.status)

-- When `fillSeats` has ended, whoever waited and now has a seat was queued before everyone who waits
-- still, by the time of the place and, for the same time, by its identifier.
pub first_come_first_served :
    (s s' : Store) (e : Event) (now : ℕ)
    → IsTable s.reservations
    → fill_seats s e now ≡ ok s'
    → (r w x : Reservation) → Row r s.reservations
    → waits e.id r ≡ true
    → Row x s'.reservations
    → x.id ≡ r.id
    → holds_seat e.id x ≡ true
    → Row w s'.reservations
    → waits e.id w ≡ true
    → queued_before r w ≡ true
unfolding fill_seats
first_come_first_served s s' e now t h r w x m waiting mx ids seated mw still =
    let start : InTurn e.id s.reservations s.reservations = record {
      table = t;
      turn = λ y my _. inl my;
    } in
    let last =
      fill_rounds_inv (λ u. InTurn e.id s.reservations u.reservations) e now
        (λ u head p room found. promoted-InTurn e now s.reservations u head p room found)
        (suc (waitlisted_count e.id s.reservations)) s start h in
    elim (last.turn r m waiting) [
      | inr served ↦ served w mw still
      | inl here ↦ absurd (
          same-Row s'.reservations r.id (waits e.id) r x last.table here mx refl ids waiting
            (seated_not_waiting e.id x seated))
    ]
