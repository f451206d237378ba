-- ===== src/Events/Filled.antt =====
-- `fillSeats` ends, and leaves no free seat while someone waits for it.
use impact_graph.Base.{
  ℕ, zero, suc, ◌<◌, ◌≡◌, refl, ◌⊎◌, inl, inr, true, false, none, some, List, arith, Bool-cases,
  Option-cases, nat_eq_refl, ok,
}
use impact_graph.Events.{
  Event, Reservation, Store, EventError, has_id, waits, with_status, update_where, waitlisted_count,
  waitlist_head, promote_reservation, reserved_count,
}
use impact_graph.Events.Seats.{promoted, promote_waitlist_head, is_full, fill_rounds, fill_seats}
use impact_graph.Events.Rows.{
  Exists-map, IsLeast, least_sound, least-none, queue_order, count-update_where_lt,
}

-- What WaitlistHead finds.
pub waitlist_head_sound :
    (event : ℕ) (rows : List Reservation) {head : Reservation}
    → waitlist_head event rows ≡ some head
    → IsLeast impact_graph.Events.queued_before (waits event) rows head
unfolding waitlist_head
waitlist_head_sound event rows h = least_sound queue_order (waits event) rows h

waitlist_head-none :
    (event : ℕ) (rows : List Reservation)
    → waitlist_head event rows ≡ none
    → waitlisted_count event rows ≡ 0
unfolding waitlist_head waitlisted_count
waitlist_head-none event rows h = least-none queue_order (waits event) rows h

-- One who is promoted waits no more.
pub waitlisted_count-promote_reservation :
    (event : ℕ) (rows : List Reservation) (head : Reservation)
    → waitlist_head event rows ≡ some head
    → waitlisted_count event (promote_reservation head.id rows) < waitlisted_count event rows
unfolding waitlisted_count promote_reservation
waitlisted_count-promote_reservation event rows head h =
    let best = waitlist_head_sound event rows h in
    count-update_where_lt (waits event) (has_id head.id)
      (with_status impact_graph.Events.Status.reserved) (λ x. ground arith) rows
      (Exists-map (λ x same. rw same (best.passes, nat_eq_refl head.id)) rows best.member)

-- No seat is free, or nobody waits.
abbrev pub IsFilled : Event → Store → Type 0
IsFilled e s = (is_full e s ≡ true) ⊎ (waitlisted_count e.id s.reservations ≡ 0)

-- A round of the loop.
pub fill_rounds_cases :
    (n : ℕ) (s : Store) (e : Event) (now : ℕ)
    → (IsFilled e s × (fill_rounds (suc n) s e now ≡ ok s))
      ⊎ ((head : Reservation) × (is_full e s ≡ false)
          × (waitlist_head e.id s.reservations ≡ some head)
          × (fill_rounds (suc n) s e now ≡ fill_rounds n (promoted s e now head) e now))
unfolding fill_rounds promote_waitlist_head
fill_rounds_cases n s e now = elim (Bool-cases (is_full e s)) [
  | inl full ↦ inl (inl full, rw full refl)
  | inr room ↦ elim (Option-cases (waitlist_head e.id s.reservations)) [
    | inl nobody ↦ inl (inr (nobody_waits nobody), rw (room, nobody) refl)
    | inr (head, found) ↦ inr (head, room, found, rw (room, found) refl)
  ]
]
  where
    nobody_waits :
        waitlist_head e.id s.reservations ≡ none → waitlisted_count e.id s.reservations ≡ 0
    nobody_waits h = waitlist_head-none e.id s.reservations h

pub fill_rounds_finishes :
    (n : ℕ) (s : Store) (e : Event) (now : ℕ)
    → waitlisted_count e.id s.reservations < n
    → (s' : Store) × (fill_rounds n s e now ≡ ok s') × IsFilled e s'
unfolding promoted
fill_rounds_finishes zero s e now h = absurd (omega arith)
fill_rounds_finishes (suc n) s e now h = elim (fill_rounds_cases n s e now) [
  | inl (filled, ends) ↦ (s, ends, filled)
  | inr (head, room, found, goes_on) ↦
      let fewer = waitlisted_count-promote_reservation e.id s.reservations head found in
      let (s', ends, filled) = fill_rounds_finishes n (promoted s e now head) e now (omega arith) in
      (s', rw goes_on ends, filled)
]

no_rounds : (s : Store) (e : Event) (now : ℕ) {s' : Store} → ¬ (fill_rounds 0 s e now ≡ ok s')
unfolding fill_rounds
no_rounds s e now h = cc

-- What each promotion keeps, `fillSeats` keeps.
pub fill_rounds_inv {κ} :
    (P : Store → Type κ) (e : Event) (now : ℕ)
    → ((s : Store) (head : Reservation)
        → P s
        → is_full e s ≡ false
        → waitlist_head e.id s.reservations ≡ some head
        → P (promoted s e now head))
    → (n : ℕ) (s : Store) {s' : Store} → P s
    → fill_rounds n s e now ≡ ok s'
    → P s'
fill_rounds_inv P e now keeps zero s p h = absurd (no_rounds s e now h)
fill_rounds_inv P e now keeps (suc n) s {s'} p h = elim (fill_rounds_cases n s e now) [
  | inl (filled, ends) ↦ let same : s ≡ s' = ground arith in rw (← same) p
  | inr (head, room, found, goes_on) ↦
      fill_rounds_inv P e now keeps n (promoted s e now head) (keeps s head p room found)
        (rw goes_on at h)
]

-- `fillSeats` ends on every store, and then no seat of the event is free or nobody waits for one: a
-- round for each one that waits, and one more, are enough.
pub fill_seats_finishes :
    (s : Store) (e : Event) (now : ℕ) → (s' : Store) × (fill_seats s e now ≡ ok s') × IsFilled e s'
unfolding fill_seats
fill_seats_finishes s e now =
    fill_rounds_finishes (suc (waitlisted_count e.id s.reservations)) s e now (omega arith)
