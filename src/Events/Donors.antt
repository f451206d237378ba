-- ===== src/Events/Donors.antt =====
-- What `Reserve` and `Cancel` of a donor do to the events and their numbers.
use impact_graph.Base.{
  ℕ, ◌≡◌, ◌≢◌, refl, ◌⊎◌, inl, inr, true, false, some, List, arith, Bool-cases, ok,
}
use impact_graph.Events.{
  Event, Reservation, Status, Store, is_reserved, event_by_id, reservation_for,
  set_reservation_status, upsert_reservation, with_status,
}
use impact_graph.Events.Seats.{is_full}
use impact_graph.Events.Booking.{new_place, seat_status, book, reserve, release, cancel}
use impact_graph.Events.Rows.{IsTable, update_where-IsTable}
use impact_graph.Events.Effects.{SameAt, cancel_place-effect, cancel_waiting-effect, place-SameAt}
use impact_graph.Events.Upsert.{
  upsert-IsTable, upsert-SameAt, upsert-seats, upsert_reserved-effect, upsert_waitlisted-effect,
}
use impact_graph.Events.Filling.{fill_seats-IsFilling, room_left, SameAt-trans}
use impact_graph.Events.Steps.{reserve_ok, keep_or_book_ok, book_ok, cancel_ok, NoPlace}
use impact_graph.Events.Others.{IsQuiet-refl}
use impact_graph.Events.Becomes.{
  Becomes, IsEffect, event_by_id-id, IsFilled-mono, full_mono, quiet-IsEffect, one_event-IsEffect,
}

full_status :
    (e : Event) (s : Store)
    → ((is_full e s ≡ true) × (seat_status e s ≡ Status.waitlisted))
      ⊎ ((is_full e s ≡ false) × (seat_status e s ≡ Status.reserved))
full_status e s = elim (Bool-cases (is_full e s)) [
  | inl full ↦ inl (full, rw full refl)
  | inr room ↦ inr (room, rw room refl)
]

book-Becomes :
    (s : Store) (e : Event) (donor now id : ℕ) (rows : List Reservation)
    → IsTable s.reservations
    → NoPlace (reservation_for e.id donor s.reservations)
    → upsert_reservation (new_place e donor now id (seat_status e s)) s.reservations ≡ ok rows
    → Becomes now s (record s { reservations = rows }) e e
book-Becomes s e donor now id rows t idle wrote =
    let new = new_place e donor now id (seat_status e s) in
    let kept = upsert-seats new s.reservations t idle wrote in
    elim (full_status e s) [
      | inl (full, waits) ↦
          let seats = upsert_waitlisted-effect new s.reservations waits wrote in
          record {
            seats = inl seats;
            filled = λ early h. inl (full_mono e s (record s { reservations = rows }) full kept);
          }
      | inr (room, sits) ↦
          let (seats, waiting) = upsert_reserved-effect new s.reservations t sits wrote in
          record {
            seats = elim (room_left e s room) [
              | inl uncapped ↦ inr (inl uncapped)
              | inr free ↦ inr (inr (omega arith))
            ];
            filled = λ early h. elim (h early) [
              | inl full ↦ absurd (ground arith)
              | inr nobody ↦ inr (omega arith)
            ];
          }
    ]

book-IsEffect :
    (now k : ℕ) (s : Store) (e : Event) (donor id : ℕ) {s' : Store} {status : Status}
    → IsTable s.reservations
    → event_by_id k s ≡ some e
    → NoPlace (reservation_for e.id donor s.reservations)
    → book s e donor now id ≡ ok (s', status)
    → IsEffect now s s'
book-IsEffect now k s e donor id t here idle h =
    let (rows, wrote, same, _) = book_ok s e donor now id h in
    let new = new_place e donor now id (seat_status e s) in
    rw (← same) (
      one_event-IsEffect now k s (record s { reservations = rows }) e here refl
        (upsert-IsTable new s.reservations t wrote)
        (λ j ne. upsert-SameAt new s.reservations j ne wrote)
        (book-Becomes s e donor now id rows t idle wrote))

pub reserve-IsEffect :
    (now : ℕ) (s : Store) (donor id event : ℕ) {s' : Store} {status : Status}
    → IsTable s.reservations
    → reserve s donor id now event ≡ ok (s', status)
    → IsEffect now s s'
reserve-IsEffect now s donor id event t h =
    let (e, here, _, last) = reserve_ok s donor id now event h in
    let i = event_by_id-id event s here in
    elim (keep_or_book_ok (reservation_for event donor s.reservations) s e donor now id last) [
      | inl (same, _) ↦ rw (← same) (quiet-IsEffect now s s t (IsQuiet-refl s))
      | inr (idle, booked) ↦ book-IsEffect now event s e donor id t here (rw i idle) booked
    ]

-- The rows after a place is cancelled.
abbrev freed : Store → Event → ℕ → Store
freed s e donor = record s {
  reservations = set_reservation_status e.id donor Status.cancelled s.reservations;
}

freed-IsTable :
    (s : Store) (e : Event) (donor : ℕ)
    → IsTable s.reservations
    → IsTable (freed s e donor).reservations
unfolding set_reservation_status
freed-IsTable s e donor t = update_where-IsTable _ _ (λ r. (refl, refl, refl)) s.reservations t

freed-SameAt :
    (s : Store) (e : Event) (donor j : ℕ)
    → j ≢ e.id
    → SameAt j s.reservations (freed s e donor).reservations
unfolding set_reservation_status
freed-SameAt s e donor j ne =
    place-SameAt e.id donor s.reservations (with_status Status.cancelled) j ne (λ r. refl)

release-IsEffect :
    (now k : ℕ) (s : Store) (e : Event) (donor : ℕ) (r : Reservation) {s' : Store}
    → IsTable s.reservations
    → event_by_id k s ≡ some e
    → reservation_for e.id donor s.reservations ≡ some r
    → release s e donor now (is_reserved r.status) ≡ ok s'
    → IsEffect now s s'
unfolding release
release-IsEffect now k s e donor r {s'} t here place h =
    let (fewer, less) = cancel_place-effect e.id donor s.reservations e.id in
    let t₁ = freed-IsTable s e donor t in
    elim (Bool-cases (is_reserved r.status)) [
      | inl seated ↦
          let (f, full) = fill_seats-IsFilling (freed s e donor) e now t₁ (rw seated at h) in
          one_event-IsEffect now k s s' e here f.events f.table
            (λ j ne. SameAt-trans (freed-SameAt s e donor j ne) (f.others j ne))
            (record {
              seats = elim f.seats [
                | inl no_more ↦ inl (omega arith)
                | inr (inl uncapped) ↦ inr (inl uncapped)
                | inr (inr within) ↦ inr (inr within)
              ];
              filled = λ _ _. full;
            })
      | inr unseated ↦
          let same : freed s e donor ≡ s' = let k = rw unseated at h in cc in
          let kept = cancel_waiting-effect e.id donor s.reservations t r place unseated in
          rw (← same) (
            one_event-IsEffect now k s (freed s e donor) e here refl t₁ (freed-SameAt s e donor)
              (record {
                seats = inl fewer;
                filled =
                    λ early h. IsFilled-mono s (freed s e donor) e e refl refl kept less (h early);
              }))
    ]

pub cancel-IsEffect :
    (now : ℕ) (s : Store) (donor event : ℕ) {s' : Store} {status : Status}
    → IsTable s.reservations
    → cancel s donor now event ≡ ok (s', status)
    → IsEffect now s s'
cancel-IsEffect now s donor event t h =
    let (e, here, _, (r, place, last)) = cancel_ok s donor now event h in
    let i = event_by_id-id event s here in
    elim last [
      | inl same ↦ rw (← same) (quiet-IsEffect now s s t (IsQuiet-refl s))
      | inr freed ↦ release-IsEffect now event s e donor r t here (rw i place) freed
    ]
