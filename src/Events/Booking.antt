-- ===== src/Events/Booking.antt =====
-- What a donor does: `Reserve` and `Cancel` of `ReservationService`. The donor is the one that the
-- session names; a transaction that returns an error leaves the store as it was.
use impact_graph.Base.{
  ℕ, Bool, not, Option, none, some, ltb, if◌then◌else◌, Result, ok, ensure, ◌>>=◌, ◌>>◌,
}
use impact_graph.Events.{
  Event, Reservation, Status, Store, EventError, event_by_id, or_error, is_some, is_active,
  is_reserved, reservation_for, set_reservation_status, upsert_reservation,
}
use impact_graph.Events.Gate.{published, admits, booking_open}
use impact_graph.Events.Seats.{is_full, fill_seats}
use Status.{reserved, waitlisted, cancelled}
use EventError.{event_not_found, event_cancelled, reservation_closed, booking_not_open}

-- The status that a booking gets.
abbrev pub seat_status : Event → Store → Status
seat_status e s = if is_full e s then waitlisted else reserved

abbrev pub new_place : Event → ℕ → ℕ → ℕ → Status → Reservation
new_place e donor now id status = record {
  id = id;
  event_id = e.id;
  donor_id = donor;
  status = status;
  reserved_at = now;
  checked_in_at = none;
}

-- The last part of Reserve: a seat, or a place on the waitlist.
unfoldable pub book : Store → Event → ℕ → ℕ → ℕ → Result EventError (Store × Status)
book s e donor now id = do
  rows ← upsert_reservation (new_place e donor now id (seat_status e s)) s.reservations
  ok (record s { reservations = rows }, seat_status e s)

-- An active reservation is returned as it is.
unfoldable pub keep_or_book :
    Option Reservation → Store → Event → ℕ → ℕ → ℕ → Result EventError (Store × Status)
keep_or_book none s e donor now id = book s e donor now id
keep_or_book (some r) s e donor now id =
    if is_active r.status then ok (s, r.status) else book s e donor now id

-- The guards of Reserve, in their order.
unfoldable pub reserve_guards : Store → ℕ → ℕ → Event → Result EventError (Unit {0})
reserve_guards s donor now e = do
  ensure (published e) event_not_found
  ensure (not (is_some e.cancelled_at)) event_cancelled
  ensure (ltb now e.starts_at) reservation_closed
  ensure (admits s donor e) event_not_found
  ensure (booking_open s donor e now).0 booking_not_open

-- Reserve, at the time `now` and with the identifier that NewID returns
unfoldable pub reserve : Store → ℕ → ℕ → ℕ → ℕ → Result EventError (Store × Status)
reserve s donor id now event = do
  e ← or_error event_not_found (event_by_id event s)
  reserve_guards s donor now e
  keep_or_book (reservation_for event donor s.reservations) s e donor now id

-- Cancel of an active reservation: a seat that is freed is filled at once.
unfoldable pub release : Store → Event → ℕ → ℕ → Bool → Result EventError Store
release s e donor now was_reserved =
    let rows = set_reservation_status e.id donor cancelled s.reservations in
    if was_reserved
    then fill_seats (record s { reservations = rows }) e now
    else ok (record s { reservations = rows })

unfoldable pub cancel_place :
    Store → Event → ℕ → ℕ → Reservation → Result EventError (Store × Status)
cancel_place s e donor now r =
    if is_active r.status
    then (release s e donor now (is_reserved r.status) >>= λ s'. ok (s', cancelled))
    else ok (s, cancelled)

-- Cancel
unfoldable pub cancel : Store → ℕ → ℕ → ℕ → Result EventError (Store × Status)
cancel s donor now event = do
  e ← or_error event_not_found (event_by_id event s)
  ensure (ltb now e.starts_at) reservation_closed
  r ← or_error event_not_found (reservation_for event donor s.reservations)
  cancel_place s e donor now r
