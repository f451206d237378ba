-- ===== src/Events/CheckIn.antt =====
-- Attendance: `CheckIn` of a donor by a scanned token, up to its award of badges, and `CheckInAttendee`
-- of the staff.
use impact_graph.Base.{
  ℕ, ◌+◌, ◌*◌, Bool, true, false, not, ◌&&◌, some, List, leb, if◌then◌else◌, Result, ok, ensure,
  ◌>>=◌, ◌>>◌,
}
use impact_graph.Events.{
  Event, Reservation, Store, EventError, event_by_id, or_error, is_some, is_active, is_reserved,
  is_place, reservation_for, update_where,
}
use impact_graph.Events.Gate.{published}
use EventError.{check_in_invalid, event_cancelled, no_rows}

-- CheckInReservation: it stamps an active row that has no stamp.
unfoldable pub check_in_reservation : ℕ → ℕ → ℕ → List Reservation → List Reservation
check_in_reservation event donor now rows =
    update_where
      (λ r. is_place event donor r && (is_active r.status && not (is_some r.checked_in_at)))
      (λ r. record r { checked_in_at = some now }) rows

-- What both ways of checking in do with a reservation; the second part says whether the donor was in
-- already.
unfoldable pub mark_attended : Store → ℕ → ℕ → ℕ → Reservation → Result EventError (Store × Bool)
mark_attended s event donor now r =
    ensure (is_reserved r.status) check_in_invalid
    >> ok (
        if is_some r.checked_in_at then (s, true) else (
          record s { reservations = check_in_reservation event donor now s.reservations },
          false,
        ))

-- The window of a scan is from the start to the end of the event.
abbrev pub in_window : Event → ℕ → Bool
in_window e now = leb e.starts_at now && leb now e.ends_at

-- CheckIn, for the event that the token names
unfoldable pub check_in : Store → ℕ → ℕ → ℕ → Result EventError (Store × Bool)
check_in s donor now event = do
  e ← or_error check_in_invalid (event_by_id event s)
  ensure (published e && (not (is_some e.cancelled_at) && in_window e now)) check_in_invalid
  r ← or_error check_in_invalid (reservation_for event donor s.reservations)
  mark_attended s event donor now r

-- The staff may check in from an hour before the start.
abbrev pub staff_lead : ℕ
staff_lead = 3600 * 1000000000

-- CheckInAttendee: `now.Before(starts.Add(-time.Hour))` is `now + staff_lead < starts`.
unfoldable pub check_in_attendee : Store → ℕ → ℕ → ℕ → Result EventError (Store × Bool)
check_in_attendee s donor now event = do
  e ← or_error no_rows (event_by_id event s)
  ensure (not (is_some e.cancelled_at)) event_cancelled
  ensure (published e && (leb e.starts_at (now + staff_lead) && leb now e.ends_at)) check_in_invalid
  r ← or_error no_rows (reservation_for event donor s.reservations)
  mark_attended s event donor now r
