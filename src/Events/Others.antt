-- ===== src/Events/Others.antt =====
-- What the operations of the staff and the check-in leave alone.
use impact_graph.Base.{
  ℕ, ◌+◌, ◌≡◌, refl, ◌++◌, keep, ◌⊎◌, inl, inr, Bool, true, false, not, ◌&&◌, some, List, [], ◌∷◌,
  arith, Bool-cases, leb, nat_eq, ok, ensure, >>=-ok, find,
}
use impact_graph.Events.{
  Event, Reservation, Store, EventError, or_error, is_some, is_active, is_reserved, is_place,
  event_by_id, reservation_for, update_where,
}
use impact_graph.Events.Gate.{published, is_event_guest}
use impact_graph.Events.Rows.{IsTable, update_where-IsTable, count-update_where_same}
use impact_graph.Events.Effects.{SameAt}
use impact_graph.Events.CheckIn.{
  check_in_reservation, mark_attended, in_window, check_in, check_in_attendee, staff_lead,
}
use impact_graph.Events.Staff.{add_guest, remove_guest, notify_holders}
use impact_graph.Events.Steps.{or_error_ok, ensure_ok}
use EventError.{check_in_invalid, event_cancelled, no_rows, reservation_closed}

-- The reservations keep their constraints and the numbers of every event, and the events stay.
pub record IsQuiet (s s' : Store) : Type 0 where
  pub events : s'.events ≡ s.events
  pub table : IsTable s.reservations → IsTable s'.reservations
  pub numbers : (k : ℕ) → SameAt k s.reservations s'.reservations

pub IsQuiet-refl : (s : Store) → IsQuiet s s
IsQuiet-refl s = record {
  events = refl;
  table = λ t. t;
  numbers = λ k. record { seats = refl; waiting = refl };
}

check_in_reservation-SameAt :
    (event donor now k : ℕ) (rows : List Reservation)
    → SameAt k rows (check_in_reservation event donor now rows)
unfolding impact_graph.Events.reserved_count impact_graph.Events.waitlisted_count
    check_in_reservation
check_in_reservation-SameAt event donor now k rows = record {
  seats = count-update_where_same (impact_graph.Events.holds_seat k) _ _ (λ r. refl) rows;
  waiting = count-update_where_same (impact_graph.Events.waits k) _ _ (λ r. refl) rows;
}

check_in_reservation-IsTable :
    (event donor now : ℕ) (rows : List Reservation)
    → IsTable rows
    → IsTable (check_in_reservation event donor now rows)
unfolding check_in_reservation
check_in_reservation-IsTable event donor now rows t =
    update_where-IsTable _ _ (λ r. (refl, refl, refl)) rows t

-- Checking in: the donor held a seat, and was in already or is stamped now.
pub mark_attended_ok :
    (s : Store) (event donor now : ℕ) (r : Reservation) {s' : Store} {before : Bool}
    → mark_attended s event donor now r ≡ ok (s', before)
    → (is_reserved r.status ≡ true)
      × (((s ≡ s') × (before ≡ true) × (is_some r.checked_in_at ≡ true))
          ⊎ ((record s { reservations = check_in_reservation event donor now s.reservations } ≡ s')
              × (before ≡ false)
              × (is_some r.checked_in_at ≡ false)))
unfolding mark_attended
mark_attended_ok s event donor now r h =
    let (u, seated, last) = >>=-ok (ensure (is_reserved r.status) check_in_invalid) _ h in
    (
      ensure_ok (is_reserved r.status) check_in_invalid seated,
      elim (Bool-cases (is_some r.checked_in_at)) [
        | inl stamped ↦ let e = rw stamped at last in inl (cc, cc, stamped)
        | inr unstamped ↦ let e = rw unstamped at last in inr (cc, cc, unstamped)
      ],
    )

mark_attended-IsQuiet :
    (s : Store) (event donor now : ℕ) (r : Reservation) {s' : Store} {before : Bool}
    → mark_attended s event donor now r ≡ ok (s', before)
    → IsQuiet s s'
mark_attended-IsQuiet s event donor now r h = elim (mark_attended_ok s event donor now r h).1 [
  | inl (same, _, _) ↦ rw (← same) (IsQuiet-refl s)
  | inr (marked, _, _) ↦ rw (← marked) (record {
    events = refl;
    table = check_in_reservation-IsTable event donor now s.reservations;
    numbers = λ k. check_in_reservation-SameAt event donor now k s.reservations;
  })
]

-- A scan that succeeds.
pub check_in_ok :
    (s : Store) (donor now event : ℕ) {s' : Store} {before : Bool}
    → check_in s donor now event ≡ ok (s', before)
    → (e : Event) × (event_by_id event s ≡ some e)
      × ((published e && (not (is_some e.cancelled_at) && in_window e now)) ≡ true)
      × ((r : Reservation) × (reservation_for event donor s.reservations ≡ some r)
          × (mark_attended s event donor now r ≡ ok (s', before)))
unfolding check_in
check_in_ok s donor now event h =
    let (e, found, h₁) = >>=-ok (or_error check_in_invalid (event_by_id event s)) _ h in
    let (u, fits, h₂) =
      >>=-ok
        (ensure (published e && (not (is_some e.cancelled_at) && in_window e now)) check_in_invalid)
        _ h₁ in
    let (r, place, h₃) =
      >>=-ok (or_error check_in_invalid (reservation_for event donor s.reservations)) _ h₂ in
    (
      e,
      or_error_ok check_in_invalid (event_by_id event s) found,
      ensure_ok _ check_in_invalid fits,
      (r, or_error_ok check_in_invalid (reservation_for event donor s.reservations) place, h₃),
    )

pub check_in-IsQuiet :
    (s : Store) (donor now event : ℕ) {s' : Store} {before : Bool}
    → check_in s donor now event ≡ ok (s', before)
    → IsQuiet s s'
check_in-IsQuiet s donor now event h =
    let (e, _, _, (r, _, marked)) = check_in_ok s donor now event h in
    mark_attended-IsQuiet s event donor now r marked

pub check_in_attendee-IsQuiet :
    (s : Store) (donor now event : ℕ) {s' : Store} {before : Bool}
    → check_in_attendee s donor now event ≡ ok (s', before)
    → IsQuiet s s'
unfolding check_in_attendee
check_in_attendee-IsQuiet s donor now event h =
    let (e, _, h₁) = >>=-ok (or_error no_rows (event_by_id event s)) _ h in
    let (_, _, h₂) = >>=-ok (ensure (not (is_some e.cancelled_at)) event_cancelled) _ h₁ in
    let (_, _, h₃) =
      >>=-ok
        (ensure (published e && (leb e.starts_at (now + staff_lead) && leb now e.ends_at))
          check_in_invalid)
        _ h₂ in
    let (r, _, h₄) = >>=-ok (or_error no_rows (reservation_for event donor s.reservations)) _ h₃ in
    mark_attended-IsQuiet s event donor now r h₄

guests-IsQuiet : (s : Store) (list : List (ℕ × ℕ)) → IsQuiet s (record s { guests = list })
guests-IsQuiet s list = record {
  events = refl;
  table = λ t. t;
  numbers = λ k. record { seats = refl; waiting = refl };
}

pub add_guest-IsQuiet :
    (s : Store) (event donor : ℕ) {s' : Store} → add_guest s event donor ≡ ok s' → IsQuiet s s'
unfolding add_guest
add_guest-IsQuiet s event donor {s'} h =
    let (e, _, last) = >>=-ok (or_error no_rows (event_by_id event s)) _ h in
    elim (Bool-cases (is_event_guest event donor s)) [
      | inl listed ↦ let same : s ≡ s' = ground arith in rw (← same) (IsQuiet-refl s)
      | inr new ↦
          let same : record s { guests = s.guests ++ ((event, donor) ∷ []) } ≡ s' = ground arith in
          rw (← same) (guests-IsQuiet s (s.guests ++ ((event, donor) ∷ [])))
    ]

pub remove_guest-IsQuiet : (s : Store) (event donor : ℕ) → IsQuiet s (remove_guest s event donor)
unfolding remove_guest
remove_guest-IsQuiet s event donor =
    guests-IsQuiet s (keep (λ (e, d). not (nat_eq e event && nat_eq d donor)) s.guests)

-- An event after a change of some events is changed itself, or the one that was there.
pub find-update_where :
    (k : ℕ) (q : Event → Bool) (f : Event → Event) (es : List Event) {e' : Event}
    → ((e : Event) → (f e).id ≡ e.id)
    → find (λ e. nat_eq e.id k) (update_where q f es) ≡ some e'
    → (e : Event) × (find (λ e. nat_eq e.id k) es ≡ some e)
      × (((q e ≡ true) × (f e ≡ e')) ⊎ ((q e ≡ false) × (e ≡ e')))
unfolding find update_where
find-update_where k q f [] keeps h = cc
find-update_where k q f (e ∷ es) {e'} keeps h = elim (Bool-cases (nat_eq e.id k)) [
  | inl hit ↦ elim (Bool-cases (q e)) [
    | inl changed ↦ (e, rw hit refl, inl (changed, let i = keeps e in ground arith))
    | inr kept ↦ (e, rw hit refl, inr (kept, ground arith))
  ]
  | inr miss ↦
      let rest = find-update_where k q f es keeps (let i = keeps e in ground arith) in
      (rest.0, rw miss rest.1, rest.2)
]

-- The notices of a cancelled event change no event and no reservation.
pub notify_holders-tables :
    (e : Event) (now : ℕ) (donors : List ℕ) (s : Store)
    → ((notify_holders e now donors s).events ≡ s.events)
      × ((notify_holders e now donors s).reservations ≡ s.reservations)
unfolding notify_holders
notify_holders-tables e now [] s = (refl, refl)
notify_holders-tables e now (donor ∷ more) s = notify_holders-tables e now more _
