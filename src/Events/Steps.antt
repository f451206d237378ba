-- ===== src/Events/Steps.antt =====
-- The operations on events as steps of the store, and what an operation that succeeds has passed.
use impact_graph.Base.{
  ℕ, ◌≡◌, refl, ◌⊎◌, inl, inr, Bool, true, false, Option, none, some, List, arith, Bool-cases, ltb,
  ok, ensure, some_inj, not, >>=-ok,
}
use impact_graph.Events.{
  Event, Reservation, Status, Store, EventError, or_error, is_some, is_active, is_reserved,
  event_by_id, reservation_for, upsert_reservation,
}
use impact_graph.Events.Gate.{published, admits, booking_open}
use impact_graph.Events.Booking.{
  new_place, seat_status, book, keep_or_book, reserve_guards, reserve, release, cancel_place,
  cancel,
}
use impact_graph.Events.CheckIn.{check_in, check_in_attendee}
use impact_graph.Events.Staff.{EventChanges, update, publish, add_guest, remove_guest, cancel_event}
use EventError.{event_not_found, event_cancelled, reservation_closed, booking_not_open}

-- One operation at a time of the clock, which has changed the store.
pub data Step (now : ℕ) (s s' : Store) : Type 0 where
  reserves :
      (donor id event : ℕ) (status : Status)
      → reserve s donor id now event ≡ ok (s', status)
      → Step now s s'
  cancels :
      (donor event : ℕ) (status : Status)
      → cancel s donor now event ≡ ok (s', status)
      → Step now s s'
  checks_in :
      (donor event : ℕ) (before : Bool)
      → check_in s donor now event ≡ ok (s', before)
      → Step now s s'
  checks_in_attendee :
      (donor event : ℕ) (before : Bool)
      → check_in_attendee s donor now event ≡ ok (s', before)
      → Step now s s'
  updates : (c : EventChanges) (id : ℕ) → update s c now id ≡ ok s' → Step now s s'
  publishes : (id : ℕ) → publish s id ≡ ok s' → Step now s s'
  adds_guest : (event donor : ℕ) → add_guest s event donor ≡ ok s' → Step now s s'
  removes_guest : (event donor : ℕ) → remove_guest s event donor ≡ s' → Step now s s'
  cancels_event : (id : ℕ) → cancel_event s now id ≡ ok s' → Step now s s'

pub or_error_ok {ℓ} :
    {A : Type ℓ} (failure : EventError) (o : Option A) {a : A}
    → or_error failure o ≡ ok a
    → o ≡ some a
or_error_ok failure none h = cc
or_error_ok failure (some b) h = cc

pub ensure_ok {ℓ} :
    {E : Type ℓ} (b : Bool) (failure : E) {u : Unit {ℓ}} → ensure b failure ≡ ok u → b ≡ true
ensure_ok true failure h = refl
ensure_ok false failure h = cc

-- A booking that succeeds has written the donor's place with the status that it returns.
pub book_ok :
    (s : Store) (e : Event) (donor now id : ℕ) {s' : Store} {status : Status}
    → book s e donor now id ≡ ok (s', status)
    → (rows : List Reservation) × (upsert_reservation
          (new_place e donor now id (seat_status e s))
          s.reservations
        ≡ ok rows)
      × (record s { reservations = rows } ≡ s')
      × (seat_status e s ≡ status)
unfolding book
book_ok s e donor now id h =
    let (rows, wrote, rest) =
      >>=-ok (upsert_reservation (new_place e donor now id (seat_status e s)) s.reservations)
        (λ rows. ok (record s { reservations = rows }, seat_status e s)) h in
    (rows, wrote, cc, cc)

-- The donor had no active place.
abbrev pub NoPlace : Option Reservation → Type 0
NoPlace o = (r : Reservation) → o ≡ some r → is_active r.status ≡ false

pub keep_or_book_ok :
    (o : Option Reservation) (s : Store) (e : Event) (donor now id : ℕ) {s' : Store}
    {status : Status}
    → keep_or_book o s e donor now id ≡ ok (s', status)
    → ((s ≡ s')
        × ((r : Reservation) × (o ≡ some r) × (is_active r.status ≡ true) × (r.status ≡ status)))
      ⊎ (NoPlace o × (book s e donor now id ≡ ok (s', status)))
unfolding keep_or_book
keep_or_book_ok none s e donor now id h = inr (λ r k. cc, h)
keep_or_book_ok (some r) s e donor now id h = elim (Bool-cases (is_active r.status)) [
  | inl active ↦ let same = rw active at h in inl (cc, (r, refl, active, cc))
  | inr idle ↦ inr (λ x k. let same = some_inj.0 k in rw (← same) idle, rw idle at h)
]

-- What the guards of Reserve ask.
pub record MayReserve (s : Store) (donor now : ℕ) (e : Event) : Type 0 where
  pub is_published : published e ≡ true
  pub not_cancelled : is_some e.cancelled_at ≡ false
  pub upcoming : ltb now e.starts_at ≡ true
  pub admitted : admits s donor e ≡ true
  pub open_now : (booking_open s donor e now).0 ≡ true

pub reserve_guards_ok :
    (s : Store) (donor now : ℕ) (e : Event) {u : Unit {0}}
    → reserve_guards s donor now e ≡ ok u
    → MayReserve s donor now e
unfolding reserve_guards
reserve_guards_ok s donor now e {u} h =
    let (u₁, a, h₁) = >>=-ok (ensure (published e) event_not_found) _ h in
    let (u₂, b, h₂) = >>=-ok (ensure (not (is_some e.cancelled_at)) event_cancelled) _ h₁ in
    let (u₃, c, h₃) = >>=-ok (ensure (ltb now e.starts_at) reservation_closed) _ h₂ in
    let (u₄, d, last) = >>=-ok (ensure (admits s donor e) event_not_found) _ h₃ in
    let live = ensure_ok (not (is_some e.cancelled_at)) event_cancelled b in
    record {
      is_published = ensure_ok (published e) event_not_found a;
      not_cancelled = ground arith;
      upcoming = ensure_ok (ltb now e.starts_at) reservation_closed c;
      admitted = ensure_ok (admits s donor e) event_not_found d;
      open_now = ensure_ok (booking_open s donor e now).0 booking_not_open last;
    }

-- A reservation that succeeds has passed every guard; then an active place is kept, or one is booked.
pub reserve_ok :
    (s : Store) (donor id now event : ℕ) {s' : Store} {status : Status}
    → reserve s donor id now event ≡ ok (s', status)
    → (e : Event) × (event_by_id event s ≡ some e)
      × MayReserve s donor now e
      × (keep_or_book (reservation_for event donor s.reservations) s e donor now id
          ≡ ok (s', status))
unfolding reserve
reserve_ok s donor id now event h =
    let (e, found, h₁) = >>=-ok (or_error event_not_found (event_by_id event s)) _ h in
    let (u, passed, h₂) = >>=-ok (reserve_guards s donor now e) _ h₁ in
    (
      e,
      or_error_ok event_not_found (event_by_id event s) found,
      reserve_guards_ok s donor now e passed,
      h₂,
    )

-- Cancelling that succeeds has found a place before the start, and frees it where it was active.
pub cancel_ok :
    (s : Store) (donor now event : ℕ) {s' : Store} {status : Status}
    → cancel s donor now event ≡ ok (s', status)
    → (e : Event) × (event_by_id event s ≡ some e)
      × (ltb now e.starts_at ≡ true)
      × ((r : Reservation) × (reservation_for event donor s.reservations ≡ some r)
          × ((s ≡ s') ⊎ (release s e donor now (is_reserved r.status) ≡ ok s')))
unfolding cancel cancel_place
cancel_ok s donor now event {s'} h =
    let (e, found, h₁) = >>=-ok (or_error event_not_found (event_by_id event s)) _ h in
    let (u, early, h₂) = >>=-ok (ensure (ltb now e.starts_at) reservation_closed) _ h₁ in
    let (r, place, h₃) =
      >>=-ok (or_error event_not_found (reservation_for event donor s.reservations)) _ h₂ in
    (
      e,
      or_error_ok event_not_found (event_by_id event s) found,
      ensure_ok (ltb now e.starts_at) reservation_closed early,
      (
        r,
        or_error_ok event_not_found (reservation_for event donor s.reservations) place,
        elim (Bool-cases (is_active r.status)) [
          | inr gone ↦ let same = rw gone at h₃ in inl cc
          | inl active ↦
              let (t, freed, same) =
                >>=-ok (release s e donor now (is_reserved r.status)) _ (rw active at h₃) in
              let e : t ≡ s' = cc in inr (rw (← e) freed)
        ],
      ),
    )
