-- ===== src/Events/Repeat.antt =====
-- What a donor who reserves gets, and that asking again changes nothing; a second scan likewise.
use impact_graph.Base.{
  ℕ, ◌≤◌, ◌≡◌, refl, sym, inl, inr, Bool, true, false, Option, none, some, List, [], ◌∷◌, ◌++◌,
  arith, Bool-cases, ltb, nat_eq_refl, find, any, ok, ◌∙◌,
}
use impact_graph.Events.{
  Event, Reservation, Status, Store, event_by_id, reservation_for, upsert_reservation, update_where,
  is_place, is_active,
}
use impact_graph.Events.Gate.{
  admits, booking_open, booking_open_at, can_see_invite_only, is_event_guest,
}
use impact_graph.Events.Booking.{new_place, seat_status, keep_or_book, reserve_guards, reserve}
use impact_graph.Events.Seats.{is_full}
use impact_graph.Events.Becomes.{event_by_id-id}
use impact_graph.Events.Upsert.{upsert_cases, rebook}
use impact_graph.Events.Steps.{MayReserve, reserve_ok, keep_or_book_ok, book_ok}

module _ {A : Type 0} (p : A → Bool) where
  -- The first match after a change of all matches that keeps them matches.
  find-update_where_match :
      (f : A → A) (xs : List A)
      → ((x : A) → p (f x) ≡ p x)
      → any p xs ≡ true
      → (x : A) × (find p xs ≡ some x) × (find p (update_where p f xs) ≡ some (f x))
  unfolding find any update_where
  find-update_where_match f [] keeps h = cc
  find-update_where_match f (x ∷ xs) keeps h = elim (Bool-cases (p x)) [
    | inl hit ↦ (x, rw hit refl, let same = keeps x in rw (hit, find) (rw (same, hit) refl))
    | inr miss ↦
        let (y, there, after) = find-update_where_match f xs keeps (rw miss at h) in
        (y, rw miss there, rw miss (rw miss after))
  ]

  find-append_match :
      (xs : List A) (x : A) → any p xs ≡ false → p x ≡ true → find p (xs ++ (x ∷ [])) ≡ some x
  unfolding find any
  find-append_match [] x h hit = rw hit refl
  find-append_match (y ∷ ys) x h hit = elim (Bool-cases (p y)) [
    | inl k ↦ absurd (ground arith)
    | inr miss ↦ rw miss (find-append_match ys x (rw miss at h) hit)
  ]

-- The donor's place after a booking has its status.
upsert-place :
    (new : Reservation) (rows rows' : List Reservation)
    → upsert_reservation new rows ≡ ok rows'
    → (r : Reservation) × (reservation_for new.event_id new.donor_id rows' ≡ some r)
      × (r.status ≡ new.status)
unfolding reservation_for
upsert-place new rows rows' h =
    let here = is_place new.event_id new.donor_id in
    elim (upsert_cases new rows h) [
      | inl (e, there) ↦
          let (x, _, after) = find-update_where_match here (rebook new) rows (λ r. refl) there in
          (rebook new x, rw (← e) after, refl)
      | inr (e, absent, _) ↦ (
        new,
        rw (← e) (
            find-append_match here rows new absent
              (rw (nat_eq_refl new.event_id, nat_eq_refl new.donor_id) refl)),
        refl,
      )
    ]

-- What a reservation looks at is as it was, but for the rows.
abbrev Booked : Store → Store → Type 0
Booked s t = (rows : List Reservation) × (record s { reservations = rows } ≡ t)

seat_status-active : (e : Event) (s : Store) → is_active (seat_status e s) ≡ true
seat_status-active e s = elim (Bool-cases (is_full e s)) [ inl h ↦ rw h refl | inr h ↦ rw h refl ]

-- A reservation that succeeds leaves the donor with an active place of the status that it returns.
reserve_place :
    (s : Store) (donor id now event : ℕ) {s' : Store} {status : Status}
    → reserve s donor id now event ≡ ok (s', status)
    → Booked s s'
      × ((r : Reservation) × (reservation_for event donor s'.reservations ≡ some r)
          × (is_active r.status ≡ true)
          × (r.status ≡ status))
reserve_place s donor id now event h =
    let (e, here, _, last) = reserve_ok s donor id now event h in
    let i = event_by_id-id event s here in
    elim (keep_or_book_ok (reservation_for event donor s.reservations) s e donor now id last) [
      | inl (same, (r, there, active, has)) ↦
          ((s.reservations, same), (r, rw same at there, active, has))
      | inr (idle, booked) ↦
          let (rows, wrote, made, st) = book_ok s e donor now id booked in
          let (r, there, has) =
            upsert-place (new_place e donor now id (seat_status e s)) s.reservations rows wrote in
          (
            (rows, made),
            (r, rw (← made) (rw i at there), rw has (seat_status-active e s), has ∙ st),
          )
    ]

booking_open_later :
    (s : Store) (donor : ℕ) (opens : Option ℕ) (now later : ℕ)
    → now ≤ later
    → (booking_open_at s donor opens now).0 ≡ true
    → (booking_open_at s donor opens later).0 ≡ true
unfolding booking_open_at
booking_open_later s donor none now later h k = refl
booking_open_later s donor (some at) now later h k = ground arith

reserve_kept :
    (s : Store) (rows : List Reservation) (donor id now event : ℕ) (e : Event) (r : Reservation)
    → event_by_id event s ≡ some e
    → MayReserve s donor now e
    → reservation_for event donor rows ≡ some r
    → is_active r.status ≡ true
    → reserve (record s { reservations = rows }) donor id now event
      ≡ ok (record s { reservations = rows }, r.status)
unfolding reserve reserve_guards keep_or_book event_by_id admits can_see_invite_only booking_open
    booking_open_at is_event_guest
reserve_kept s rows donor id now event e r here m there active =
    rw (here, m.is_published, m.not_cancelled, m.upcoming, m.admitted, m.open_now, there, active)
      refl

-- A reservation that succeeds is found and left as it is when the donor asks again before the start:
-- the answer is the same, and nothing is written.
pub reserve_again :
    (s s' : Store) (donor id now event : ℕ) (e : Event) (status : Status)
    → event_by_id event s ≡ some e
    → reserve s donor id now event ≡ ok (s', status)
    → (id' later : ℕ) → now ≤ later
    → ltb later e.starts_at ≡ true
    → reserve s' donor id' later event ≡ ok (s', status)
unfolding booking_open
reserve_again s s' donor id now event e status here h id' later after early =
    let ((rows, made), (r, there, active, has)) = reserve_place s donor id now event h in
    let (e', here', m, _) = reserve_ok s donor id now event h in
    let both : some e' ≡ some e = sym here' ∙ here in
    let same : e' ≡ e = ground arith in
    let m' = rw same at m in
    let still : MayReserve s donor later e = record {
      is_published = m'.is_published;
      not_cancelled = m'.not_cancelled;
      upcoming = early;
      admitted = m'.admitted;
      open_now = booking_open_later s donor e.booking_opens_at now later after m'.open_now;
    } in
    rw (← made) (
      rw (← has)
        (reserve_kept s rows donor id' later event e r here still (rw (← made) at there) active))
