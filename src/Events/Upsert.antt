-- ===== src/Events/Upsert.antt =====
-- What `UpsertReservation` does to a table where the donor holds no active place at the event.
use impact_graph.Base.{
  ℕ, suc, ◌+◌, ◌≤◌, ◌≡◌, ◌≢◌, refl, ◌⊎◌, inl, inr, Bool, true, false, ◌&&◌, some, List, [], ◌∷◌,
  ◌++◌, count, any, arith, Bool-cases, Option-cases, if◌then◌else◌, ok, find, ◌∙◌,
}
use impact_graph.Events.{
  Reservation, Status, has_id, is_place, holds_seat, waits, is_reserved, is_active, update_where,
  waitlisted_count, reserved_count, reservation_for, upsert_reservation,
}
use impact_graph.Events.Effects.{SameAt, no_seat, place-SameAt}
use impact_graph.Events.Rows.{
  IsTable, update_where-IsTable, count-update_where, update_where-count, count-none, count-never,
  count-append, count-any, count_mono, find-count,
}
use Status.{reserved, waitlisted, cancelled}

-- What the update writes into the donor's row.
abbrev pub rebook : Reservation → Reservation → Reservation
rebook new r = record r { status = new.status; reserved_at = new.reserved_at }

module _ (new : Reservation) (rows : List Reservation) where
  abbrev here : Reservation → Bool
  here = is_place new.event_id new.donor_id

  pub upsert_cases :
      {rows' : List Reservation}
      → upsert_reservation new rows ≡ ok rows'
      → ((update_where here (rebook new) rows ≡ rows') × (any here rows ≡ true))
        ⊎ ((rows ++ (new ∷ []) ≡ rows')
            × (any here rows ≡ false)
            × (any (has_id new.id) rows ≡ false))
  unfolding upsert_reservation
  upsert_cases h = elim (Bool-cases (any here rows)) [
    | inl there ↦ inl (ground arith, there)
    | inr absent ↦ elim (Bool-cases (any (has_id new.id) rows)) [
      | inl taken ↦ absurd (ground arith)
      | inr free ↦ inr (ground arith, absent, free)
    ]
  ]

  appended :
      (p : Reservation → Bool)
      → count p (rows ++ (new ∷ [])) ≡ count p rows + (if p new then 1 else 0)
  unfolding count
  appended p = let e = count-append p rows (new ∷ []) in ground arith

  one_more :
      (p : Reservation → Bool)
      → (p new ≡ true → count p rows ≡ 0)
      → count p rows ≤ 1
      → count p (rows ++ (new ∷ [])) ≤ 1
  one_more p fresh one =
      let e = appended p in
      elim (Bool-cases (p new)) [
        | inl hit ↦ let none_yet = fresh hit in ground arith
        | inr miss ↦ ground arith
      ]

  append-IsTable :
      IsTable rows
      → any here rows ≡ false
      → any (has_id new.id) rows ≡ false
      → IsTable (rows ++ (new ∷ []))
  append-IsTable t absent free = record {
    places = λ event donor.
        one_more (is_place event donor)
          (λ hit.
            count-none (is_place event donor) here (λ r k. ground arith) rows
              (count-any here rows absent))
          (t.places event donor);
    ids = λ id.
        one_more (has_id id)
          (λ hit.
            count-none (has_id id) (has_id new.id) (λ r k. ground arith) rows
              (count-any (has_id new.id) rows free))
          (t.ids id);
  }

  pub upsert-IsTable :
      {rows' : List Reservation}
      → IsTable rows
      → upsert_reservation new rows ≡ ok rows'
      → IsTable rows'
  upsert-IsTable t h = elim (upsert_cases h) [
    | inl (e, _) ↦
        rw (← e) (update_where-IsTable here (rebook new) (λ r. (refl, refl, refl)) rows t)
    | inr (e, absent, free) ↦ rw (← e) (append-IsTable t absent free)
  ]

  pub upsert-SameAt :
      {rows' : List Reservation} (other : ℕ)
      → other ≢ new.event_id
      → upsert_reservation new rows ≡ ok rows'
      → SameAt other rows rows'
  unfolding reserved_count waitlisted_count
  upsert-SameAt other ne h = elim (upsert_cases h) [
    | inl (e, _) ↦
        rw (← e) (place-SameAt new.event_id new.donor_id rows (rebook new) other ne (λ r. refl))
    | inr (e, absent, free) ↦ rw (← e) (record {
      seats = appended (holds_seat other) ∙ ground arith;
      waiting = appended (waits other) ∙ ground arith;
    })
  ]

  -- A place that is booked adds one to a test at most, and nothing to a test that it fails.
  booked-count :
      (p : Reservation → Bool) {rows' : List Reservation}
      → IsTable rows
      → upsert_reservation new rows ≡ ok rows'
      → count p rows' ≤ suc (count p rows)
  booked-count p t h = elim (upsert_cases h) [
    | inl (e, _) ↦
        let up = count-update_where p here (rebook new) rows in
        let few = count_mono (λ r. here r && p (rebook new r)) here (λ x k. ground arith) rows in
        let one = t.places new.event_id new.donor_id in rw (← e) (omega arith)
    | inr (e, absent, free) ↦ let a = appended p in rw (← e) (ground arith)
  ]

  booked-kept :
      (p : Reservation → Bool) {rows' : List Reservation}
      → ((r : Reservation) → p (rebook new r) ≡ false)
      → p new ≡ false
      → upsert_reservation new rows ≡ ok rows'
      → count p rows' ≤ count p rows
  booked-kept p f g h = elim (upsert_cases h) [
    | inl (e, _) ↦
        let up = count-update_where p here (rebook new) rows in
        let none_new =
          count-never (λ r. here r && p (rebook new r)) (λ r. ground (arith, f r)) rows in
        rw (← e) (omega arith)
    | inr (e, absent, free) ↦ let a = appended p in rw (← e) (ground arith)
  ]

  -- The donor has no place that is active.
  abbrev pub IsIdle : Type 0
  IsIdle =
      (r : Reservation)
      → reservation_for new.event_id new.donor_id rows ≡ some r
      → is_active r.status ≡ false

  unseated : (s : Status) → is_active s ≡ false → is_reserved s ≡ false
  unseated reserved h = cc
  unseated waitlisted h = refl
  unseated cancelled h = refl

  idle-seat : IsTable rows → IsIdle → count (λ x. here x && holds_seat new.event_id x) rows ≡ 0
  unfolding reservation_for
  idle-seat t idle = elim (Option-cases (find here rows)) [
    | inl absent ↦
        count-none (λ x. here x && holds_seat new.event_id x) here (λ x k. ground arith) rows
          (find-count here rows absent)
    | inr (r, found) ↦
        no_seat new.event_id new.donor_id rows t r found (unseated r.status (idle r found))
  ]

  -- No seat is lost by a booking.
  pub upsert-seats :
      {rows' : List Reservation}
      → IsTable rows
      → IsIdle
      → upsert_reservation new rows ≡ ok rows'
      → reserved_count new.event_id rows ≤ reserved_count new.event_id rows'
  unfolding reserved_count
  upsert-seats t idle h = elim (upsert_cases h) [
    | inl (e, _) ↦
        let lost = idle-seat t idle in
        let down = update_where-count (holds_seat new.event_id) here (rebook new) rows in
        rw (← e) (omega arith)
    | inr (e, absent, free) ↦ let a = appended (holds_seat new.event_id) in rw (← e) (ground arith)
  ]

  -- A seat that is booked is one more at most, and no place of the waitlist.
  pub upsert_reserved-effect :
      {rows' : List Reservation}
      → IsTable rows
      → new.status ≡ reserved
      → upsert_reservation new rows ≡ ok rows'
      → (reserved_count new.event_id rows' ≤ suc (reserved_count new.event_id rows))
        × (waitlisted_count new.event_id rows' ≤ waitlisted_count new.event_id rows)
  unfolding reserved_count waitlisted_count
  upsert_reserved-effect t seated h = (
    booked-count (holds_seat new.event_id) t h,
    booked-kept (waits new.event_id) (λ r. rw seated (ground arith)) (rw seated (ground arith)) h,
  )

  -- A place on the waitlist is no seat.
  pub upsert_waitlisted-effect :
      {rows' : List Reservation}
      → new.status ≡ waitlisted
      → upsert_reservation new rows ≡ ok rows'
      → reserved_count new.event_id rows' ≤ reserved_count new.event_id rows
  unfolding reserved_count
  upsert_waitlisted-effect waiting h =
      booked-kept (holds_seat new.event_id) (λ r. rw waiting (ground arith))
        (rw waiting (ground arith)) h
