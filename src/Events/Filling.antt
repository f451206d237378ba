-- ===== src/Events/Filling.antt =====
-- What `fillSeats` does to the seats of its event, to the other events and to the other tables.
use impact_graph.Base.{
  ℕ, suc, ◌≤◌, ◌≡◌, ◌≢◌, refl, ◌∙◌, ◌⊎◌, inl, inr, false, some, List, arith, ok,
}
use impact_graph.Events.{
  Event, Reservation, Status, Store, reserved_count, waitlisted_count, waitlist_head, has_id,
  with_status, promote_reservation,
}
use impact_graph.Events.Seats.{promoted, is_full, fill_seats}
use impact_graph.Events.Rows.{IsTable, update_where-IsTable}
use impact_graph.Events.Filled.{IsFilled, fill_rounds_inv, fill_seats_finishes}
use impact_graph.Events.Effects.{SameAt, promote_reservation-SameAt, promote_reservation-effect}

-- The seats of an event are no more than before, or have no bound, or stay within the capacity.
abbrev pub Within : Event → List Reservation → List Reservation → Type 0
Within e rows rows' =
    (reserved_count e.id rows' ≤ reserved_count e.id rows)
    ⊎ (e.capacity ≡ 0)
    ⊎ (reserved_count e.id rows' ≤ e.capacity)

pub record IsFilling (e : Event) (s s' : Store) : Type 0 where
  pub table : IsTable s'.reservations
  pub events : s'.events ≡ s.events
  pub others : (k : ℕ) → k ≢ e.id → SameAt k s.reservations s'.reservations
  pub seats : Within e s.reservations s'.reservations

pub SameAt-trans : {k : ℕ} {a b c : List Reservation} → SameAt k a b → SameAt k b c → SameAt k a c
SameAt-trans h g = record { seats = g.seats ∙ h.seats; waiting = g.waiting ∙ h.waiting }

pub promote-IsTable :
    (id : ℕ) (rows : List Reservation) → IsTable rows → IsTable (promote_reservation id rows)
unfolding promote_reservation
promote-IsTable id rows t =
    update_where-IsTable (has_id id) (with_status Status.reserved) (λ r. (refl, refl, refl)) rows t

pub room_left :
    (e : Event) (s : Store)
    → is_full e s ≡ false
    → (e.capacity ≡ 0) ⊎ (suc (reserved_count e.id s.reservations) ≤ e.capacity)
unfolding is_full
room_left e s h = ground arith

promoted-IsFilling :
    (e : Event) (now : ℕ) (s₀ s : Store) (head : Reservation)
    → IsFilling e s₀ s
    → is_full e s ≡ false
    → waitlist_head e.id s.reservations ≡ some head
    → IsFilling e s₀ (promoted s e now head)
unfolding promoted
promoted-IsFilling e now s₀ s head f room found = record {
  table = promote-IsTable head.id s.reservations f.table;
  events = f.events;
  others = λ k ne.
      SameAt-trans (f.others k ne)
        (promote_reservation-SameAt e.id s.reservations head f.table found k ne);
  seats = elim (room_left e s room) [
    | inl uncapped ↦ inr (inl uncapped)
    | inr room ↦
        let one = promote_reservation-effect e.id s.reservations head f.table in
        inr (inr (omega arith))
  ];
}

pub fill_seats-IsFilling :
    (s : Store) (e : Event) (now : ℕ) {s' : Store}
    → IsTable s.reservations
    → fill_seats s e now ≡ ok s'
    → IsFilling e s s' × IsFilled e s'
unfolding fill_seats
fill_seats-IsFilling s e now {s'} t h =
    let start : IsFilling e s s = record {
      table = t;
      events = refl;
      others = λ k ne. record { seats = refl; waiting = refl };
      seats = inl (omega arith);
    } in
    let (last, ends, filled) = fill_seats_finishes s e now in
    let same : last ≡ s' = ground arith in
    (
      fill_rounds_inv (IsFilling e s) e now (promoted-IsFilling e now s)
          (suc (waitlisted_count e.id s.reservations)) s start h,
      rw same at filled,
    )
