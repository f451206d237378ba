-- ===== src/Events/Effects.antt =====
-- What each query that writes reservations does to the seats and the waitlist of every event.
use impact_graph.Base.{
  ℕ, suc, ◌≤◌, ◌≡◌, ◌≢◌, refl, Bool, true, false, not, ◌&&◌, some, List, count, arith, nat_eq,
}
use impact_graph.Events.{
  Reservation, Status, has_id, is_place, holds_seat, waits, with_status, is_reserved, is_waitlisted,
  is_active, update_where, waitlisted_count, waitlist_head, promote_reservation, reserved_count,
  reservation_for, set_reservation_status,
}
use impact_graph.Events.Staff.{release_all, holds_place}
use impact_graph.Events.Filled.{waitlist_head_sound}
use impact_graph.Events.Rows.{
  IsTable, Exists-map, find-Exists, count-update_where, update_where-count, count-none, count-never,
  update_where-none, count_unique, count_mono, count-update_where_le,
}
use Status.{reserved, waitlisted, cancelled}

-- The numbers of an event that a change leaves alone.
pub record SameAt (event : ℕ) (rows rows' : List Reservation) : Type 0 where
  pub seats : reserved_count event rows' ≡ reserved_count event rows
  pub waiting : waitlisted_count event rows' ≡ waitlisted_count event rows

module _ (q : Reservation → Bool) (f : Reservation → Reservation) (rows : List Reservation) where
  same_count :
      (p : Reservation → Bool)
      → count (λ r. q r && p (f r)) rows ≡ 0
      → count (λ r. q r && p r) rows ≡ 0
      → count p (update_where q f rows) ≡ count p rows
  same_count p h k =
      let up = count-update_where p q f rows in
      let down = update_where-count p q f rows in omega arith

  elsewhere :
      (event : ℕ)
      → count (λ r. q r && nat_eq r.event_id event) rows ≡ 0
      → (p : Reservation → Bool)
      → ((r : Reservation) → p r ≡ true → (q r && nat_eq r.event_id event) ≡ true)
      → count p rows ≡ 0
  elsewhere event nothing p h = count-none p (λ r. q r && nat_eq r.event_id event) h rows nothing

  -- Rows of other events change, and the numbers of this one do not.
  update_where-SameAt :
      (event : ℕ)
      → ((r : Reservation) → (f r).event_id ≡ r.event_id)
      → count (λ r. q r && nat_eq r.event_id event) rows ≡ 0
      → SameAt event rows (update_where q f rows)
  unfolding reserved_count waitlisted_count
  update_where-SameAt event keeps nothing = record {
    seats =
        same_count (holds_seat event)
          (elsewhere event nothing (λ r. q r && holds_seat event (f r))
            (λ r k. ground (arith, keeps r)))
          (elsewhere event nothing (λ r. q r && holds_seat event r) (λ r k. ground arith));
    waiting =
        same_count (waits event)
          (elsewhere event nothing (λ r. q r && waits event (f r)) (λ r k. ground (arith, keeps r)))
          (elsewhere event nothing (λ r. q r && waits event r) (λ r k. ground arith));
  }

module _ (event donor : ℕ) (rows : List Reservation) where
  -- A change of the places of one event leaves the others alone.
  pub place-SameAt :
      (f : Reservation → Reservation) (other : ℕ)
      → other ≢ event
      → ((r : Reservation) → (f r).event_id ≡ r.event_id)
      → SameAt other rows (update_where (is_place event donor) f rows)
  place-SameAt f other ne keeps = update_where-SameAt (is_place event donor) f rows other keeps (
      count-never (λ r. is_place event donor r && nat_eq r.event_id other) (λ r. ground arith) rows)

  -- Where the donor's reservation is none that holds a seat, no place of the donor does.
  pub no_seat :
      IsTable rows
      → (r : Reservation) → reservation_for event donor rows ≡ some r
      → is_reserved r.status ≡ false
      → count (λ x. is_place event donor x && holds_seat event x) rows ≡ 0
  unfolding reservation_for
  no_seat t r found unseated =
      count_unique (is_place event donor) (λ x. not (is_reserved x.status))
        (λ x. is_place event donor x && holds_seat event x) (λ x k. ground arith) rows
        (t.places event donor)
        (Exists-map (λ x (same, hit). (hit, rw same (rw unseated refl))) rows
          (find-Exists (is_place event donor) rows found))

  -- Cancelling a place takes no seat, and leaves the seats alone where the place was none.
  pub cancel_place-effect :
      (other : ℕ)
      → (reserved_count other (set_reservation_status event donor cancelled rows)
          ≤ reserved_count other rows)
        × (waitlisted_count other (set_reservation_status event donor cancelled rows)
            ≤ waitlisted_count other rows)
  unfolding reserved_count waitlisted_count set_reservation_status
  cancel_place-effect other = (
    count-update_where_le (holds_seat other) (is_place event donor) (with_status cancelled)
        (λ x _ k. ground arith) rows,
    count-update_where_le (waits other) (is_place event donor) (with_status cancelled)
        (λ x _ k. ground arith) rows,
  )

  pub cancel_waiting-effect :
      IsTable rows
      → (r : Reservation) → reservation_for event donor rows ≡ some r
      → is_reserved r.status ≡ false
      → reserved_count event rows
        ≤ reserved_count event (set_reservation_status event donor cancelled rows)
  unfolding reserved_count set_reservation_status
  cancel_waiting-effect t r found unseated =
      let lost = no_seat t r found unseated in
      let down =
        update_where-count (holds_seat event) (is_place event donor) (with_status cancelled) rows in
      omega arith

active_of_seat : (s : Status) → is_reserved s ≡ true → is_active s ≡ true
active_of_seat reserved h = refl
active_of_seat waitlisted h = cc
active_of_seat cancelled h = cc

active_of_wait : (s : Status) → is_waitlisted s ≡ true → is_active s ≡ true
active_of_wait reserved h = cc
active_of_wait waitlisted h = refl
active_of_wait cancelled h = cc

live_of_seat :
    (event : ℕ) (r : Reservation) → holds_seat event r ≡ true → holds_place event r ≡ true
live_of_seat event r h = ground (arith, active_of_seat r.status)

live_of_wait : (event : ℕ) (r : Reservation) → waits event r ≡ true → holds_place event r ≡ true
live_of_wait event r h = ground (arith, active_of_wait r.status)

-- Everyone's place at an event is cancelled.
pub release_all-effect :
    (event : ℕ) (rows : List Reservation)
    → (reserved_count event (release_all event rows) ≡ 0)
      × (waitlisted_count event (release_all event rows) ≡ 0)
unfolding reserved_count waitlisted_count release_all
release_all-effect event rows = (
  update_where-none (holds_seat event) (holds_place event) (with_status cancelled)
      (λ x. ground arith) (λ x k. live_of_seat event x k) rows,
  update_where-none (waits event) (holds_place event) (with_status cancelled) (λ x. ground arith)
      (λ x k. live_of_wait event x k) rows,
)

pub release_all-SameAt :
    (event other : ℕ) (rows : List Reservation)
    → other ≢ event
    → SameAt other rows (release_all event rows)
unfolding release_all
release_all-SameAt event other rows ne =
    update_where-SameAt (holds_place event) (with_status cancelled) rows other (λ r. refl)
      (count-never (λ r. holds_place event r && nat_eq r.event_id other) (λ r. ground arith) rows)

module _ (event : ℕ) (rows : List Reservation) (head : Reservation) where
  -- A promotion is of a row of its event alone.
  pub promote_reservation-SameAt :
      IsTable rows
      → waitlist_head event rows ≡ some head
      → (other : ℕ) → other ≢ event
      → SameAt other rows (promote_reservation head.id rows)
  unfolding promote_reservation
  promote_reservation-SameAt t found other ne =
      let best = waitlist_head_sound event rows found in
      update_where-SameAt (has_id head.id) (with_status reserved) rows other (λ r. refl)
        (count_unique (has_id head.id) (λ x. nat_eq x.event_id event)
          (λ x. has_id head.id x && nat_eq x.event_id other) (λ x k. ground arith) rows
          (t.ids head.id)
          (Exists-map (λ x same. let p = best.passes in rw same (ground arith)) rows best.member))

  -- It takes one seat at most.
  pub promote_reservation-effect :
      IsTable rows
      → reserved_count event (promote_reservation head.id rows) ≤ suc (reserved_count event rows)
  unfolding promote_reservation reserved_count
  promote_reservation-effect t =
      let up = count-update_where (holds_seat event) (has_id head.id) (with_status reserved) rows in
      let few =
        count_mono (λ r. has_id head.id r && holds_seat event (with_status reserved r))
          (has_id head.id) (λ x k. ground arith) rows in
      let one = t.ids head.id in omega arith
