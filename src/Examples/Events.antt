-- ===== src/Examples/Events.antt =====
-- The theorems on reservations, at an event with one seat and two donors who wait for it.
use impact_graph.Base.{
  ℕ, ◌≤◌, ◌<◌, String, ◌≡◌, refl, ◌⊎◌, inl, inr, Bool, true, false, not, ◌&&◌, Option, none, some,
  List, [], ◌∷◌, arith, Result, ok, count, nat_eq, Bool-cases, if◌then◌else◌, map, keep, ltb,
  some_inj,
}
use impact_graph.Events.{
  Event, Reservation, Status, Store, Push, Message, NoticeKey, reserved_count, event_by_id,
  holds_seat, waits, queued_before, is_place, has_id, reservation_for, is_reserved, is_some,
}
use impact_graph.Events.Gate.{published, visible_events, can_see_invite_only}
use impact_graph.Events.Seats.{fill_seats, is_full}
use impact_graph.Events.Booking.{reserve, cancel}
use impact_graph.Events.CheckIn.{check_in, in_window}
use impact_graph.Events.Rows.{IsTable}
use impact_graph.Events.Filled.{IsFilled, fill_seats_finishes}
use impact_graph.Events.Steps.{Step}
use impact_graph.Events.Capacity.{History, IsServed, no_overbooking, no_idle_seat}
use impact_graph.Events.Queue.{first_come_first_served}
use impact_graph.Events.Repeat.{reserve_again}
use impact_graph.Events.Attended.{check_in_again}
use impact_graph.Events.Invited.{visible_events-can_see_invite_only}
use Status.{reserved, waitlisted, cancelled}
use Step.{cancels}
use History.{begin, next}

abbrev walk : Event
walk = record {
  id = 1;
  kind = "COMMUNITY";
  starts_at = 100;
  ends_at = 200;
  capacity = 1;
  publish_state = "PUBLISHED";
  qualifying_perk = "";
  cancelled_at = none;
  booking_opens_at = none;
}

abbrev place : ℕ → ℕ → Status → ℕ → Reservation
place id donor status at = record {
  id = id;
  event_id = 1;
  donor_id = donor;
  status = status;
  reserved_at = at;
  checked_in_at = none;
}

abbrev store : List Reservation → List Push → List Message → Store
store rows pushes messages = record {
  events = walk ∷ [];
  reservations = rows;
  guests = [];
  badge_codes = [];
  pushes = pushes;
  messages = messages;
}

-- Donor 5 holds the seat; donors 7 and 6 wait, 6 from before 7.
abbrev crowd : Store
crowd =
    store (place 10 5 reserved 10 ∷ place 12 7 waitlisted 30 ∷ place 11 6 waitlisted 20 ∷ []) [] []

abbrev promoted_push : Push
promoted_push = record {
  donor_id = 6;
  category = "EVENT_PROMOTED";
  dedup_key = NoticeKey.event_promoted 1 6 20;
  available_at = 50;
  expires_at = 100;
}

abbrev promoted_message : Message
promoted_message = record {
  donor_id = 6;
  kind = "EVENT_PROMOTED";
  dedup_key = NoticeKey.event_promoted 1 6 20;
  available_at = 50;
}

abbrev rows_after : List Reservation
rows_after = place 10 5 cancelled 10 ∷ place 12 7 waitlisted 30 ∷ place 11 6 reserved 20 ∷ []

-- Donor 5 cancels, and donor 6 has the seat.
abbrev crowd_after : Store
crowd_after = store rows_after (promoted_push ∷ []) (promoted_message ∷ [])

cancel-crowd : cancel crowd 5 50 1 ≡ ok (crowd_after, cancelled)
unfolding cancel event_by_id impact_graph.Base.find reservation_for
    impact_graph.Events.Booking.cancel_place impact_graph.Events.Booking.release fill_seats
    impact_graph.Events.Seats.fill_rounds is_full reserved_count count
    impact_graph.Events.set_reservation_status impact_graph.Events.update_where
    impact_graph.Events.Seats.promote_waitlist_head impact_graph.Events.waitlist_head
    impact_graph.Base.Sort.least impact_graph.Events.waitlisted_count impact_graph.Base.any
    impact_graph.Events.Seats.promoted impact_graph.Events.insert_message
    impact_graph.Events.promote_reservation impact_graph.Events.queue_push
cancel-crowd = refl

crowd-IsTable : IsTable crowd.reservations
unfolding count
crowd-IsTable = record { places = λ event donor. ground arith; ids = λ id. ground arith }

found_walk :
    (s : Store) → s.events ≡ walk ∷ [] → (k : ℕ) (e : Event) → event_by_id k s ≡ some e → walk ≡ e
unfolding event_by_id impact_graph.Base.find
found_walk s h k e found =
    let f = rw h at found in
    elim (Bool-cases (nat_eq 1 k)) [
      | inl hit ↦ some_inj.0 (rw hit at f)
      | inr miss ↦ let g = rw miss at f in cc
    ]

crowd-IsServed : IsServed 0 crowd
unfolding is_full reserved_count count
crowd-IsServed = record {
  table = crowd-IsTable;
  served = λ k e found early. let same = found_walk crowd refl k e found in rw (← same) (inl refl);
}

no_overbooking_example : reserved_count 1 crowd_after.reservations ≤ 1
unfolding reserved_count count event_by_id impact_graph.Base.find
no_overbooking_example = no_overbooking 1 1 0 crowd 50 crowd_after crowd-IsTable (omega arith) (
    next 50 begin (omega arith) (cancels 5 1 cancelled cancel-crowd)
      (record { state = walk; found = refl; capped = omega arith; bounded = omega arith }))

no_idle_seat_example : IsServed 50 crowd_after
no_idle_seat_example =
    no_idle_seat 0 crowd 50 crowd_after crowd-IsServed
      (next 50 begin (omega arith) (cancels 5 1 cancelled cancel-crowd) tt)

-- The seat of donor 5 is free.
abbrev crowd_freed : Store
crowd_freed =
    store (place 10 5 cancelled 10 ∷ place 12 7 waitlisted 30 ∷ place 11 6 waitlisted 20 ∷ []) [] []

freed-IsTable : IsTable crowd_freed.reservations
unfolding count
freed-IsTable = record { places = λ event donor. ground arith; ids = λ id. ground arith }

fill-freed : fill_seats crowd_freed walk 50 ≡ ok crowd_after
unfolding fill_seats impact_graph.Events.Seats.fill_rounds is_full reserved_count count
    impact_graph.Events.Seats.promote_waitlist_head impact_graph.Events.waitlist_head
    impact_graph.Base.Sort.least impact_graph.Events.waitlisted_count
    impact_graph.Events.Seats.promoted impact_graph.Events.promote_reservation
    impact_graph.Events.update_where impact_graph.Events.queue_push
    impact_graph.Events.insert_message impact_graph.Base.any
fill-freed = refl

fill_seats_finishes_example :
    (s' : Store) × (fill_seats crowd_freed walk 50 ≡ ok s') × IsFilled walk s'
fill_seats_finishes_example = fill_seats_finishes crowd_freed walk 50

first_come_first_served_example :
    queued_before (place 11 6 waitlisted 20) (place 12 7 waitlisted 30) ≡ true
first_come_first_served_example =
    first_come_first_served crowd_freed crowd_after walk 50 freed-IsTable fill-freed
      (place 11 6 waitlisted 20) (place 12 7 waitlisted 30) (place 11 6 reserved 20)
      (inr (inr (inl refl))) refl (inr (inr (inl refl))) refl refl (inr (inl refl)) refl

-- Donor 8 books and waits behind the others.
abbrev crowd_of_four : Store
crowd_of_four =
    store
      (place 10 5 reserved 10
        ∷ place 12 7 waitlisted 30
        ∷ place 11 6 waitlisted 20
        ∷ place 13 8 waitlisted 40
        ∷ [])
      [] []

reserve-crowd : reserve crowd 8 13 40 1 ≡ ok (crowd_of_four, waitlisted)
unfolding reserve event_by_id impact_graph.Base.find impact_graph.Events.Booking.reserve_guards
    impact_graph.Events.Gate.admits impact_graph.Events.Gate.booking_open
    impact_graph.Events.Booking.keep_or_book reservation_for impact_graph.Events.Booking.book
    impact_graph.Events.upsert_reservation impact_graph.Base.any is_full reserved_count count
reserve-crowd = refl

reserve_again_example : reserve crowd_of_four 8 14 60 1 ≡ ok (crowd_of_four, waitlisted)
unfolding event_by_id impact_graph.Base.find
reserve_again_example =
    reserve_again crowd crowd_of_four 8 13 40 1 walk waitlisted refl reserve-crowd 14 60
      (omega arith) refl

-- Donor 5 is scanned.
abbrev seat_attended : Reservation
seat_attended = record {
  id = 10;
  event_id = 1;
  donor_id = 5;
  status = reserved;
  reserved_at = 10;
  checked_in_at = some 120;
}

abbrev attended : Store
attended = store (seat_attended ∷ place 12 7 waitlisted 30 ∷ place 11 6 waitlisted 20 ∷ []) [] []

check_in-crowd : check_in crowd 5 120 1 ≡ ok (attended, false)
unfolding check_in event_by_id impact_graph.Base.find reservation_for
    impact_graph.Events.CheckIn.mark_attended impact_graph.Events.CheckIn.check_in_reservation
    impact_graph.Events.update_where
check_in-crowd = refl

check_in_again_example :
    ((published walk && (not (is_some walk.cancelled_at) && in_window walk 120)) ≡ true)
    × ((r : Reservation) × (reservation_for 1 5 crowd.reservations ≡ some r)
        × (is_reserved r.status ≡ true))
    × (check_in attended 5 150 1 ≡ ok (attended, true))
unfolding event_by_id impact_graph.Base.find
check_in_again_example =
    check_in_again crowd attended 5 120 1 walk false refl check_in-crowd 150 refl

-- An invite-only event whose guest is donor 6.
abbrev gala : Event
gala = record {
  id = 2;
  kind = "INVITE_ONLY";
  starts_at = 100;
  ends_at = 200;
  capacity = 0;
  publish_state = "PUBLISHED";
  qualifying_perk = "FOUNDING_EVENTS";
  cancelled_at = none;
  booking_opens_at = none;
}

abbrev invited : Store
invited = record crowd { events = gala ∷ []; guests = (2, 6) ∷ []; badge_codes = (5, "F") ∷ [] }

visible_events-can_see_invite_only_example :
    visible_events invited 6 (gala ∷ [])
    ≡ map
        (λ e. (e, (can_see_invite_only invited 6 e).1))
        (keep (λ e. (can_see_invite_only invited 6 e).0) (gala ∷ []))
visible_events-can_see_invite_only_example =
    visible_events-can_see_invite_only invited 6 (gala ∷ [])
