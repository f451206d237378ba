-- ===== src/Events/Staff.antt =====
-- What the staff does with an event: `Update`, `Publish`, the guest list, and `Cancel` of `EventService`.
use impact_graph.Base.{
  ℕ, String, Bool, not, ◌&&◌, Option, none, some, List, [], ◌∷◌, ◌++◌, ltb, nat_eq, leb,
  if◌then◌else◌, keep, any, map, Result, err, ok, ensure, ◌>>=◌, ◌>>◌,
}
use impact_graph.Events.{
  Event, Reservation, Status, Store, NoticeKey, EventError, event_by_id, or_error, is_some,
  is_active, with_status, update_where, queue_push, insert_message,
}
use impact_graph.Events.Gate.{is_event_guest}
use impact_graph.Events.Seats.{fill_seats}
use Status.{cancelled}
use NoticeKey.{event_cancelled_for}
use EventError.{no_rows, conflict, event_cancelled, reservation_closed}

-- The fields of a validated EventInput that the operations read.
pub record EventChanges : Type 0 where
  pub kind : String
  pub starts_at : ℕ
  pub ends_at : ℕ
  pub capacity : ℕ
  pub qualifying_perk : String
  pub booking_opens_at : Option ℕ

abbrev pub change_event : EventChanges → Event → Event
change_event c e = record e {
  kind = c.kind;
  starts_at = c.starts_at;
  ends_at = c.ends_at;
  capacity = c.capacity;
  qualifying_perk = c.qualifying_perk;
  booking_opens_at = c.booking_opens_at;
}

abbrev draft : EventChanges → ℕ → Event
draft c id = record {
  id = id;
  kind = c.kind;
  starts_at = c.starts_at;
  ends_at = c.ends_at;
  capacity = c.capacity;
  publish_state = "DRAFT";
  qualifying_perk = c.qualifying_perk;
  cancelled_at = none;
  booking_opens_at = c.booking_opens_at;
}

abbrev pub same_event : ℕ → Event → Bool
same_event id e = nat_eq e.id id

-- Create, with the identifier that NewID returns: a draft, whose identifier must be new. That its slug is
-- new too is left to the database.
unfoldable pub create : Store → EventChanges → ℕ → Result EventError Store
create s c id =
    if any (same_event id) s.events
    then err conflict
    else ok (record s { events = s.events ++ (draft c id ∷ []) })

-- Update: the changed event, whose free seats go to the waitlist while it is upcoming.
unfoldable pub update : Store → EventChanges → ℕ → ℕ → Result EventError Store
update s c now id = do
  e ← or_error no_rows (event_by_id id s)
  ensure (not (is_some e.cancelled_at)) event_cancelled
  let s' = record s { events = update_where (same_event id) (change_event c) s.events }
  if ltb now c.starts_at then fill_seats s' (change_event c e) now else ok s'

-- Publish, but for the alert job that it queues
unfoldable pub publish : Store → ℕ → Result EventError Store
publish s id = do
  e ← or_error no_rows (event_by_id id s)
  ensure (not (is_some e.cancelled_at)) event_cancelled
  ok (record s {
    events = update_where (same_event id) (λ e. record e { publish_state = "PUBLISHED" }) s.events;
  })

-- AddGuest
unfoldable pub add_guest : Store → ℕ → ℕ → Result EventError Store
add_guest s event donor = do
  e ← or_error no_rows (event_by_id event s)
  ok (
      if is_event_guest event donor s
      then s
      else record s { guests = s.guests ++ ((event, donor) ∷ []) })

-- RemoveGuest
unfoldable pub remove_guest : Store → ℕ → ℕ → Store
remove_guest s event donor = record s {
  guests = keep (λ (e, d). not (nat_eq e event && nat_eq d donor)) s.guests;
}

-- ReleaseEventReservations: the donors whose rows it cancels, and the rows afterwards.
abbrev pub holds_place : ℕ → Reservation → Bool
holds_place event r = nat_eq r.event_id event && is_active r.status

unfoldable pub holders : ℕ → List Reservation → List ℕ
holders event rows = map (λ r. r.donor_id) (keep (holds_place event) rows)

unfoldable pub release_all : ℕ → List Reservation → List Reservation
release_all event rows = update_where (holds_place event) (with_status cancelled) rows

-- The notices of a cancelled event, to each that held a place.
unfoldable pub notify_holders : Event → ℕ → List ℕ → Store → Store
notify_holders e now [] s = s
notify_holders e now (donor ∷ more) s = notify_holders e now more (record s {
  pushes =
      queue_push
        (record {
          donor_id = donor;
          category = "EVENT_CANCELLED";
          dedup_key = event_cancelled_for e.id donor;
          available_at = now;
          expires_at = e.ends_at;
        })
        s.pushes;
  messages =
      insert_message
        (record {
          donor_id = donor;
          kind = "EVENT_CANCELLED";
          dedup_key = event_cancelled_for e.id donor;
          available_at = now;
        })
        s.messages;
})

-- CancelEvent
abbrev pub set_cancelled : ℕ → Event → Event
set_cancelled now e = record e { cancelled_at = some now }

unfoldable pub cancel_event_at : Store → Event → ℕ → Store
cancel_event_at s e now = notify_holders e now (holders e.id s.reservations) (record s {
  events =
      update_where (λ x. nat_eq x.id e.id && not (is_some x.cancelled_at)) (set_cancelled now)
        s.events;
  reservations = release_all e.id s.reservations;
})

-- Cancel of EventService
unfoldable pub cancel_event : Store → ℕ → ℕ → Result EventError Store
cancel_event s now id = or_error no_rows (event_by_id id s) >>= λ e.
    if is_some e.cancelled_at
    then ok s
    else (ensure (leb now e.ends_at) reservation_closed >> ok (cancel_event_at s e now))
