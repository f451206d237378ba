-- ===== src/Events.antt =====
-- Events and their reservations: apps/donor-api/internal/store/events.go and event_staff.go, with the
-- queries of db/events.sql that they run.
--
-- A UUID is the number its bytes spell, so the order of UUIDs is that of numbers. The columns that no
-- operation reads (texts of an event, the audit times of a row) are left out. A notice's key is kept as
-- the values that the code prints into it.
pub mod Gate
pub mod Seats
pub mod Booking
pub mod CheckIn
pub mod Staff
pub mod Rows
pub mod Filled
pub mod Becomes
pub mod Calendar
pub mod Token
pub mod Queue
pub mod Attended
pub mod Invited
pub mod Repeat
pub mod Changes
pub mod Donors
pub mod Capacity
pub mod Others
pub mod Steps
pub mod Filling
pub mod Upsert
pub mod Effects
use impact_graph.Base.Sort.{least}
use impact_graph.Base.{
  ℕ, ◌+◌, ◌*◌, String, Bool, true, false, not, ◌&&◌, ◌||◌, Option, none, some, List, [], ◌∷◌, ◌++◌,
  map, ltb, leb, nat_eq, ◌==◌, if◌then◌else◌, find, count, any, Result, err, ok,
}

pub data Status : Type 0 where
  reserved waitlisted cancelled : Status

abbrev pub is_reserved : Status → Bool
is_reserved reserved = true
is_reserved waitlisted = false
is_reserved cancelled = false

abbrev pub is_waitlisted : Status → Bool
is_waitlisted reserved = false
is_waitlisted waitlisted = true
is_waitlisted cancelled = false

-- `Status != reservationCancelled`
abbrev pub is_active : Status → Bool
is_active reserved = true
is_active waitlisted = true
is_active cancelled = false

-- Capacity 0 means uncapped; the database keeps it from being negative.
pub record Event : Type 0 where
  pub id : ℕ
  pub kind : String
  pub starts_at : ℕ
  pub ends_at : ℕ
  pub capacity : ℕ
  pub publish_state : String
  pub qualifying_perk : String
  pub cancelled_at : Option ℕ
  pub booking_opens_at : Option ℕ

pub record Reservation : Type 0 where
  pub id : ℕ
  pub event_id : ℕ
  pub donor_id : ℕ
  pub status : Status
  pub reserved_at : ℕ
  pub checked_in_at : Option ℕ

-- The parts of a notice's `dedup_key`: event, donor, and the place in the queue for a promotion.
pub data NoticeKey : Type 0 where
  event_promoted : ℕ → ℕ → ℕ → NoticeKey
  event_cancelled_for : ℕ → ℕ → NoticeKey

abbrev pub key_eq : NoticeKey → NoticeKey → Bool
key_eq (event_promoted e d at) (event_promoted e' d' at') =
    nat_eq e e' && (nat_eq d d' && nat_eq at at')
key_eq (event_cancelled_for e d) (event_cancelled_for e' d') = nat_eq e e' && nat_eq d d'
key_eq (event_promoted e d at) (event_cancelled_for e' d') = false
key_eq (event_cancelled_for e d) (event_promoted e' d' at') = false

pub record Push : Type 0 where
  pub donor_id : ℕ
  pub category : String
  pub dedup_key : NoticeKey
  pub available_at : ℕ
  pub expires_at : ℕ

pub record Message : Type 0 where
  pub donor_id : ℕ
  pub kind : String
  pub dedup_key : NoticeKey
  pub available_at : ℕ

-- The tables. `guests` holds pairs of an event and a donor, and `badge_codes` a donor's codes that are
-- not revoked.
pub record Store : Type 0 where
  pub events : List Event
  pub reservations : List Reservation
  pub guests : List (ℕ × ℕ)
  pub badge_codes : List (ℕ × String)
  pub pushes : List Push
  pub messages : List Message

-- The errors that the code returns; `no_rows` and `conflict` are the database's, and `unfinished`, which
-- is no error of the program, marks a loop that has run out of fuel.
pub data EventError : Type 0 where
  event_not_found event_cancelled reservation_closed booking_not_open : EventError
  check_in_invalid check_in_disabled no_rows conflict unfinished : EventError

abbrev pub or_error {ℓ} : {A : Type ℓ} → EventError → Option A → Result EventError A
or_error failure none = err failure
or_error failure (some a) = ok a

abbrev pub is_some {ℓ} : {A : Type ℓ} → Option A → Bool
is_some none = false
is_some (some a) = true

-- EventByID, LockEvent
unfoldable pub event_by_id : ℕ → Store → Option Event
event_by_id id s = find (λ e. nat_eq e.id id) s.events

-- A row of an event, and the row of a donor at an event.
abbrev pub holds_seat : ℕ → Reservation → Bool
holds_seat event r = nat_eq r.event_id event && is_reserved r.status

abbrev pub waits : ℕ → Reservation → Bool
waits event r = nat_eq r.event_id event && is_waitlisted r.status

abbrev pub is_place : ℕ → ℕ → Reservation → Bool
is_place event donor r = nat_eq r.event_id event && nat_eq r.donor_id donor

abbrev pub has_id : ℕ → Reservation → Bool
has_id id r = nat_eq r.id id

-- ReservedCount
unfoldable pub reserved_count : ℕ → List Reservation → ℕ
reserved_count event rows = count (holds_seat event) rows

-- How many rows WaitlistHead chooses from.
unfoldable pub waitlisted_count : ℕ → List Reservation → ℕ
waitlisted_count event rows = count (waits event) rows

-- ReservationFor
unfoldable pub reservation_for : ℕ → ℕ → List Reservation → Option Reservation
reservation_for event donor rows = find (is_place event donor) rows

-- `ORDER BY reserved_at ASC, id ASC`
abbrev pub queued_before : Reservation → Reservation → Bool
queued_before a b =
    ltb a.reserved_at b.reserved_at || (nat_eq a.reserved_at b.reserved_at && leb a.id b.id)

-- WaitlistHead
unfoldable pub waitlist_head : ℕ → List Reservation → Option Reservation
waitlist_head event rows = least queued_before (waits event) rows

abbrev pub with_status : Status → Reservation → Reservation
with_status status r = record r { status = status }

-- UPDATE ... WHERE: each row that passes the test is changed.
unfoldable pub update_where {ℓ} : {A : Type ℓ} → (A → Bool) → (A → A) → List A → List A
update_where p f [] = []
update_where p f (x ∷ xs) = let rest = update_where p f xs in if p x then f x ∷ rest else x ∷ rest

-- SetReservationStatus
unfoldable pub set_reservation_status : ℕ → ℕ → Status → List Reservation → List Reservation
set_reservation_status event donor status rows =
    update_where (is_place event donor) (with_status status) rows

-- PromoteReservation
unfoldable pub promote_reservation : ℕ → List Reservation → List Reservation
promote_reservation id rows = update_where (has_id id) (with_status reserved) rows

-- UpsertReservation: the row of the event and the donor is reused, and a new one must have a new id.
unfoldable pub upsert_reservation :
    Reservation → List Reservation → Result EventError (List Reservation)
upsert_reservation new rows =
    if any (is_place new.event_id new.donor_id) rows
    then ok (
        update_where (is_place new.event_id new.donor_id)
          (λ r. record r { status = new.status; reserved_at = new.reserved_at }) rows)
    else if any (has_id new.id) rows
    then err conflict
    else ok (rows ++ (new ∷ []))

-- QueueEventPush and InsertFinancialMessage: a key that is there already is left alone.
unfoldable pub queue_push : Push → List Push → List Push
queue_push new rows =
    if any (λ p. key_eq p.dedup_key new.dedup_key) rows then rows else rows ++ (new ∷ [])

unfoldable pub insert_message : Message → List Message → List Message
insert_message new rows =
    if any (λ m. key_eq m.dedup_key new.dedup_key) rows then rows else rows ++ (new ∷ [])
