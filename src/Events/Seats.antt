-- ===== src/Events/Seats.antt =====
-- Seats that free up go to the waitlist: `promoteWaitlistHead` and `fillSeats`.
use impact_graph.Base.{
  ℕ, zero, suc, Bool, ◌&&◌, Option, none, some, ltb, leb, if◌then◌else◌, Result, err, ok,
}
use impact_graph.Events.{
  Event, Reservation, Store, Push, Message, NoticeKey, EventError, reserved_count, waitlisted_count,
  waitlist_head, promote_reservation, queue_push, insert_message,
}
use NoticeKey.{event_promoted}
use EventError.{unfinished}

-- The notices of a promotion. The key holds the place in the queue, so a later one is a new notice.
abbrev pub promotion_push : Event → Reservation → ℕ → Push
promotion_push e head now = record {
  donor_id = head.donor_id;
  category = "EVENT_PROMOTED";
  dedup_key = event_promoted e.id head.donor_id head.reserved_at;
  available_at = now;
  expires_at = e.starts_at;
}

abbrev pub promotion_message : Event → Reservation → ℕ → Message
promotion_message e head now = record {
  donor_id = head.donor_id;
  kind = "EVENT_PROMOTED";
  dedup_key = event_promoted e.id head.donor_id head.reserved_at;
  available_at = now;
}

-- promoteWaitlistHead, with a head
unfoldable pub promoted : Store → Event → ℕ → Reservation → Store
promoted s e now head = record s {
  reservations = promote_reservation head.id s.reservations;
  pushes = queue_push (promotion_push e head now) s.pushes;
  messages = insert_message (promotion_message e head now) s.messages;
}

-- promoteWaitlistHead: `none` where nobody waits
unfoldable pub promote_waitlist_head : Store → Event → ℕ → Option Store
promote_waitlist_head s e now = elim (waitlist_head e.id s.reservations) [
  | none ↦ none
  | some head ↦ some (promoted s e now head)
]

-- `event.Capacity > 0` and `reserved >= int64(event.Capacity)`
unfoldable pub is_full : Event → Store → Bool
is_full e s = ltb 0 e.capacity && leb e.capacity (reserved_count e.id s.reservations)

-- The loop of fillSeats, a round for each unit of fuel.
unfoldable pub fill_rounds : ℕ → Store → Event → ℕ → Result EventError Store
fill_rounds zero s e now = err unfinished
fill_rounds (suc n) s e now =
    if is_full e s
    then ok s
    else elim (promote_waitlist_head s e now) [ none ↦ ok s | some s' ↦ fill_rounds n s' e now ]

-- fillSeats: each round but the last promotes one that waits.
unfoldable pub fill_seats : Store → Event → ℕ → Result EventError Store
fill_seats s e now = fill_rounds (suc (waitlisted_count e.id s.reservations)) s e now
