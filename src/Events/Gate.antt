-- ===== src/Events/Gate.antt =====
-- Who may see and book an event: `canSeeInviteOnly`, `bookingOpen`, the gate of the donor-facing reads,
-- and the filter of `InviteOnlyEvents`.
use impact_graph.Base.{
  ℕ, ◌+◌, ◌*◌, String, Bool, true, false, not, ◌&&◌, ◌||◌, Option, none, some, List, [], ◌∷◌, ltb,
  leb, nat_eq, ◌==◌, if◌then◌else◌, keep, any, Result, ok, ensure, ◌>>=◌, ◌>>◌, Dict, insert,
}
use impact_graph.Badges.{holds_perk}
use impact_graph.Events.{Event, Store, EventError, event_by_id, or_error, is_some}
use EventError.{event_not_found}

-- DonorEarnedBadgeCodes, and the set that the code makes of them.
unfoldable pub earned_codes : ℕ → List (ℕ × String) → Dict Bool
earned_codes donor [] = []
earned_codes donor ((owner, code) ∷ more) =
    let rest = earned_codes donor more in if nat_eq owner donor then insert code true rest else rest

-- IsEventGuest
unfoldable pub is_event_guest : ℕ → ℕ → Store → Bool
is_event_guest event donor s = any (λ (e, d). nat_eq e event && nat_eq d donor) s.guests

-- canSeeInviteOnly: whether the donor passes, and whether by a perk.
unfoldable pub can_see_invite_only : Store → ℕ → Event → Bool × Bool
can_see_invite_only s donor e =
    let by_perk =
      if e.qualifying_perk == ""
      then false
      else holds_perk (earned_codes donor s.badge_codes) e.qualifying_perk in
    if by_perk then (true, true) else (is_event_guest e.id donor s, false)

-- earlyBookingLead, 48 hours
abbrev pub early_booking_lead : ℕ
early_booking_lead = 48 * 3600 * 1000000000

-- `now.Before(at.Add(-earlyBookingLead))` is `now + early_booking_lead < at`.
unfoldable pub booking_open_at : Store → ℕ → Option ℕ → ℕ → Bool × Bool
booking_open_at s donor none now = (true, false)
booking_open_at s donor (some at) now =
    if leb at now
    then (true, false)
    else if ltb (now + early_booking_lead) at
    then (false, false)
    else let captain = holds_perk (earned_codes donor s.badge_codes) "TEAM_CAPTAIN" in
      (captain, captain)

-- bookingOpen: whether the donor may reserve now, and whether only as a Team Captain.
unfoldable pub booking_open : Store → ℕ → Event → ℕ → Bool × Bool
unfolding booking_open_at
booking_open s donor e now = booking_open_at s donor e.booking_opens_at now

abbrev pub published : Event → Bool
published e = e.publish_state == "PUBLISHED"

abbrev pub invite_only : Event → Bool
invite_only e = e.kind == "INVITE_ONLY"

-- The gate that a read or a reservation of a signed-in donor puts before an invite-only event.
unfoldable pub admits : Store → ℕ → Event → Bool
unfolding can_see_invite_only
admits s donor e = if invite_only e then (can_see_invite_only s donor e).0 else true

-- DetailForDonor up to the view: which event is shown, and whether with the note of a perk.
unfoldable pub detail_for_donor : Store → ℕ → ℕ → Result EventError (Event × Bool)
detail_for_donor s donor id = do
  e ← or_error event_not_found (event_by_id id s)
  ensure (published e) event_not_found
  ensure (admits s donor e) event_not_found
  ok (e, if invite_only e then (can_see_invite_only s donor e).1 else false)

-- Detail, the anonymous read.
unfoldable pub detail : Store → ℕ → Result EventError Event
detail s id = do
  e ← or_error event_not_found (event_by_id id s)
  ensure (published e && not (invite_only e)) event_not_found
  ok e

-- Calendar and CalendarForDonor: the event whose calendar is printed.
unfoldable pub calendar : Store → ℕ → Result EventError Event
calendar s id = do
  e ← or_error event_not_found (event_by_id id s)
  ensure (published e && (not (invite_only e) && not (is_some e.cancelled_at))) event_not_found
  ok e

unfoldable pub calendar_for_donor : Store → ℕ → ℕ → Result EventError Event
calendar_for_donor s donor id = do
  e ← or_error event_not_found (event_by_id id s)
  ensure (published e && not (is_some e.cancelled_at)) event_not_found
  ensure (admits s donor e) event_not_found
  ok e

-- The loop of `InviteOnlyEvents` over its candidates: what is visible, and whether by a perk.
unfoldable pub visible_events : Store → ℕ → List Event → List (Event × Bool)
visible_events s donor [] = []
visible_events s donor (e ∷ es) =
    let rest = visible_events s donor es in
    let perk = holds_perk (earned_codes donor s.badge_codes) e.qualifying_perk in
    if perk || is_event_guest e.id donor s then (e, perk) ∷ rest else rest

-- UpcomingInviteOnlyEvents, before its order and its limit.
unfoldable pub upcoming_invite_only : ℕ → List Event → List Event
upcoming_invite_only now es =
    keep
      (λ e. published e && (not (is_some e.cancelled_at) && (invite_only e && ltb now e.starts_at)))
      es
