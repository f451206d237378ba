-- ===== src/Events/Attended.antt =====
-- A scan of a donor, and a second one.
use impact_graph.Base.{
  ℕ, ◌≡◌, refl, sym, ◌∙◌, inl, inr, Bool, true, false, not, ◌&&◌, some, List, [], ◌∷◌, arith,
  Bool-cases, find, find-true, ok, and_split,
}
use impact_graph.Events.{
  Event, Reservation, Status, Store, event_by_id, reservation_for, update_where, is_place,
  is_active, is_reserved, is_some,
}
use impact_graph.Events.Gate.{published}
use impact_graph.Events.CheckIn.{check_in, mark_attended, check_in_reservation, in_window}
use impact_graph.Events.Others.{check_in_ok, mark_attended_ok}
use Status.{reserved, waitlisted, cancelled}

-- The first match after a change that keeps the matches.
find-update_where_found :
    {A : Type 0} (p q : A → Bool) (f : A → A) (xs : List A) {r : A}
    → ((x : A) → p (f x) ≡ p x)
    → find p xs ≡ some r
    → q r ≡ true
    → find p (update_where q f xs) ≡ some (f r)
unfolding find update_where
find-update_where_found p q f [] keeps h k = cc
find-update_where_found p q f (x ∷ xs) {r} keeps h k = elim (Bool-cases (p x)) [
  | inl hit ↦
      let same : x ≡ r = ground arith in
      let hit' = rw same at hit in let now = keeps r in rw same (rw k (rw now (rw hit' refl)))
  | inr miss ↦
      let rest = find-update_where_found p q f xs keeps (rw miss at h) k in
      let now = keeps x in
      elim (Bool-cases (q x)) [
        | inl changed ↦ rw changed (rw now (rw miss rest))
        | inr kept ↦ rw kept (rw miss rest)
      ]
]

active_of_reserved : (s : Status) → is_reserved s ≡ true → is_active s ≡ true
active_of_reserved reserved h = refl
active_of_reserved waitlisted h = cc
active_of_reserved cancelled h = cc

-- The stamp is on the row that the donor's place is.
stamp_place :
    (event donor now : ℕ) (rows : List Reservation) (r : Reservation)
    → reservation_for event donor rows ≡ some r
    → is_reserved r.status ≡ true
    → is_some r.checked_in_at ≡ false
    → reservation_for event donor (check_in_reservation event donor now rows)
      ≡ some (record r { checked_in_at = some now })
unfolding reservation_for check_in_reservation
stamp_place event donor now rows r place seated unstamped =
    let here = find-true (is_place event donor) rows place in
    let active = active_of_reserved r.status seated in
    find-update_where_found (is_place event donor) _ _ rows (λ x. refl) place
      (rw (here, active, unstamped) refl)

check_in_kept :
    (s : Store) (rows : List Reservation) (donor now event : ℕ) (e : Event) (r : Reservation)
    → event_by_id event s ≡ some e
    → (published e && (not (is_some e.cancelled_at) && in_window e now)) ≡ true
    → reservation_for event donor rows ≡ some r
    → is_reserved r.status ≡ true
    → is_some r.checked_in_at ≡ true
    → check_in (record s { reservations = rows }) donor now event
      ≡ ok (record s { reservations = rows }, true)
unfolding check_in mark_attended event_by_id
check_in_kept s rows donor now event e r here fits place seated stamped =
    rw (here, fits, place, seated, stamped) refl

window_parts :
    (e : Event) (now : ℕ)
    → (published e && (not (is_some e.cancelled_at) && in_window e now)) ≡ true
    → (published e ≡ true) × (not (is_some e.cancelled_at) ≡ true) × (in_window e now ≡ true)
window_parts e now h =
    let (a, rest) = and_split (published e) _ h in
    let (b, c) = and_split (not (is_some e.cancelled_at)) _ rest in (a, b, c)

-- A donor whose scan succeeds held a seat at a published event that is not cancelled and is under way,
-- and a second scan of the donor while it lasts succeeds too, answers that the donor was in already,
-- and writes nothing.
pub check_in_again :
    (s s' : Store) (donor now event : ℕ) (e : Event) (before : Bool)
    → event_by_id event s ≡ some e
    → check_in s donor now event ≡ ok (s', before)
    → (later : ℕ) → in_window e later ≡ true
    → ((published e && (not (is_some e.cancelled_at) && in_window e now)) ≡ true)
      × ((r : Reservation) × (reservation_for event donor s.reservations ≡ some r)
          × (is_reserved r.status ≡ true))
      × (check_in s' donor later event ≡ ok (s', true))
check_in_again s s' donor now event e before here h later during =
    let (e', here', fits, (r, place, marked)) = check_in_ok s donor now event h in
    let both : some e' ≡ some e = sym here' ∙ here in
    let same : e' ≡ e = ground arith in
    let (open_event, live, _) = window_parts e now (rw same at fits) in
    let still : (published e && (not (is_some e.cancelled_at) && in_window e later)) ≡ true =
      rw (open_event, live, during) refl in
    let (seated, how) = mark_attended_ok s event donor now r marked in
    (
      rw same at fits,
      (r, place, seated),
      elim how [
        | inl (kept, _, stamped) ↦
            rw (← kept)
              (check_in_kept s s.reservations donor later event e r here still place seated stamped)
        | inr (written, _, unstamped) ↦
            let after = stamp_place event donor now s.reservations r place seated unstamped in
            rw (← written) (
              check_in_kept s (check_in_reservation event donor now s.reservations) donor later
                event e (record r { checked_in_at = some now }) here still after seated refl)
      ],
    )
