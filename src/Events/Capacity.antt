-- ===== src/Events/Capacity.antt =====
-- Any sequence of operations: no seat beyond the capacity, and no idle seat before the start.
use impact_graph.Base.{ℕ, ◌≤◌, ◌<◌, ◌≡◌, inl, inr, some, arith}
use impact_graph.Events.{Event, Store, event_by_id, reserved_count}
use impact_graph.Events.Rows.{IsTable}
use impact_graph.Events.Filled.{IsFilled}
use impact_graph.Events.Steps.{Step}
use impact_graph.Events.Others.{
  check_in-IsQuiet, check_in_attendee-IsQuiet, add_guest-IsQuiet, remove_guest-IsQuiet,
}
use impact_graph.Events.Becomes.{IsEffect, event_by_id-id, quiet-IsEffect}
use impact_graph.Events.Donors.{reserve-IsEffect, cancel-IsEffect}
use impact_graph.Events.Changes.{publish-IsEffect, update-IsEffect, cancel_event-IsEffect}
use Step.{
  reserves, cancels, checks_in, checks_in_attendee, updates, publishes, adds_guest, removes_guest,
  cancels_event,
}

Step-IsEffect :
    (now : ℕ) (s s' : Store) → IsTable s.reservations → Step now s s' → IsEffect now s s'
Step-IsEffect now s s' t (reserves donor id event status h) =
    reserve-IsEffect now s donor id event t h
Step-IsEffect now s s' t (cancels donor event status h) = cancel-IsEffect now s donor event t h
Step-IsEffect now s s' t (checks_in donor event before h) =
    quiet-IsEffect now s s' t (check_in-IsQuiet s donor now event h)
Step-IsEffect now s s' t (checks_in_attendee donor event before h) =
    quiet-IsEffect now s s' t (check_in_attendee-IsQuiet s donor now event h)
Step-IsEffect now s s' t (updates c id h) = update-IsEffect now s c id t h
Step-IsEffect now s s' t (publishes id h) = publish-IsEffect now s id t h
Step-IsEffect now s s' t (adds_guest event donor h) =
    quiet-IsEffect now s s' t (add_guest-IsQuiet s event donor h)
Step-IsEffect now s s' t (removes_guest event donor h) =
    rw (← h) (quiet-IsEffect now s _ t (remove_guest-IsQuiet s event donor))
Step-IsEffect now s s' t (cancels_event id h) = cancel_event-IsEffect now s id t h

-- Operations one after the other, at times that do not go back, each into a store with the property.
pub data History (P : Store → Type 0) (start : ℕ) (s : Store) : ℕ → Store → Type 0 where
  begin : History P start s start s
  next :
      {t : ℕ} {u v : Store} (now : ℕ)
      → History P start s t u
      → t ≤ now
      → Step now u v
      → P v
      → History P start s now v

-- The event is there, with a capacity that is set and at most the bound.
pub record IsCapped (event bound : ℕ) (s : Store) : Type 0 where
  pub state : Event
  pub found : event_by_id event s ≡ some state
  pub capped : 0 < state.capacity
  pub bounded : state.capacity ≤ bound

-- Before the start, no event has a free seat that someone waits for.
pub record IsServed (time : ℕ) (s : Store) : Type 0 where
  pub table : IsTable s.reservations
  pub served : (k : ℕ) (e : Event) → event_by_id k s ≡ some e → time < e.starts_at → IsFilled e s

History-IsTable :
    {P : Store → Type 0} {start : ℕ} {s : Store} {time : ℕ} {u : Store}
    → IsTable s.reservations
    → History P start s time u
    → IsTable u.reservations
History-IsTable t begin = t
History-IsTable t (next {t = before} {u = u} {v = v} now run later step p) =
    (Step-IsEffect now u v (History-IsTable t run) step).table

-- In any sequence of reservations, cancellations, check-ins and changes by the staff in which the
-- capacity of an event is set and never more than a bound, the seats taken at the event are never more
-- than the bound, if they were not at first.
pub no_overbooking :
    (event bound start : ℕ) (s : Store) (time : ℕ) (u : Store)
    → IsTable s.reservations
    → reserved_count event s.reservations ≤ bound
    → History (IsCapped event bound) start s time u
    → reserved_count event u.reservations ≤ bound
no_overbooking event bound start s time u t h begin = h
no_overbooking event bound start s time v t h (next {t = before} {u = u} now run later step p) =
    let ih = no_overbooking event bound start s before u t h run in
    let (e, there, b) =
      (Step-IsEffect now u v (History-IsTable t run) step).events event p.state p.found in
    let i = event_by_id-id event v p.found in
    let above = p.capped in
    let below = p.bounded in
    elim (rw i at b.seats) [
      | inl no_more ↦ omega arith
      | inr (inl uncapped) ↦ absurd (omega arith)
      | inr (inr within) ↦ omega arith
    ]

Step-IsServed :
    (time now : ℕ) (s s' : Store) → IsServed time s → time ≤ now → Step now s s' → IsServed now s'
Step-IsServed time now s s' h later step =
    let f = Step-IsEffect now s s' h.table step in
    record {
      table = f.table;
      served = λ k e' found early.
          let (e, there, b) = f.events k e' found in
          b.filled early (λ soon. h.served k e there (omega arith));
    }

-- In any sequence of reservations, cancellations, check-ins and changes by the staff from a store in
-- which no upcoming event has a free seat that someone waits for, no upcoming event ever has one.
pub no_idle_seat :
    (start : ℕ) (s : Store) (time : ℕ) (u : Store)
    → IsServed start s
    → History (λ v. Unit) start s time u
    → IsServed time u
no_idle_seat start s time u h begin = h
no_idle_seat start s time v h (next {t = before} {u = u} now run later step p) =
    Step-IsServed before now u v (no_idle_seat start s before u h run) later step
