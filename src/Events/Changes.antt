-- ===== src/Events/Changes.antt =====
-- What `Update`, `Publish` and `Cancel` of the staff do to the events and their numbers.
use impact_graph.Base.{
  ℕ, ◌≡◌, ◌≢◌, refl, sym, ◌∙◌, ◌⊎◌, inl, inr, Bool, false, not, ◌&&◌, some, List, arith, Bool-cases,
  ltb, leb, nat_eq, nat_eq_iff, ok, ensure, >>=-ok,
}
use impact_graph.Events.{
  Event, Reservation, Store, EventError, or_error, is_some, event_by_id, update_where,
}
use impact_graph.Events.Seats.{is_full}
use impact_graph.Events.Staff.{
  EventChanges, change_event, same_event, update, publish, cancel_event, cancel_event_at, holders,
  release_all, set_cancelled, notify_holders,
}
use impact_graph.Events.Rows.{IsTable, update_where-IsTable}
use impact_graph.Events.Effects.{release_all-effect, release_all-SameAt}
use impact_graph.Events.Filled.{IsFilled}
use impact_graph.Events.Filling.{IsFilling, fill_seats-IsFilling}
use impact_graph.Events.Steps.{or_error_ok}
use impact_graph.Events.Others.{IsQuiet-refl, find-update_where, notify_holders-tables}
use impact_graph.Events.Becomes.{Becomes, IsEffect, event_by_id-id, same-Becomes, quiet-IsEffect}
use EventError.{no_rows, event_cancelled, reservation_closed}

-- A change of the event's columns that bear on no seat, with the same reservations.
publish-IsEffect_at :
    (now k : ℕ) (s : Store) (q : Event → Bool) (f : Event → Event)
    → IsTable s.reservations
    → ((e : Event)
        → ((f e).id ≡ e.id) × ((f e).capacity ≡ e.capacity) × ((f e).starts_at ≡ e.starts_at))
    → IsEffect now s (record s { events = update_where q f s.events })
unfolding event_by_id
publish-IsEffect_at now k s q f t keeps = record {
  table = t;
  events = λ j e' found.
      let (e, there, how) = find-update_where j q f s.events (λ x. (keeps x).0) found in
      (
        e,
        there,
        elim how [
          | inl (_, changed) ↦
              let (i, c, a) = keeps e in
              rw (← changed)
                (same-Becomes now s _ e (f e) i c a (record { seats = refl; waiting = refl }))
          | inr (_, same) ↦
              rw (← same)
                (same-Becomes now s _ e e refl refl refl (record { seats = refl; waiting = refl }))
        ],
      );
}

pub publish-IsEffect :
    (now : ℕ) (s : Store) (id : ℕ) {s' : Store}
    → IsTable s.reservations
    → publish s id ≡ ok s'
    → IsEffect now s s'
unfolding publish
publish-IsEffect now s id {s'} t h =
    let (e, found, h₁) = >>=-ok (or_error no_rows (event_by_id id s)) _ h in
    let (u, live, last) = >>=-ok (ensure (not (is_some e.cancelled_at)) event_cancelled) _ h₁ in
    let same : record s {
      events =
          update_where (same_event id) (λ e. record e { publish_state = "PUBLISHED" }) s.events;
    }
        ≡ s' =
      cc in
    rw (← same) (
      publish-IsEffect_at now id s (same_event id) (λ e. record e { publish_state = "PUBLISHED" }) t
        (λ e. (refl, refl, refl)))

-- The store of Update before the seats are filled.
abbrev changed : Store → EventChanges → ℕ → Store
changed s c id = record s { events = update_where (same_event id) (change_event c) s.events }

-- Each event of it: the one that is changed, or another that is as it was.
changed_cases :
    (s : Store) (c : EventChanges) (id j : ℕ) (e : Event) {e' : Event}
    → event_by_id id s ≡ some e
    → event_by_id j (changed s c id) ≡ some e'
    → ((event_by_id j s ≡ some e) × (e' ≡ change_event c e))
      ⊎ ((event_by_id j s ≡ some e') × (e'.id ≢ e.id))
unfolding event_by_id
changed_cases s c id j e here h =
    let (x, there, how) =
      find-update_where j (same_event id) (change_event c) s.events (λ x. refl) h in
    let i = event_by_id-id id s here in
    let xj = event_by_id-id j s there in
    elim how [
      | inl (hit, became) ↦
          let same_id : id ≡ j = ground (arith, nat_eq_iff x.id id) in
          let both : some e ≡ some x = sym here ∙ rw same_id there in
          let same : e ≡ x = ground arith in inl (rw same there, rw same (sym became))
      | inr (miss, same) ↦ inr (rw same at there, λ k. ground arith)
    ]

-- Update with the filling of its seats, or after the start without one.
filled_change-IsEffect :
    (now id : ℕ) (s : Store) (c : EventChanges) (e : Event) {s' : Store}
    → event_by_id id s ≡ some e
    → IsFilling (change_event c e) (changed s c id) s'
    → IsFilled (change_event c e) s'
    → IsEffect now s s'
unfolding event_by_id
filled_change-IsEffect now id s c e {s'} here f full = record {
  table = f.table;
  events = λ j e' found. elim (changed_cases s c id j e here (rw f.events at found)) [
    | inl (there, became) ↦ (e, there, rw became (record { seats = f.seats; filled = λ _ _. full }))
    | inr (there, ne) ↦ (e', there, same-Becomes now s s' e' e' refl refl refl (f.others e'.id ne))
  ];
}

late_change-IsEffect :
    (now id : ℕ) (s : Store) (c : EventChanges) (e : Event)
    → IsTable s.reservations
    → event_by_id id s ≡ some e
    → ltb now c.starts_at ≡ false
    → IsEffect now s (changed s c id)
late_change-IsEffect now id s c e t here late = record {
  table = t;
  events = λ j e' found. elim (changed_cases s c id j e here found) [
    | inl (there, became) ↦ (
      e,
      there,
      rw became (record { seats = inl (omega arith); filled = λ early _. absurd (ground arith) }),
    )
    | inr (there, ne) ↦ (
      e',
      there,
      same-Becomes now s _ e' e' refl refl refl (record { seats = refl; waiting = refl }),
    )
  ];
}

pub update-IsEffect :
    (now : ℕ) (s : Store) (c : EventChanges) (id : ℕ) {s' : Store}
    → IsTable s.reservations
    → update s c now id ≡ ok s'
    → IsEffect now s s'
unfolding update
update-IsEffect now s c id {s'} t h =
    let (e, found, h₁) = >>=-ok (or_error no_rows (event_by_id id s)) _ h in
    let (u, live, last) = >>=-ok (ensure (not (is_some e.cancelled_at)) event_cancelled) _ h₁ in
    let here = or_error_ok no_rows (event_by_id id s) found in
    elim (Bool-cases (ltb now c.starts_at)) [
      | inl early ↦
          let (f, full) =
            fill_seats-IsFilling (changed s c id) (change_event c e) now t (rw early at last) in
          filled_change-IsEffect now id s c e here f full
      | inr late ↦
          let same : changed s c id ≡ s' = let k = rw late at last in cc in
          rw (← same) (late_change-IsEffect now id s c e t here late)
    ]

-- The store of Cancel before its notices.
abbrev withdrawn : Store → Event → ℕ → Store
withdrawn s e now = record s {
  events =
      update_where (λ x. nat_eq x.id e.id && not (is_some x.cancelled_at)) (set_cancelled now)
        s.events;
  reservations = release_all e.id s.reservations;
}

release_all-IsTable :
    (event : ℕ) (rows : List Reservation) → IsTable rows → IsTable (release_all event rows)
unfolding release_all
release_all-IsTable event rows t = update_where-IsTable _ _ (λ r. (refl, refl, refl)) rows t

-- An event of that store has the numbers that it had, or has none left.
withdrawn-Becomes :
    (now : ℕ) (s : Store) (e x e' : Event)
    → e'.id ≡ x.id
    → e'.capacity ≡ x.capacity
    → e'.starts_at ≡ x.starts_at
    → Becomes now s (withdrawn s e now) x e'
withdrawn-Becomes now s e x e' i c a = elim (Bool-cases (nat_eq x.id e.id)) [
  | inl same ↦
      let xe = (nat_eq_iff x.id e.id).0 same in
      let (none_left, no_wait) = release_all-effect e.id s.reservations in
      record { seats = inl (rw (i, xe) (omega arith)); filled = λ _ _. inr (rw (i, xe) no_wait) }
  | inr other ↦
      same-Becomes now s (withdrawn s e now) x e' i c a
        (release_all-SameAt e.id x.id s.reservations (λ k. ground arith))
]

withdrawn-IsEffect :
    (now : ℕ) (s : Store) (e : Event) → IsTable s.reservations → IsEffect now s (withdrawn s e now)
unfolding event_by_id
withdrawn-IsEffect now s e t = record {
  table = release_all-IsTable e.id s.reservations t;
  events = λ j e' found.
      let (x, there, how) =
        find-update_where j (λ x. nat_eq x.id e.id && not (is_some x.cancelled_at))
          (set_cancelled now) s.events (λ x. refl) found in
      (
        x,
        there,
        elim how [
          | inl (_, became) ↦
              rw (← became) (withdrawn-Becomes now s e x (set_cancelled now x) refl refl refl)
          | inr (_, same) ↦ rw (← same) (withdrawn-Becomes now s e x x refl refl refl)
        ],
      );
}

-- Tables that other tables do not bear on.
same_tables-IsEffect :
    (now : ℕ) (s t t' : Store)
    → t'.events ≡ t.events
    → t'.reservations ≡ t.reservations
    → IsEffect now s t
    → IsEffect now s t'
unfolding event_by_id is_full
same_tables-IsEffect now s t t' es rs f = record {
  table = rw rs f.table;
  events = λ j e' found.
      let (e, there, b) = f.events j e' (rw es at found) in
      (e, there, record { seats = rw rs b.seats; filled = λ early h. rw rs (b.filled early h) });
}

pub cancel_event-IsEffect :
    (now : ℕ) (s : Store) (id : ℕ) {s' : Store}
    → IsTable s.reservations
    → cancel_event s now id ≡ ok s'
    → IsEffect now s s'
unfolding cancel_event cancel_event_at
cancel_event-IsEffect now s id {s'} t h =
    let (e, found, last) = >>=-ok (or_error no_rows (event_by_id id s)) _ h in
    elim (Bool-cases (is_some e.cancelled_at)) [
      | inl before ↦
          let same : s ≡ s' = let k = rw before at last in cc in
          rw (← same) (quiet-IsEffect now s s t (IsQuiet-refl s))
      | inr live ↦
          let (u, in_time, done) =
            >>=-ok (ensure (leb now e.ends_at) reservation_closed) _ (rw live at last) in
          let same : notify_holders e now (holders e.id s.reservations) (withdrawn s e now) ≡ s' =
            cc in
          let (es, rs) =
            notify_holders-tables e now (holders e.id s.reservations) (withdrawn s e now) in
          rw (← same)
            (same_tables-IsEffect now s (withdrawn s e now) _ es rs (withdrawn-IsEffect now s e t))
    ]
