-- ===== src/Events/Becomes.antt =====
-- What an operation does to an event and to its numbers.
use impact_graph.Base.{
  ℕ, ◌≤◌, ◌<◌, ◌≡◌, ◌≢◌, refl, sym, ◌∙◌, inl, inr, true, some, arith, Bool-cases, nat_eq,
  nat_eq_iff, find-true,
}
use impact_graph.Events.{Event, Store, event_by_id, reserved_count, waitlisted_count}
use impact_graph.Events.Seats.{is_full}
use impact_graph.Events.Rows.{IsTable}
use impact_graph.Events.Effects.{SameAt}
use impact_graph.Events.Filled.{IsFilled}
use impact_graph.Events.Filling.{Within}
use impact_graph.Events.Others.{IsQuiet}

-- What an operation does to an event, from what it was to what it is.
pub record Becomes (now : ℕ) (s s' : Store) (e e' : Event) : Type 0 where
  pub seats : Within e' s.reservations s'.reservations
  pub filled : now < e'.starts_at → (now < e.starts_at → IsFilled e s) → IsFilled e' s'

pub record IsEffect (now : ℕ) (s s' : Store) : Type 0 where
  pub table : IsTable s'.reservations
  pub events :
      (k : ℕ) (e' : Event)
      → event_by_id k s' ≡ some e'
      → (e : Event) × (event_by_id k s ≡ some e) × Becomes now s s' e e'

pub event_by_id-id : (k : ℕ) (s : Store) {e : Event} → event_by_id k s ≡ some e → e.id ≡ k
unfolding event_by_id
event_by_id-id k s {e} h = (nat_eq_iff e.id k).0 (find-true (λ e. nat_eq e.id k) s.events h)

pub full_mono :
    (e : Event) (s s' : Store)
    → is_full e s ≡ true
    → reserved_count e.id s.reservations ≤ reserved_count e.id s'.reservations
    → is_full e s' ≡ true
unfolding is_full
full_mono e s s' full more = ground arith

-- An event with as many seats taken, or more, and as few who wait, or fewer, is still filled.
pub IsFilled-mono :
    (s s' : Store) (e e' : Event)
    → e'.id ≡ e.id
    → e'.capacity ≡ e.capacity
    → reserved_count e.id s.reservations ≤ reserved_count e.id s'.reservations
    → waitlisted_count e.id s'.reservations ≤ waitlisted_count e.id s.reservations
    → IsFilled e s
    → IsFilled e' s'
unfolding is_full
IsFilled-mono s s' e e' i c more fewer (inl full) = inl (rw (i, c) (ground arith))
IsFilled-mono s s' e e' i c more fewer (inr nobody) = inr (rw i (omega arith))

-- The event and its numbers are the same.
pub same-Becomes :
    (now : ℕ) (s s' : Store) (e e' : Event)
    → e'.id ≡ e.id
    → e'.capacity ≡ e.capacity
    → e'.starts_at ≡ e.starts_at
    → SameAt e.id s.reservations s'.reservations
    → Becomes now s s' e e'
same-Becomes now s s' e e' i c t same = record {
  seats = inl (rw i (let r = same.seats in omega arith));
  filled = λ early h.
      IsFilled-mono s s' e e' i c (let r = same.seats in omega arith)
        (let w = same.waiting in omega arith) (h (rw t at early));
}

pub quiet-IsEffect :
    (now : ℕ) (s s' : Store) → IsTable s.reservations → IsQuiet s s' → IsEffect now s s'
unfolding event_by_id
quiet-IsEffect now s s' t q = record {
  table = q.table t;
  events = λ k e' found.
      (e', rw q.events at found, same-Becomes now s s' e' e' refl refl refl (q.numbers e'.id));
}

-- The operations of a donor change the rows of one event, `e`.
pub one_event-IsEffect :
    (now k : ℕ) (s s' : Store) (e : Event)
    → event_by_id k s ≡ some e
    → s'.events ≡ s.events
    → IsTable s'.reservations
    → ((j : ℕ) → j ≢ e.id → SameAt j s.reservations s'.reservations)
    → Becomes now s s' e e
    → IsEffect now s s'
unfolding event_by_id
one_event-IsEffect now k s s' e here events t others b = record {
  table = t;
  events = λ j e' found.
      let found' = rw events at found in
      let i = event_by_id-id k s here in
      let i' = event_by_id-id j s found' in
      elim (Bool-cases (nat_eq j k)) [
        | inl same ↦
            let jk = (nat_eq_iff j k).0 same in
            let h : some e' ≡ some e = sym found' ∙ rw jk here in
            let ee : e ≡ e' = ground arith in (e', found', rw ee at b)
        | inr other ↦ (
          e',
          found',
          same-Becomes now s s' e' e' refl refl refl (others e'.id (λ x. ground arith)),
        )
      ];
}
