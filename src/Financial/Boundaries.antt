-- ===== src/Financial/Boundaries.antt =====
-- What a projection reads of the periods, gifts and refunds, if none of their boundaries lies between two
-- times.
use impact_graph.Base.{
  ◌≤◌, ◌≡◌, refl, ap, ◌∙◌, inl, inr, String, Option, none, some, List, [], ◌∷◌, ◌++◌, All, All-keep,
  map, ◌==◌, Dict, lookup, insert, lookup-insert, arith, Bool-cases, Option-cases,
}
use impact_graph.Recognition.Facts.{Time, Gift, Refund, Period, after}
use impact_graph.Recognition.Net.Steady.{IsSteady}
use impact_graph.Recognition.Streak.Steady.{IsSteadyPeriod}
use impact_graph.Financial.{
  Observation, latest_observations, as_of_state, put, refunds_from, refunds_as_of, streak_gifts,
  period_boundaries,
}

pub All-left : {A : Type 0} (P : A → Type 0) (xs ys : List A) → All P (xs ++ ys) → All P xs
All-left P [] ys h = tt
All-left P (x ∷ xs) ys h = (h.0, All-left P xs ys h.1)

pub All-right : {A : Type 0} (P : A → Type 0) (xs ys : List A) → All P (xs ++ ys) → All P ys
All-right P [] ys h = h
All-right P (x ∷ xs) ys h = All-right P xs ys h.1

module _ (now later : Time) (on : now ≤ later) where
  pub All-period_boundaries :
      (ps : List Period)
      → All (IsSteady now later) (period_boundaries ps)
      → All (IsSteadyPeriod now later) ps
  unfolding period_boundaries
  All-period_boundaries [] h = tt
  All-period_boundaries (p ∷ ps) (due, (ends, (lapses, more))) =
      (record { due = due; ends = ends; lapses = lapses }, All-period_boundaries ps more)

  pub All-paid :
      (gs : List Gift)
      → All (IsSteady now later) (map (λ g. g.paid_at) gs)
      → All (λ g. IsSteady now later g.paid_at) gs
  All-paid [] h = tt
  All-paid (g ∷ gs) h = (h.0, All-paid gs h.1)

  -- The state that is kept of a refund was reached by now.
  as_of_state-IsSteady :
      (latest : Dict Observation) (r : Refund)
      → ((k : String) (o : Observation) → lookup k latest ≡ some o → o.observed_at ≤ now)
      → IsSteady now later r.updated_at
      → (as_of_state latest now r ≡ as_of_state latest later r)
        × ((x : Refund) → as_of_state latest now r ≡ some x → IsSteady now later x.updated_at)
  unfolding as_of_state
  as_of_state-IsSteady latest r seen steady = (
    rw steady refl,
    λ x kept. elim (Bool-cases (after r.updated_at now)) [
      | inr before_now ↦ let same : r ≡ x = ground arith in rw (← same) steady
      | inl updated ↦ elim (Option-cases (lookup r.id latest)) [
        | inl unseen ↦ absurd (ground arith)
        | inr (o, found) ↦
            let made = seen r.id o found in
            let same : o.observed_at ≡ x.updated_at = ground arith in rw (← same) (ground arith)
      ]
    ],
  )

  put-All :
      (P : Refund → Type 0) (o : Option Refund) (rs : List Refund)
      → ((x : Refund) → o ≡ some x → P x)
      → All P rs
      → All P (put o rs)
  unfolding put
  put-All P none rs h k = k
  put-All P (some r) rs h k = (h r refl, k)

  -- Every refund's last update lies on the same side, if the later ones do.
  updates-IsSteady :
      (latest : Dict Observation) (rs : List Refund)
      → All (IsSteady now later) (refunds_from latest now rs).1
      → All (λ r. IsSteady now later r.updated_at) rs
  unfolding refunds_from
  updates-IsSteady latest [] h = tt
  updates-IsSteady latest (r ∷ rs) h = elim (Bool-cases (after r.updated_at now)) [
    | inl updated ↦ let listed = rw updated at h in (listed.0, updates-IsSteady latest rs listed.1)
    | inr no_update ↦ (ground arith, updates-IsSteady latest rs (rw no_update at h))
  ]

  -- Then the same states are kept, each reached on the same side.
  refunds_from-IsSteady :
      (latest : Dict Observation) (rs : List Refund)
      → ((k : String) (o : Observation) → lookup k latest ≡ some o → o.observed_at ≤ now)
      → All (λ r. IsSteady now later r.updated_at) rs
      → ((refunds_from latest now rs).0 ≡ (refunds_from latest later rs).0)
        × All (λ r. IsSteady now later r.updated_at) (refunds_from latest now rs).0
  unfolding refunds_from
  refunds_from-IsSteady latest [] seen h = (refl, tt)
  refunds_from-IsSteady latest (r ∷ rs) seen (here, more) =
      let (same, steady) = refunds_from-IsSteady latest rs seen more in
      let (state, side) = as_of_state-IsSteady latest r seen here in
      (
        ap (λ o. put o (refunds_from latest now rs).0) state
            ∙ ap (put (as_of_state latest later r)) same,
        put-All (λ x. IsSteady now later x.updated_at) (as_of_state latest now r)
            (refunds_from latest now rs).0 side steady,
      )

  latest_observations_by :
      (os : List Observation) (m : Dict Observation)
      → All (λ o. o.observed_at ≤ now) os
      → ((k : String) (o : Observation) → lookup k m ≡ some o → o.observed_at ≤ now)
      → (k : String) (o : Observation) → lookup k (latest_observations os m) ≡ some o
      → o.observed_at ≤ now
  unfolding latest_observations
  latest_observations_by [] m h seen = seen
  latest_observations_by (n ∷ os) m (made, more) seen =
      latest_observations_by os (insert n.refund_id n m) more (λ k o found.
        elim (Bool-cases (n.refund_id == k)) [
          | inl hit ↦
              let same : n ≡ o = ground (arith, lookup-insert n.refund_id k n m) in rw (← same) made
          | inr miss ↦ seen k o (ground (arith, lookup-insert n.refund_id k n m))
        ])

  -- The same for the whole history of a donor's refunds.
  pub refunds_as_of-IsSteady :
      (current : List Refund) (observations : List Observation)
      → All (λ o. o.observed_at ≤ now) observations
      → All (IsSteady now later) (refunds_as_of current observations now).1
      → ((refunds_as_of current observations now).0 ≡ (refunds_as_of current observations later).0)
        × All (λ r. IsSteady now later r.updated_at) (refunds_as_of current observations now).0
  unfolding refunds_as_of lookup
  refunds_as_of-IsSteady current observations made h =
      let latest = latest_observations observations [] in
      refunds_from-IsSteady latest current
        (latest_observations_by observations [] made (λ k o found. absurd (ground arith)))
        (updates-IsSteady latest current h)

  pub streak_gifts-All :
      (P : Gift → Type 0) (reset : Option Time) (gs : List Gift)
      → All P gs
      → All P (streak_gifts reset gs)
  unfolding streak_gifts
  streak_gifts-All P none gs h = h
  streak_gifts-All P (some reset) gs h = All-keep P (λ g. after g.paid_at reset) gs h
