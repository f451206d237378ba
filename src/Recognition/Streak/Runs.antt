-- ===== src/Recognition/Streak/Runs.antt =====
-- What an unbroken run of payments counts.
use impact_graph.Base.{
  ℕ, ◌+◌, ◌≤◌, ◌<◌, ◌≡◌, ◌≢◌, ◌⊎◌, true, false, some, List, [], ◌∷◌, ℤ, Dict, get_or,
}
use impact_graph.Recognition.Facts.{Time, zero_time, grace, Gift, Period}
use impact_graph.Recognition.Streak.{stops_at, earliest_paid, Run, count_streak}

module _ (payments : Dict (List Gift)) (net : Dict ℤ) (as_of : Time) (stopped : List Time) where
  -- The time that counts as a period's payment, zero if there is none.
  abbrev pub paid_at : Period → Time
  paid_at p = earliest_paid net (get_or [] p.id payments) zero_time

  -- The periods go on from a period's end and a payment without a stop, a gap, a missing or late
  -- payment, or a payment before the last one.
  abbrev pub Unbroken : Time → Time → List Period → Type 0
  Unbroken last last_paid [] = Unit
  Unbroken last last_paid (p ∷ ps) =
      (last ≡ p.due_at)
      × (stops_at stopped last ≡ false)
      × (0 < paid_at p)
      × (paid_at p < p.due_at + grace)
      × (last_paid ≤ paid_at p)
      × Unbroken p.ends_at (paid_at p) ps

  -- What the loop knows inside an unbroken run.
  record Running (since last paid : Time) (n : ℕ) (run : Run) : Type 0 where
    counted : run.result.current ≡ n
    started : run.result.since ≡ some since
    quiet : run.result.at_risk ≡ false
    ends : run.last ≡ last
    payment : run.last_paid ≡ paid

  -- The end of the last period, zero if there is none.
  abbrev pub last_end : Time → List Period → Time
  last_end t [] = t
  last_end t (p ∷ ps) = last_end p.ends_at ps

  -- A period at which a new run starts: nothing counted before it, or a stop or a gap before it.
  abbrev pub Restarts : List Period → Period → Type 0
  Restarts before_it p =
      ((count_streak before_it payments net as_of stopped).current ≡ 0)
      ⊎ ((stops_at stopped (last_end zero_time before_it) ≡ true)
          ⊎ (last_end zero_time before_it ≢ p.due_at))
