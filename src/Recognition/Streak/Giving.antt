-- ===== src/Recognition/Streak/Giving.antt =====
-- What `GivingStreak` answers.
use impact_graph.Base.{
  ℕ, ◌≤◌, ◌≡◌, refl, inl, inr, Bool, false, not, ◌&&◌, max, none, List, [], ◌∷◌, if◌then◌else◌,
  arith, ℤ, pos, pos_part, ltb_ℤ, Dict, Bool-cases, keep, ensure, ok, >>=-ok, String, ◌≤ℤ◌,
}
use impact_graph.Recognition.Facts.{Time, after, Gift, Refund, Period, Streak, clean_gifts}
use impact_graph.Recognition.Net.{net_gifts}
use impact_graph.Recognition.Streak.{
  stops_at, no_streak, count_streak, last_of, streak_at, streak_of, giving_streak, donor_periods,
  period_payments, renewal_boundaries,
}
use impact_graph.Recognition.Streak.Count.{IsStreak, count_streak_bounds}

module _ (p : Period) (ps : List Period) (payments : Dict (List Gift)) (net : Dict ℤ) (as_of : Time)
    (previous : ℕ) (stopped : List Time) where
  -- The last renewal is due and was ended by a stop.
  abbrev has_ended : Bool
  has_ended = not (after (last_of p ps).ends_at as_of) && stops_at stopped (last_of p ps).ends_at

  -- An answer is a streak that holds together, and its best run is the greater of the one before and
  -- the one counted. If the renewals have ended it counts nothing, and otherwise it counts what
  -- `countStreak` counts, through the grace of a renewal that is due as well.
  streak_at_answers :
      {s : Streak}
      → streak_at p ps payments net as_of previous stopped ≡ ok s
      → let counted = count_streak (p ∷ ps) payments net as_of stopped in
        IsStreak s
        × (s.best ≡ max previous counted.best)
        × (s.current ≡ (if has_ended then 0 else counted.current))
        × (s.since ≡ (if has_ended then none else counted.since))
  unfolding streak_at
  streak_at_answers {s} h =
      let c = (count_streak_bounds payments net as_of stopped (p ∷ ps)).0 in
      let next = (last_of p ps).ends_at in
      let counted = count_streak (p ∷ ps) payments net as_of stopped in
      elim (Bool-cases has_ended) [
        | inl ended ↦
            let best : s.best ≡ max previous counted.best = ground arith in
            let zeroed : (s.current ≡ 0) × (s.at_risk ≡ false) × (s.since ≡ none) = ground arith in
            (
              record {
                bounded = ground arith;
                ended = λ _. zeroed.2;
                begun = λ q. ground arith;
                risky = λ q. ground arith;
                safe = λ _. ground arith;
              },
              best,
              rw (ended) zeroed.0,
              rw (ended) zeroed.2,
            )
        | inr going ↦
            let same : record counted { best = max previous counted.best } ≡ s = ground arith in
            rw (← same) (
              record {
                bounded = let b = c.bounded in omega arith;
                ended = c.ended;
                begun = c.begun;
                risky = c.risky;
                safe = c.safe;
              },
              refl,
              rw (going) refl,
              rw (going) refl,
            )
      ]

streak_of-IsStreak :
    (elapsed : List Period) (payments : Dict (List Gift)) (net : Dict ℤ) (as_of : Time)
    (previous : ℕ) (stopped : List Time) {s : Streak}
    → streak_of elapsed payments net as_of previous stopped ≡ ok s
    → IsStreak s × (previous ≤ s.best)
unfolding streak_of
streak_of-IsStreak [] payments net as_of previous stopped {s} h =
    let same : record no_streak { best = previous } ≡ s = ground arith in rw (← same) (ground arith)
streak_of-IsStreak (p ∷ ps) payments net as_of previous stopped h =
    let (streak, best, _, _) = streak_at_answers p ps payments net as_of previous stopped h in
    (streak, omega arith)

-- Whatever the facts, an answer of `GivingStreak` is a streak that holds together, and the best run
-- recorded before is never lost; a negative one is refused.
pub giving_streak_keeps_best :
    (input : List Gift) (refunds : List Refund) (periods : List Period) (donor : String)
    (as_of : Time) (previous_best : ℤ) (stops : List Time) {s : Streak}
    → giving_streak input refunds periods donor as_of previous_best stops ≡ ok s
    → IsStreak s × (pos 0 ≤ℤ previous_best) × (previous_best ≤ℤ pos s.best)
unfolding giving_streak
giving_streak_keeps_best input refunds periods donor as_of previous_best stops {s} h =
    let nonneg : ltb_ℤ previous_best (pos 0) ≡ false = ground arith in
    let h₀ = rw (nonneg, ensure, not) at h in
    let (gifts, cleaned, h₁) = >>=-ok (clean_gifts input) _ h₀ in
    let (net, netted, h₂) = >>=-ok (net_gifts gifts refunds as_of) _ h₁ in
    let (ps, read, h₃) = >>=-ok (donor_periods periods donor) _ h₂ in
    let (paid, grouped, h₄) = >>=-ok (period_payments gifts net ps donor) _ h₃ in
    let (stopped, bounds, h₅) = >>=-ok (renewal_boundaries stops) _ h₄ in
    let elapsed = keep (λ p. not (after p.due_at as_of)) ps in
    let (streak, best) =
      streak_of-IsStreak elapsed paid net as_of (pos_part previous_best) stopped h₅ in
    (streak, ground arith, ground arith)
