-- ===== src/Recognition/Streak/Count.antt =====
-- What the loop over the periods keeps.
use impact_graph.Base.{
  ◌+◌, ◌≤◌, ◌<◌, ◌≡◌, refl, ◌≢◌, true, false, none, List, [], ◌∷◌, length, arith, ℤ, Dict, get_or,
}
use impact_graph.Recognition.Facts.{Time, zero_time, Gift, Period, Streak}
use impact_graph.Recognition.Streak.{
  earliest_paid, Run, no_streak, first_run, resume, extend, observe, calm, period_step, count_from,
  count_streak,
}

-- What holds of a streak at any time: the current run is at most the best one, it has a first day
-- exactly when it counts a period, and only a run that counts one can be at risk, with a deadline.
pub record IsStreak (s : Streak) : Type 0 where
  pub bounded : s.current ≤ s.best
  pub ended : s.current ≡ 0 → s.since ≡ none
  pub begun : 0 < s.current → s.since ≢ none
  pub risky : s.at_risk ≡ true → (0 < s.current) × (s.grace_ends_at ≢ none)
  pub safe : s.at_risk ≡ false → s.grace_ends_at ≡ none

no_streak-IsStreak : IsStreak no_streak
no_streak-IsStreak = ground arith

module _ (payments : Dict (List Gift)) (net : Dict ℤ) (as_of : Time) (stopped : List Time) where
  resume-IsStreak :
      (last : Time) (p : Period) (s : Streak)
      → IsStreak s
      → IsStreak (calm (resume stopped last p s))
  unfolding resume
  resume-IsStreak last p s h = ground arith

  extend-IsStreak :
      (p : Period) (paid last_paid : Time) (s : Streak)
      → s.at_risk ≡ false
      → IsStreak s
      → IsStreak (extend p paid last_paid s)
  unfolding extend
  extend-IsStreak p paid last_paid s quiet h = ground arith

  observe-IsStreak :
      (last_paid : Time) (p : Period) (gs : List Gift) (s : Streak)
      → s.at_risk ≡ false
      → IsStreak s
      → IsStreak (observe net as_of last_paid p gs s).0
  unfolding observe
  observe-IsStreak last_paid p gs s quiet h =
      ground (arith, extend-IsStreak p (earliest_paid net gs zero_time) last_paid s quiet h)

  count_from-IsStreak :
      (run : Run) (ps : List Period)
      → IsStreak run.result
      → IsStreak (count_from payments net as_of stopped run ps).result
  unfolding count_from period_step
  count_from-IsStreak run [] h = h
  count_from-IsStreak run (p ∷ ps) h =
      count_from-IsStreak (period_step net as_of stopped run p (get_or [] p.id payments)) ps (
        observe-IsStreak run.last_paid p (get_or [] p.id payments) _ refl
          (resume-IsStreak run.last p run.result h))

  -- No pass raises the best run by more than one.
  best-observe :
      (last_paid : Time) (p : Period) (gs : List Gift) (s : Streak)
      → s.current ≤ s.best
      → (observe net as_of last_paid p gs s).0.best ≤ s.best + 1
  unfolding observe extend
  best-observe last_paid p gs s h = ground arith

  best-resume : (last : Time) (p : Period) (s : Streak) → (resume stopped last p s).best ≡ s.best
  unfolding resume
  best-resume last p s = ground arith

  best-count_from :
      (run : Run) (ps : List Period)
      → IsStreak run.result
      → (count_from payments net as_of stopped run ps).result.best ≤ run.result.best + length ps
  unfolding count_from period_step
  best-count_from run [] h = omega arith
  best-count_from run (p ∷ ps) h =
      let s = calm (resume stopped run.last p run.result) in
      let gs = get_or [] p.id payments in
      let started = resume-IsStreak run.last p run.result h in
      omega (
        arith,
        best-count_from (period_step net as_of stopped run p gs) ps
            (observe-IsStreak run.last_paid p gs s refl started),
        best-observe run.last_paid p gs s started.bounded,
        best-resume run.last p run.result,
      )

  -- `countStreak` returns a streak that holds together, whose best run is no longer than the number
  -- of periods.
  pub count_streak_bounds :
      (elapsed : List Period)
      → IsStreak (count_streak elapsed payments net as_of stopped)
        × ((count_streak elapsed payments net as_of stopped).best ≤ length elapsed)
  unfolding count_streak
  count_streak_bounds elapsed = (
    count_from-IsStreak first_run elapsed no_streak-IsStreak,
    omega (arith, best-count_from first_run elapsed no_streak-IsStreak),
  )
