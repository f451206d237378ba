-- ===== src/Recognition/Streak/Steady.antt =====
-- When `GivingStreak` gives the same at a later time.
use impact_graph.Base.{
  ℕ, ◌+◌, ◌≤◌, ◌≡◌, refl, sym, ap, ◌∙◌, inl, inr, Bool, false, not, ◌||◌, String, List, [], ◌∷◌,
  ltb, length, All, All-keep, keep, Dict, ℤ, get_or, none, >>=-same, ensure, pos_part, ltb_ℤ, pos,
  arith, if◌then◌else◌, Bool-cases, nat_eq, nat_eq_iff,
}
use impact_graph.Recognition.Facts.{
  Time, grace, zero_time, is_zero, after, before, Gift, Refund, Period, Streak, Failure,
  clean_gifts,
}
use impact_graph.Recognition.Net.{net_gifts}
use impact_graph.Recognition.Net.Steady.{IsSteady, net_gifts_steady}
use impact_graph.Recognition.Facts.Clean.{All-clean_gifts}
use impact_graph.Recognition.Streak.{
  Run, first_run, earliest_paid, extend, observe, resume, calm, period_step, count_from,
  count_streak, last_of, streak_at, streak_of, giving_streak, donor_periods, period_payments,
  renewal_boundaries,
}
use impact_graph.Recognition.Streak.Periods.{
  IsMonth, InTurn, donor_periods-InTurn, All-donor_periods,
}

-- What the streak reads of a period's times lies on the same side of both times.
pub record IsSteadyPeriod (now later : Time) (p : Period) : Type 0 where
  pub due : IsSteady now later p.due_at
  pub ends : IsSteady now later p.ends_at
  pub lapses : IsSteady now later (p.ends_at + grace)

-- A streak that is not running.
abbrev at_rest : ℕ → Streak
at_rest best = record {
  current = 0;
  best = best;
  at_risk = false;
  grace_ends_at = none;
  since = none;
}

module _ (now later : Time) (net : Dict ℤ) (stopped : List Time) where
  observe_steady :
      (last_paid : Time) (p : Period) (payments : List Gift) (s : Streak)
      → before now (p.due_at + grace) ≡ before later (p.due_at + grace)
      → observe net now last_paid p payments s ≡ observe net later last_paid p payments s
  unfolding observe
  observe_steady last_paid p payments s h = rw h refl

  period_step_steady :
      (run : Run) (p : Period) (payments : List Gift)
      → before now (p.due_at + grace) ≡ before later (p.due_at + grace)
      → period_step net now stopped run p payments ≡ period_step net later stopped run p payments
  unfolding period_step
  period_step_steady run p payments h =
      let s = calm (resume stopped run.last p run.result) in
      rw (observe_steady run.last_paid p payments s h) refl

  -- Where no run is on, the deadline of an unpaid period changes nothing in the streak.
  observe-at_rest :
      (as_of last_paid : Time) (p : Period) (payments : List Gift) (best : ℕ)
      → (observe net as_of last_paid p payments (at_rest best)).0 ≡ (
          if not (is_zero (earliest_paid net payments zero_time))
          then extend p (earliest_paid net payments zero_time) last_paid (at_rest best)
          else at_rest best)
  unfolding observe
  observe-at_rest as_of last_paid p payments best =
      elim (Bool-cases (not (is_zero (earliest_paid net payments zero_time)))) [
        | inl paid ↦ rw paid refl
        | inr unpaid ↦
            rw unpaid
              (elim (Bool-cases
                (ltb 0 (length payments) || not (before as_of (p.due_at + grace)))) [
                  | inl over ↦ rw over refl
                  | inr waiting ↦ rw waiting refl
                ])
      ]

  resume-at_rest :
      (run : Run) (p : Period)
      → nat_eq run.last p.due_at ≡ false
      → calm (resume stopped run.last p run.result) ≡ at_rest run.result.best
  unfolding resume
  resume-at_rest run p gap = rw gap (ground arith)

  period_step-at_rest :
      (as_of : Time) (run : Run) (p : Period) (payments : List Gift)
      → nat_eq run.last p.due_at ≡ false
      → (period_step net as_of stopped run p payments).result
        ≡ (observe net as_of run.last_paid p payments (at_rest run.result.best)).0
  unfolding period_step
  period_step-at_rest as_of run p payments gap =
      ap (λ (s : Streak). (observe net as_of run.last_paid p payments s).0)
        (resume-at_rest run p gap)

  last_step_steady :
      (run : Run) (p : Period) (payments : List Gift)
      → (run.last ≡ p.due_at → IsSteady now later (p.due_at + grace))
      → (period_step net now stopped run p payments).result
        ≡ (period_step net later stopped run p payments).result
  last_step_steady run p payments steady = elim (Bool-cases (nat_eq run.last p.due_at)) [
    | inl follows ↦
        let same = steady ((nat_eq_iff run.last p.due_at).0 follows) in
        ap (λ (r : Run). r.result) (period_step_steady run p payments same)
    | inr gap ↦
        period_step-at_rest now run p payments gap
        ∙ observe-at_rest now run.last_paid p payments run.result.best
        ∙ sym (observe-at_rest later run.last_paid p payments run.result.best)
        ∙ sym (period_step-at_rest later run p payments gap)
  ]

  -- Before the last period that came due, every deadline has passed at both times.
  count_from_steady :
      (donor : String) (payments : Dict (List Gift)) (run : Run) (p : Period) (ps : List Period)
      → now ≤ later
      → (run.last ≡ p.due_at → IsSteady now later (p.due_at + grace))
      → All (IsMonth donor) (p ∷ ps)
      → InTurn (p ∷ ps)
      → All (IsSteadyPeriod now later) (p ∷ ps)
      → All (λ q. q.due_at ≤ now) (p ∷ ps)
      → (count_from payments net now stopped run (p ∷ ps)).result
        ≡ (count_from payments net later stopped run (p ∷ ps)).result
  unfolding count_from period_step
  count_from_steady donor payments run p [] on follows months turns steady due =
      last_step_steady run p (get_or [] p.id payments) follows
  count_from_steady donor payments run p (q ∷ ps) on follows months turns steady due =
      let ends = turns.0.0 in
      let long = months.0.shortest in
      let come = due.1.0 in
      let both : before now (p.due_at + grace) ≡ before later (p.due_at + grace) = ground arith in
      let paid = get_or [] p.id payments in
      let same = period_step_steady run p paid both in
      let next_run = period_step net later stopped run p paid in
      let lapses = steady.0.lapses in
      let next : next_run.last ≡ q.due_at → IsSteady now later (q.due_at + grace) =
        λ e. let meets : p.ends_at ≡ q.due_at = e in rw (← meets) lapses in
      ap (λ (r : Run). (count_from payments net now stopped r (q ∷ ps)).result) same
      ∙ count_from_steady donor payments next_run q ps on next months.1 turns.1 steady.1 due.1

  last_of-All :
      (P : Period → Type 0) (p : Period) (ps : List Period) → All P (p ∷ ps) → P (last_of p ps)
  last_of-All P p [] h = h.0
  last_of-All P p (q ∷ ps) h = last_of-All P q ps h.1

  streak_of_steady :
      (donor : String) (payments : Dict (List Gift)) (previous : ℕ) (elapsed : List Period)
      → now ≤ later
      → All (IsMonth donor) elapsed
      → InTurn elapsed
      → All (IsSteadyPeriod now later) elapsed
      → All (λ q. q.due_at ≤ now) elapsed
      → streak_of elapsed payments net now previous stopped
        ≡ streak_of elapsed payments net later previous stopped
  unfolding streak_of streak_at count_streak
  streak_of_steady donor payments previous [] on months turns steady due = refl
  streak_of_steady donor payments previous (p ∷ ps) on months turns steady due =
      let begins = months.0.begins in
      let counted =
        count_from_steady donor payments first_run p ps on (λ e. absurd (omega arith)) months turns
          steady due in
      let last = last_of-All (IsSteadyPeriod now later) p ps steady in
      let same : count_streak (p ∷ ps) payments net now stopped
          ≡ count_streak (p ∷ ps) payments net later stopped =
        counted in
      let ends : ltb now (last_of p ps).ends_at ≡ ltb later (last_of p ps).ends_at = last.ends in
      let lapses : ltb now ((last_of p ps).ends_at + grace)
          ≡ ltb later ((last_of p ps).ends_at + grace) =
        last.lapses in
      rw (ends, lapses, same) refl

elapsed-All :
    (now : Time) (ps : List Period)
    → All (λ q. q.due_at ≤ now) (keep (λ p. not (after p.due_at now)) ps)
unfolding keep
elapsed-All now [] = tt
elapsed-All now (p ∷ ps) = elim (Bool-cases (not (after p.due_at now))) [
  | inl come ↦ rw come (ground arith, elapsed-All now ps)
  | inr ahead ↦ rw ahead (elapsed-All now ps)
]

elapsed_steady :
    (now later : Time) (ps : List Period)
    → All (IsSteadyPeriod now later) ps
    → keep (λ p. not (after p.due_at now)) ps ≡ keep (λ p. not (after p.due_at later)) ps
unfolding keep
elapsed_steady now later [] h = refl
elapsed_steady now later (p ∷ ps) h =
    let due : ltb now p.due_at ≡ ltb later p.due_at = h.0.due in
    rw (due, elapsed_steady now later ps h.1) refl

InTurn-keep : (f : Period → Bool) (ps : List Period) → InTurn ps → InTurn (keep f ps)
unfolding keep
InTurn-keep f [] h = tt
InTurn-keep f (p ∷ ps) h = elim (Bool-cases (f p)) [
  | inl hit ↦ rw hit (All-keep (λ q. p.ends_at ≤ q.due_at) f ps h.0, InTurn-keep f ps h.1)
  | inr miss ↦ rw miss (InTurn-keep f ps h.1)
]

-- Where the moments of the payments, of the refunds' last updates, and of each period's due time, its end
-- and the end of the grace after it lie on the same side of two times, GivingStreak answers the same at both.
pub giving_streak_steady :
    (now later : Time) (input : List Gift) (refunds : List Refund) (periods : List Period)
    (donor : String) (best : ℤ) (stops : List Time)
    → is_zero now ≡ false
    → now ≤ later
    → All (λ g. IsSteady now later g.paid_at) input
    → All (λ r. IsSteady now later r.updated_at) refunds
    → All (IsSteadyPeriod now later) periods
    → giving_streak input refunds periods donor now best stops
      ≡ giving_streak input refunds periods donor later best stops
unfolding giving_streak
giving_streak_steady now later input refunds periods donor best stops begun on gifts updates
      steady =
    let running : is_zero later ≡ false = ground arith in
    >>=-same (ensure (not (ltb_ℤ best (pos 0))) Failure.invalid) (λ u checked.
      >>=-same (clean_gifts input) (λ gs cleaned.
        let paid = All-clean_gifts (λ g. IsSteady now later g.paid_at) input cleaned gifts in
        rw (net_gifts_steady now later gs refunds begun running paid updates) (
          >>=-same (net_gifts gs refunds later) (λ net netted.
            >>=-same (donor_periods periods donor) (λ ps read.
              >>=-same (period_payments gs net ps donor) (λ grouped found.
                >>=-same (renewal_boundaries stops) (λ stopped bounded.
                  let (months, turns) = donor_periods-InTurn periods donor read in
                  let sides =
                    All-donor_periods (IsSteadyPeriod now later) periods donor read steady in
                  let come = λ (p : Period). not (after p.due_at now) in
                  rw (← elapsed_steady now later ps sides) (
                    streak_of_steady now later net stopped donor grouped (pos_part best)
                      (keep come ps) on (All-keep (IsMonth donor) come ps months)
                      (InTurn-keep come ps turns)
                      (All-keep (IsSteadyPeriod now later) come ps sides)
                      (elapsed-All now ps)))))))))
