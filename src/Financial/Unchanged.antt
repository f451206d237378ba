-- ===== src/Financial/Unchanged.antt =====
-- `nextRefresh`: what a projection reads of the time stays the same until the next refresh.
use impact_graph.Base.{
  ℕ, ◌+◌, ◌≤◌, ◌<◌, ◌≡◌, refl, ◌↔◌, false, String, Option, List, ◌∷◌, ◌++◌, All, All-keep, any,
  ◌==◌, map, ℤ, ◌<ℤ◌, arith,
}
use impact_graph.Recognition.Facts.{Time, Gift, Refund, Period, is_zero}
use impact_graph.Recognition.Net.Steady.{IsSteady, net_gifts_steady}
use impact_graph.Recognition.Streak.Steady.{giving_streak_steady}
use impact_graph.Recognition.Ladder.Rungs.{Increasing}
use impact_graph.Financial.{
  Observation, refunds_as_of, refunds_for_gifts, streak_gifts, project_streak, net_minor,
  period_boundaries, one_if, milestone_boundary, year_boundary, next_refresh,
}
use impact_graph.Financial.Refresh.{earliest_after-IsSteady, earliest_after_ahead}
use impact_graph.Financial.Boundaries.{
  All-left, All-right, All-period_boundaries, All-paid, refunds_as_of-IsSteady, streak_gifts-All,
}
use impact_graph.Financial.Years.{
  card_milestones, year_given, card_milestones_steady, year_given_steady,
}

module _ {Zone : Type 0} (civil_day : Zone → Time → ℤ) (midnight : Zone → ℤ → Time)
    (year : Time → ℕ) (new_year : ℕ → Time) where
  -- Where the default lies after now, the next refresh does too, and it is no later than the default.
  pub next_refresh_ahead :
      (now latest : Time) (refunds stops : List Time) (since : Option Time) (zone : Zone) (m : ℕ)
      (ms : List ℕ) (periods : List Period) (gifts : List Gift) (grace_ends : Option Time)
      → now < latest
      → let next =
          next_refresh civil_day midnight year new_year now latest refunds stops since zone m ms
            periods gifts grace_ends in
        (now < next) × (next ≤ latest)
  unfolding next_refresh
  next_refresh_ahead now latest refunds stops since zone m ms periods gifts grace_ends h =
      earliest_after_ahead now latest
        (refunds
          ++ stops
          ++ milestone_boundary civil_day midnight since now zone m ms
          ++ period_boundaries periods
          ++ map (λ g. g.paid_at) gifts
          ++ one_if grace_ends
          ++ year_boundary year new_year gifts now)
        h

module _ {Zone : Type 0} (civil_day : Zone → Time → ℤ) (midnight : Zone → ℤ → Time)
    (year : Time → ℕ) (new_year : ℕ → Time)
    (begins : (zone : Zone) (t : Time) (d : ℤ) → (t < midnight zone d) ↔ (civil_day zone t <ℤ d))
    (ends : (t : Time) (y : ℕ) → (t < new_year (y + 1)) ↔ (year t ≤ y)) where
  -- Without new facts, the streak, the net total, the milestones of the card and the year of a donor who
  -- has given are the same at every moment from now until the next refresh: where each date of a zone begins
  -- at its midnight and each year at its new year, the observations of refunds were made by now, and the
  -- milestones increase.
  pub next_refresh_unchanged :
      (now later latest : Time) (current : List Refund) (observations : List Observation)
      (reset : Option Time) (gifts : List Gift) (periods : List Period) (id : String) (best : ℤ)
      (stops : List Time) (since : Option Time) (zone : Zone) (m : ℕ) (ms : List ℕ)
      (grace_ends : Option Time)
      → is_zero now ≡ false
      → Increasing 0 (m ∷ ms)
      → All (λ o. o.observed_at ≤ now) observations
      → now ≤ later
      → later
        < next_refresh civil_day midnight year new_year now latest
            (refunds_as_of current observations now).1
            stops
            since
            zone
            m
            ms
            periods
            gifts
            grace_ends
      → (project_streak current observations reset gifts periods id best stops now
          ≡ project_streak current observations reset gifts periods id best stops later)
        × (net_minor gifts (refunds_as_of current observations now).0 now
            ≡ net_minor gifts (refunds_as_of current observations later).0 later)
        × (card_milestones civil_day since now zone m ms
            ≡ card_milestones civil_day since later zone m ms)
        × (year_given year gifts now ≡ year_given year gifts later)
  unfolding next_refresh project_streak net_minor refunds_for_gifts
  next_refresh_unchanged now later latest current observations reset gifts periods id best stops
        since zone m ms grace_ends begun i made on short =
      let P = IsSteady now later in
      let refunds = (refunds_as_of current observations now).1 in
      let card = milestone_boundary civil_day midnight since now zone m ms in
      let months = period_boundaries periods in
      let paid = map (λ (g : Gift). g.paid_at) gifts in
      let year_end = year_boundary year new_year gifts now in
      let before_card = refunds ++ stops in
      let before_months = before_card ++ card in
      let before_paid = before_months ++ months in
      let before_grace = before_paid ++ paid in
      let before_year = before_grace ++ one_if grace_ends in
      let h₆ = earliest_after-IsSteady now later latest (before_year ++ year_end) on short in
      let h₅ = All-left P before_grace (one_if grace_ends) (All-left P before_year year_end h₆) in
      let h₄ = All-left P before_paid paid h₅ in
      let h₃ = All-left P before_months months h₄ in
      let h₂ = All-left P refunds stops (All-left P before_card card h₃) in
      let sides =
        All-period_boundaries now later on periods (All-right P before_months months h₄) in
      let payments = All-paid now later on gifts (All-right P before_paid paid h₅) in
      let (same, updates) = refunds_as_of-IsSteady now later on current observations made h₂ in
      let kept = streak_gifts reset gifts in
      let running : is_zero later ≡ false = ground arith in
      (
        rw (← same) (
            giving_streak_steady now later kept
              (refunds_for_gifts (refunds_as_of current observations now).0 kept) periods id best
              stops begun on
              (streak_gifts-All now later on (λ g. IsSteady now later g.paid_at) reset gifts
                payments)
              (All-keep (λ r. IsSteady now later r.updated_at)
                (λ r. any (λ g. g.id == r.gift_id) kept) (refunds_as_of current observations now).0
                updates)
              sides),
        rw
            (
              ← same,
              net_gifts_steady now later gifts (refunds_as_of current observations now).0 begun
                  running payments updates,
            )
            refl,
        card_milestones_steady civil_day midnight begins since now later zone m ms i on
            (All-right P before_card card h₃),
        year_given_steady year new_year ends now later gifts on
            (All-right P before_year year_end h₆),
      )
