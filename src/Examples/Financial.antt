-- ===== src/Examples/Financial.antt =====
-- The theorems on a donor's projection, at a donor with one gift and a refund.
use impact_graph.Base.{
  ℕ, ◌*◌, ◌+◌, ◌/◌, ◌≤◌, ◌<◌, pos_part, ◌≡◌, refl, ◌↔◌, String, Option, none, some, List, [], ◌∷◌,
  ok, err, Dict, ℤ, pos, negsuc, ◌<ℤ◌, arith, true,
}
use impact_graph.Recognition.Facts.{Time, day, Gift, Refund, Period}
use impact_graph.Recognition.Net.{net_gifts}
use impact_graph.Financial.{
  Conversion, max_int64, net_minor, refunds_as_of, next_refresh, project_streak, project_conversion,
  latest_monthly_minor,
}
use impact_graph.Financial.Years.{card_milestones, year_given}
use impact_graph.Financial.Unchanged.{next_refresh_ahead, next_refresh_unchanged}
use impact_graph.Financial.Total.{sum, net_minor_total}
use impact_graph.Financial.Award.{IsAwarded, project_conversion-IsAwarded}

abbrev gift : Gift
gift = record {
  id = "g1";
  donor_id = "a";
  amount = pos 500;
  paid_at = 10 * day;
  frequency = "MONTHLY";
  candidate = none;
  period_id = "p1";
  currency = "USD";
}

abbrev period : Period
period = record {
  id = "p2";
  donor_id = "a";
  due_at = 41 * day;
  ends_at = 70 * day;
  status = "EXPECTED";
}

abbrev refund : Refund
refund = record {
  id = "r1";
  gift_id = "g1";
  amount = pos 200;
  status = "SUCCEEDED";
  updated_at = 12 * day;
  currency = "USD";
}

-- A calendar of one zone, whose dates begin at whole days, and whose years have 365 of them.
abbrev civil : ℕ → Time → ℤ
civil zone t = pos (t / 86400000000000)

abbrev start_of_day : ℕ → ℤ → Time
start_of_day zone d = pos_part d * 86400000000000

day_begins : (zone t : ℕ) (d : ℤ) → (t < start_of_day zone d) ↔ (civil zone t <ℤ d)
day_begins zone t (pos n) = (λ h. omega (arith, h), λ h. omega (arith, h))
day_begins zone t (negsuc n) = (λ h. omega (arith, h), λ h. omega (arith, h))

abbrev civil_year : Time → ℕ
civil_year t = t / 31536000000000000

abbrev start_of_year : ℕ → Time
start_of_year y = y * 31536000000000000

year_ends : (t y : ℕ) → (t < start_of_year (y + 1)) ↔ (civil_year t ≤ y)
year_ends t y = (λ h. omega (arith, h), λ h. omega (arith, h))

-- The run that began on day 10 is 30 days long on day 40, and the payment falls due on day 41.
next_refresh-day_40 :
    next_refresh civil start_of_day civil_year start_of_year
      (20 * day)
      (50 * day)
      []
      []
      (some (10 * day))
      0
      7
      (30 ∷ 100 ∷ [])
      (period ∷ [])
      (gift ∷ [])
      none
    ≡ 40 * day
unfolding next_refresh impact_graph.Financial.earliest_after
    impact_graph.Financial.milestone_boundary impact_graph.Financial.one_if
    impact_graph.Financial.year_boundary impact_graph.Financial.reaches impact_graph.Base.◌+ℤ◌
    impact_graph.Recognition.Ladder.ladder_with_milestones
    impact_graph.Recognition.Ladder.next_milestone impact_graph.Base.◌-ℤ◌
next_refresh-day_40 = refl

next_refresh_ahead_example :
    (20 * day
      < next_refresh civil start_of_day civil_year start_of_year
          (20 * day)
          (50 * day)
          []
          []
          (some (10 * day))
          0
          7
          (30 ∷ 100 ∷ [])
          (period ∷ [])
          (gift ∷ [])
          none)
    × (next_refresh civil start_of_day civil_year start_of_year
          (20 * day)
          (50 * day)
          []
          []
          (some (10 * day))
          0
          7
          (30 ∷ 100 ∷ [])
          (period ∷ [])
          (gift ∷ [])
          none
        ≤ 50 * day)
next_refresh_ahead_example =
    next_refresh_ahead civil start_of_day civil_year start_of_year (20 * day) (50 * day) [] []
      (some (10 * day)) 0 7 (30 ∷ 100 ∷ []) (period ∷ []) (gift ∷ []) none (omega arith)

before_day_40 :
    39 * day
    < next_refresh civil start_of_day civil_year start_of_year
        (20 * day)
        (50 * day)
        (refunds_as_of (refund ∷ []) [] (20 * day)).1
        []
        (some (10 * day))
        0
        7
        (30 ∷ 100 ∷ [])
        (period ∷ [])
        (gift ∷ [])
        none
unfolding next_refresh refunds_as_of impact_graph.Financial.earliest_after
    impact_graph.Financial.refunds_from impact_graph.Financial.milestone_boundary
    impact_graph.Financial.one_if impact_graph.Financial.year_boundary
    impact_graph.Financial.reaches impact_graph.Base.◌+ℤ◌
    impact_graph.Recognition.Ladder.ladder_with_milestones
    impact_graph.Recognition.Ladder.next_milestone impact_graph.Base.◌-ℤ◌
before_day_40 = omega arith

next_refresh_unchanged_example :
    (project_streak (refund ∷ []) [] none (gift ∷ []) (period ∷ []) "a" (pos 1) [] (20 * day)
      ≡ project_streak (refund ∷ []) [] none (gift ∷ []) (period ∷ []) "a" (pos 1) [] (39 * day))
    × (net_minor (gift ∷ []) (refunds_as_of (refund ∷ []) [] (20 * day)).0 (20 * day)
        ≡ net_minor (gift ∷ []) (refunds_as_of (refund ∷ []) [] (39 * day)).0 (39 * day))
    × (card_milestones civil (some (10 * day)) (20 * day) 0 7 (30 ∷ 100 ∷ [])
        ≡ card_milestones civil (some (10 * day)) (39 * day) 0 7 (30 ∷ 100 ∷ []))
    × (year_given civil_year (gift ∷ []) (20 * day) ≡ year_given civil_year (gift ∷ []) (39 * day))
next_refresh_unchanged_example =
    next_refresh_unchanged civil start_of_day civil_year start_of_year day_begins year_ends
      (20 * day) (39 * day) (50 * day) (refund ∷ []) [] none (gift ∷ []) (period ∷ []) "a" (pos 1)
      [] (some (10 * day)) 0 7 (30 ∷ 100 ∷ []) none refl
      (omega arith, (omega arith, (omega arith, tt))) tt (omega arith) before_day_40

abbrev nobody : Conversion
nobody = record {
  first_gift_id = none;
  referrer_id = none;
  referral_kind = none;
  founding_awarded_at = none;
}

abbrev converted : Conversion
converted = record nobody { first_gift_id = some "g1"; founding_awarded_at = some (10 * day) }

runs : project_conversion (λ t. none) nobody (gift ∷ []) "a" true (20 * day) ≡ ok converted
unfolding project_conversion impact_graph.Recognition.Relationships.relationships
    impact_graph.Recognition.Facts.clean_gifts impact_graph.Base.Dedupe.dedupe
    impact_graph.Recognition.Facts.gift_valid impact_graph.Base.lookup
    impact_graph.Financial.attribute impact_graph.Base.Sort.sort impact_graph.Base.insert
    impact_graph.Financial.award_founding
    impact_graph.Recognition.Relationships.founding_qualified_at
    impact_graph.Financial.founding_award
runs = refl

project_conversion-IsAwarded_example : IsAwarded nobody (gift ∷ []) "a" true (20 * day) converted
project_conversion-IsAwarded_example =
    project_conversion-IsAwarded (λ t. none) nobody (gift ∷ []) "a" true (20 * day) runs

net_found : net_gifts (gift ∷ []) (refund ∷ []) (20 * day) ≡ ok (("g1", pos 300) ∷ [])
unfolding net_gifts impact_graph.Recognition.Facts.clean_gifts impact_graph.Base.Dedupe.dedupe
    impact_graph.Recognition.Facts.gift_valid impact_graph.Base.lookup impact_graph.Base.fold_ok
    impact_graph.Recognition.Net.refund_valid impact_graph.Base.find impact_graph.Base.insert
    impact_graph.Base.◌-ℤ◌
net_found = refl

net_minor_total_example :
    (net_minor (gift ∷ []) (refund ∷ []) (20 * day) ≡ ok (pos 300))
    ↔ ((pos 300 ≡ sum (("g1", pos 300) ∷ [])) × ¬ (max_int64 <ℤ pos 300))
net_minor_total_example =
    net_minor_total (gift ∷ []) (refund ∷ []) (20 * day) (pos 300) net_found
      (λ big. omega (arith, big), _)

-- A donor who pays monthly gives what the latest monthly gift gives.
monthly :
    latest_monthly_minor
      (gift ∷ record gift { id = "g2"; amount = pos 900; frequency = "ONCE" } ∷ [])
    ≡ pos 500
unfolding latest_monthly_minor
monthly = refl
