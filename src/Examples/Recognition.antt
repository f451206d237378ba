-- ===== src/Examples/Recognition.antt =====
-- The theorems on recognition, applied to a donor who gives in two months.
use impact_graph.Base.{
  ℕ, ◌+◌, ◌*◌, ◌≤◌, ◌≡◌, refl, ◌↔◌, String, Bool, false, none, some, List, [], ◌∷◌, ◌-ℤ◌, insert,
  find, fold_ok, keep, ◌/◌, arith, All, ℤ, pos, ◌≤ℤ◌, pos_part, ok, Dict, lookup,
}
use mathlib.Core.Option
use impact_graph.Base.Sort.{least, sort}
use impact_graph.Base.Dedupe.{by_id, dedupe}
use impact_graph.Base.Dedupe.Laws.{IsConsistent}
use impact_graph.Recognition.Facts.{
  Time, day, Candidate, Gift, Refund, Period, Streak, Relationship, gift_id, clean_gifts,
  gift_valid, gift_eq,
}
use impact_graph.Recognition.Facts.Clean.{IsPayment, clean_gifts_accepts}
use impact_graph.Recognition.Net.{net_gifts, refund_valid}
use impact_graph.Recognition.Net.Balance.{refunded, paid_amount, plus, IsNonneg, net_gifts_balance}
use impact_graph.Recognition.Relationships.{
  gift_le, relationship_of, relationships, founding_qualified_at,
}
use impact_graph.Recognition.Relationships.First.{gives, relationships_first}
use impact_graph.Recognition.Relationships.Founding.{FoundingAnswer, founding_qualified_at_earliest}
use impact_graph.Recognition.Streak.{
  period_valid, disjoint, period_payments, renewal_boundaries, extend, observe, period_eq,
  period_step, resume, earliest_paid, stops_at, donor_periods, count_streak, streak_at,
  giving_streak,
}
use impact_graph.Recognition.Streak.Count.{IsStreak, count_streak_bounds}
use impact_graph.Recognition.Streak.Runs.{paid_at}
use impact_graph.Recognition.Streak.Giving.{giving_streak_keeps_best}
use impact_graph.Recognition.Streak.Periods.{IsMonth, InTurn, donor_periods-InTurn}
use impact_graph.Recognition.Ladder.{ladder_with_milestones, last_milestone, next_milestone}
use impact_graph.Recognition.Ladder.Milestones.{IsLast, IsNext, milestones_bracket}
use impact_graph.Recognition.Ladder.Card.{IsCard, ladder-IsCard}

abbrev invitation : Candidate
invitation = record { referrer_id = "b"; kind = "LINK"; expires_at = 40 * day }

abbrev first_gift : Gift
first_gift = record {
  id = "g1";
  donor_id = "a";
  amount = pos 500;
  paid_at = 10 * day;
  frequency = "MONTHLY";
  candidate = some invitation;
  period_id = "p1";
  currency = "USD";
}

abbrev second_gift : Gift
second_gift = record {
  id = "g2";
  donor_id = "a";
  amount = pos 500;
  paid_at = 41 * day;
  frequency = "MONTHLY";
  candidate = none;
  period_id = "p2";
  currency = "USD";
}

abbrev gifts : List Gift
gifts = second_gift ∷ first_gift ∷ second_gift ∷ []

abbrev cleaned : List Gift
cleaned = second_gift ∷ first_gift ∷ []

abbrev refund : Refund
refund = record {
  id = "r1";
  gift_id = "g1";
  amount = pos 200;
  status = "SUCCEEDED";
  updated_at = 12 * day;
  currency = "USD";
}

abbrev net : Dict ℤ
net = ("g2", pos 500) ∷ ("g1", pos 300) ∷ []

abbrev first_period : Period
first_period = record {
  id = "p1";
  donor_id = "a";
  due_at = 10 * day;
  ends_at = 40 * day;
  status = "EXPECTED";
}

abbrev second_period : Period
second_period = record {
  id = "p2";
  donor_id = "a";
  due_at = 40 * day;
  ends_at = 70 * day;
  status = "EXPECTED";
}

abbrev payments : Dict (List Gift)
payments = ("p1", first_gift ∷ []) ∷ ("p2", second_gift ∷ []) ∷ []

clean_gifts-cleaned : clean_gifts gifts ≡ ok cleaned
unfolding clean_gifts dedupe gift_valid lookup insert gift_eq
clean_gifts-cleaned = refl

net_gifts_net : net_gifts gifts (refund ∷ []) (60 * day) ≡ ok net
unfolding net_gifts clean_gifts dedupe gift_valid lookup insert gift_eq fold_ok refund_valid find
    ◌-ℤ◌
net_gifts_net = refl

clean_gifts_accepts_example :
    ((r : List Gift) × (clean_gifts gifts ≡ ok r))
    ↔ (All IsPayment gifts × IsConsistent gift_id gifts)
clean_gifts_accepts_example = clean_gifts_accepts gifts

net_gifts_balance_example :
    (paid_amount (60 * day) (by_id gift_id "g1" gifts)
      ≡ plus (refunded "g1" [] (refund ∷ [])) (lookup "g1" net))
    × IsNonneg (lookup "g1" net)
net_gifts_balance_example = net_gifts_balance gifts (refund ∷ []) (60 * day) net_gifts_net "g1"

relationships_first_example :
    (found : Dict Relationship) × (relationships gifts (60 * day) ≡ ok found)
    × ((donor : String)
        → lookup donor found
          ≡ Option.map relationship_of (least gift_le (gives donor (60 * day)) cleaned))
relationships_first_example = relationships_first gifts (60 * day) (omega arith) clean_gifts-cleaned

founding_qualified_at_earliest_example :
    (t : Time) × (q : Bool) × (founding_qualified_at gifts "a" (60 * day) ≡ ok (t, q))
    × FoundingAnswer "a" (60 * day) cleaned t q
founding_qualified_at_earliest_example =
    founding_qualified_at_earliest gifts "a" (60 * day) (omega arith) clean_gifts-cleaned

count_streak_bounds_example :
    IsStreak (count_streak (first_period ∷ second_period ∷ []) payments net (60 * day) [])
    × ((count_streak (first_period ∷ second_period ∷ []) payments net (60 * day) []).best ≤ 2)
count_streak_bounds_example =
    count_streak_bounds payments net (60 * day) [] (first_period ∷ second_period ∷ [])

first_paid : paid_at payments net (60 * day) [] first_period ≡ 10 * day
unfolding earliest_paid lookup
first_paid = refl

abbrev two_months : Streak
two_months = record {
  current = 2;
  best = 2;
  at_risk = false;
  grace_ends_at = none;
  since = some (10 * day);
}

streak_at-two_months :
    streak_at first_period (second_period ∷ []) payments net (60 * day) 0 [] ≡ ok two_months
unfolding streak_at count_streak earliest_paid lookup stops_at
streak_at-two_months = refl

giving_streak-two_months :
    giving_streak gifts (refund ∷ []) (second_period ∷ first_period ∷ []) "a" (60 * day) (pos 1) []
    ≡ ok two_months
unfolding giving_streak clean_gifts dedupe gift_valid lookup insert gift_eq net_gifts fold_ok
    refund_valid find donor_periods period_valid disjoint sort keep period_payments
    renewal_boundaries ◌-ℤ◌ count_streak earliest_paid extend observe period_eq period_step resume
    stops_at streak_at
giving_streak-two_months = refl

giving_streak_keeps_best_example : IsStreak two_months × (pos 0 ≤ℤ pos 1) × (pos 1 ≤ℤ pos 2)
giving_streak_keeps_best_example =
    giving_streak_keeps_best gifts (refund ∷ []) (second_period ∷ first_period ∷ []) "a" (60 * day)
      (pos 1) [] giving_streak-two_months

donor_periods_sorted :
    donor_periods (second_period ∷ first_period ∷ []) "a" ≡ ok (first_period ∷ second_period ∷ [])
unfolding donor_periods dedupe period_valid lookup insert disjoint sort keep
donor_periods_sorted = refl

donor_periods-InTurn_example :
    All (IsMonth "a") (first_period ∷ second_period ∷ [])
    × InTurn (first_period ∷ second_period ∷ [])
donor_periods-InTurn_example =
    donor_periods-InTurn (second_period ∷ first_period ∷ []) "a" donor_periods_sorted

milestones_bracket_example :
    IsLast 40 7 (30 ∷ 100 ∷ []) (last_milestone 40 7 (30 ∷ 100 ∷ []))
    × IsNext 40 7 (30 ∷ 100 ∷ []) (next_milestone 40 7 (30 ∷ 100 ∷ []))
    × (100 ≤ 40 → next_milestone 40 7 (30 ∷ 100 ∷ []) ≡ last_milestone 40 7 (30 ∷ 100 ∷ []) + 365)
milestones_bracket_example =
    milestones_bracket 40 7 (30 ∷ 100 ∷ []) (omega arith, (omega arith, (omega arith, tt)))

-- A calendar on which the days are whole and numbered from the zero time.
abbrev plain_day : ℕ → Time → ℤ
plain_day offset t = pos (t / (24 * 3600000000000))

ladder-IsCard_example :
    IsCard
      (pos_part (plain_day 0 (60 * day) -ℤ plain_day 0 (10 * day)))
      7
      (30 ∷ 100 ∷ [])
      (ladder_with_milestones plain_day two_months (60 * day) 0 7 (30 ∷ 100 ∷ []))
ladder-IsCard_example =
    ladder-IsCard plain_day two_months (60 * day) 0 7 (30 ∷ 100 ∷ []) refl
      (omega arith, (omega arith, (omega arith, tt)))
