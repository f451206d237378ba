-- ===== src/Examples/Badges.antt =====
-- The theorems on badges and their rules, applied to a donor with a streak of 31 days.
use impact_graph.Base.{
  ◌≡◌, refl, ◌≢◌, ◌<◌, ◌≤◌, ◌↔◌, String, Bool, true, false, ◌&&◌, Option, none, some, List, [], ◌∷◌,
  All, Exists, length, ℤ, pos, leb_ℤ, Dict, lookup, insert,
}
use impact_graph.Recognition.Ladder.Rungs.{Increasing}
use impact_graph.Badges.{Badge, Signals, catalog, evaluate, holds}
use impact_graph.Rules.{
  BadgeRule, RecognitionRules, rule_for, rule_earned, recognition_rules, rules_accepted,
  milestones_accepted,
}
use impact_graph.Rules.Defaults.{default_rules-evaluate}
use impact_graph.Rules.Accepted.{Ladder, Distinct, IsBounded, naturals, rules_accepted_sound}

abbrev signals : Signals
signals = record {
  first_gift_made = true;
  founding_qualified = false;
  streak_days = pos 31;
  comeback_reached_30 = false;
  raised_amount = true;
  converted_referrals = pos 20;
  has_irl_referral = false;
  distinct_initiatives = pos 2;
  national_top_percent = some (pos 2);
  national_population = pos 99;
  city_rank = some (pos 50);
  city = "x";
  city_population = pos 100;
  volunteer_opt_in = false;
  event_checkins = pos 3;
  joined_team = true;
}

default_rules-evaluate_example :
    All
      (λ (b : Badge). rule_earned (rule_for [] b) signals ≡ holds b.code (evaluate signals))
      catalog
default_rules-evaluate_example = default_rules-evaluate signals

abbrev three : List ℤ
three = pos 7 ∷ pos 30 ∷ pos 100 ∷ []

-- The rules in force when staff have stored none.
abbrev standard_rules : RecognitionRules
standard_rules = recognition_rules [] [] three

rules_accepted_sound_example :
    (0 < length standard_rules.milestones)
    × Ladder (pos 0) standard_rules.milestones
    × Increasing 0 (naturals standard_rules.milestones)
    × (length standard_rules.badges ≡ length catalog)
    × Distinct standard_rules.badges
    × All IsBounded standard_rules.badges
unfolding rules_accepted recognition_rules rule_for milestones_accepted lookup insert
    impact_graph.Rules.rule_accepted impact_graph.Base.max_ℤ
rules_accepted_sound_example = rules_accepted_sound (λ logo. false) standard_rules refl
