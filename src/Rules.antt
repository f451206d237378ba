-- ===== src/Rules.antt =====
-- The recognition rules that staff configure: apps/donor-api/internal/store/recognition_rules.go.
--
-- The stored rules are what the database returns, so they are arguments; `cleanLogo`, which decodes
-- an image, is the parameter `logo_ok`.
pub mod Defaults
pub mod Accepted
use impact_graph.Base.{
  ℕ, String, Bool, true, false, not, ◌&&◌, ◌||◌, Option, none, some, List, [], ◌∷◌, ◌==◌,
  if◌then◌else◌, nat_eq, length, leb, ltb, ℤ, pos, leb_ℤ, ltb_ℤ, eqb_ℤ, max_ℤ, Dict, lookup, insert,
  contains,
}
use impact_graph.Badges.{Badge, Signals, catalog, ranked_within}

pub record BadgeRule : Type 0 where
  pub code : String
  pub signal : String
  pub threshold : ℤ
  pub min_population : ℤ
  pub artwork : String

abbrev default_rule : String → ℤ → ℤ → BadgeRule
default_rule signal threshold least = record {
  code = "";
  signal = signal;
  threshold = threshold;
  min_population = least;
  artwork = "";
}

-- defaultBadgeRules; a field that the source leaves out is zero
abbrev pub default_badge_rules : Dict BadgeRule
default_badge_rules =
    ("F", default_rule "founding" (pos 1) (pos 0))
    ∷ ("1D", default_rule "first_gift" (pos 1) (pos 0))
    ∷ ("7", default_rule "streak_days" (pos 7) (pos 0))
    ∷ ("30", default_rule "streak_days" (pos 30) (pos 0))
    ∷ ("100", default_rule "streak_days" (pos 100) (pos 0))
    ∷ ("Y1", default_rule "streak_days" (pos 365) (pos 0))
    ∷ ("1K", default_rule "streak_days" (pos 1000) (pos 0))
    ∷ ("Y3", default_rule "streak_days" (pos 1095) (pos 0))
    ∷ ("CB", default_rule "comeback" (pos 1) (pos 0))
    ∷ ("UP", default_rule "raised_amount" (pos 1) (pos 0))
    ∷ ("REF1", default_rule "referrals" (pos 1) (pos 0))
    ∷ ("REF3", default_rule "referrals" (pos 3) (pos 0))
    ∷ ("REF12", default_rule "referrals" (pos 12) (pos 0))
    ∷ ("TC", default_rule "referrals" (pos 20) (pos 0))
    ∷ ("IRL", default_rule "irl_referral" (pos 1) (pos 0))
    ∷ ("V", default_rule "volunteer" (pos 1) (pos 0))
    ∷ ("SU", default_rule "checkins" (pos 1) (pos 0))
    ∷ ("V3", default_rule "checkins" (pos 3) (pos 0))
    ∷ ("V10", default_rule "checkins" (pos 10) (pos 0))
    ∷ ("INIT7", default_rule "initiatives" (pos 7) (pos 0))
    ∷ ("CITY50", default_rule "city_rank" (pos 50) (pos 100))
    ∷ ("NAT2", default_rule "national_percentile" (pos 2) (pos 100))
    ∷ ("TP", default_rule "team" (pos 1) (pos 0))
    ∷ ("WT", default_rule "monthly_winner" (pos 1) (pos 0))
    ∷ []

-- A missing rule is the zero BadgeRule.
abbrev rule_or_zero : Option BadgeRule → BadgeRule
rule_or_zero none = default_rule "" (pos 0) (pos 0)
rule_or_zero (some r) = r

-- The rule of a badge: the stored one, or the default with at least one donor to rank among.
unfoldable pub rule_for : Dict BadgeRule → Badge → BadgeRule
rule_for custom b =
    let r = rule_or_zero (lookup b.code default_badge_rules) in
    elim (lookup b.code custom) [
      | some c ↦ c
      | none ↦ record r { code = b.code; min_population = max_ℤ r.min_population (pos 1) }
    ]

rules_for : Dict BadgeRule → List Badge → List BadgeRule
rules_for custom [] = []
rules_for custom (b ∷ bs) = rule_for custom b ∷ rules_for custom bs

index_rules : Dict BadgeRule → List BadgeRule → Dict BadgeRule
index_rules custom [] = custom
index_rules custom (r ∷ rs) = index_rules (insert r.code r custom) rs

pub record RecognitionRules : Type 0 where
  pub badges : List BadgeRule
  pub milestones : List ℤ

-- recognitionRules, on the rows of the two queries
unfoldable pub recognition_rules : List BadgeRule → List (List ℤ) → List ℤ → RecognitionRules
unfolding rules_for index_rules
recognition_rules rows stored standard = record {
  badges = rules_for (index_rules [] rows) catalog;
  milestones = elim stored [ [] ↦ standard | ms ∷ _ ↦ ms ];
}

-- ruleEarned
unfoldable pub rule_earned : BadgeRule → Signals → Bool
rule_earned r s =
    if r.signal == "streak_days"
    then leb_ℤ r.threshold s.streak_days
    else if r.signal == "referrals"
    then leb_ℤ r.threshold s.converted_referrals
    else if r.signal == "checkins"
    then leb_ℤ r.threshold s.event_checkins
    else if r.signal == "initiatives"
    then leb_ℤ r.threshold s.distinct_initiatives
    else if r.signal == "city_rank"
    then ranked_within s.city_rank r.threshold s.city_population r.min_population
    else if r.signal == "national_percentile"
    then ranked_within s.national_top_percent r.threshold s.national_population r.min_population
    else if r.signal == "founding"
    then s.founding_qualified
    else if r.signal == "first_gift"
    then s.first_gift_made
    else if r.signal == "comeback"
    then s.comeback_reached_30
    else if r.signal == "raised_amount"
    then s.raised_amount
    else if r.signal == "irl_referral"
    then s.has_irl_referral
    else if r.signal == "volunteer"
    then s.volunteer_opt_in
    else if r.signal == "team"
    then s.joined_team
    else false

-- slices.IsSorted
is_sorted : List ℤ → Bool
is_sorted [] = true
is_sorted (m ∷ []) = true
is_sorted (m ∷ n ∷ ms) = leb_ℤ m n && is_sorted (n ∷ ms)

-- The loop over the milestones of `SetRules`, after the milestone before.
milestones_after : Option ℤ → List ℤ → Bool
milestones_after previous [] = true
milestones_after previous (n ∷ ms) =
    not (
      ltb_ℤ n (pos 1)
      || ltb_ℤ (pos 1000000) n
      || elim previous [ none ↦ false | some p ↦ eqb_ℤ n p ])
    && milestones_after (some n) ms

-- The first tests of `SetRules`.
unfoldable pub milestones_accepted : List ℤ → Bool
unfolding is_sorted milestones_after
milestones_accepted ms =
    not (nat_eq (length ms) 0 || ltb 32 (length ms) || not (is_sorted ms))
    && milestones_after none ms

counted_signal : String → Bool
counted_signal s =
    s == "streak_days"
    || s == "referrals"
    || s == "checkins"
    || s == "initiatives"
    || s == "city_rank"
    || s == "national_percentile"

ranked_signal : String → Bool
ranked_signal s = s == "city_rank" || s == "national_percentile"

module _ (logo_ok : String → Bool) where
  -- The tests on one rule of `SetRules`, where its code has a default and has not been seen.
  unfoldable pub rule_accepted : BadgeRule → BadgeRule → Bool
  unfolding counted_signal ranked_signal
  rule_accepted d b =
      b.signal == d.signal
      && leb_ℤ (pos 1) b.threshold
      && leb_ℤ b.threshold (pos 1000000)
      && not (b.signal == "national_percentile" && ltb_ℤ (pos 100) b.threshold)
      && leb_ℤ (pos 1) b.min_population
      && leb_ℤ b.min_population (pos 1000000)
      && (ranked_signal b.signal || eqb_ℤ b.min_population (pos 1))
      && (counted_signal b.signal || eqb_ℤ b.threshold (pos 1))
      && (b.artwork == "" || logo_ok b.artwork)

  -- The loop over the badges of `SetRules`.
  unfoldable pub badges_accepted : Dict Bool → List BadgeRule → Bool
  badges_accepted seen [] = true
  badges_accepted seen (b ∷ bs) =
      elim (lookup b.code default_badge_rules) [ none ↦ false | some d ↦ rule_accepted d b ]
      && not (contains b.code seen)
      && badges_accepted (insert b.code true seen) bs

  -- The validation of `SetRules`, before it writes.
  unfoldable pub rules_accepted : RecognitionRules → Bool
  unfolding milestones_accepted badges_accepted
  rules_accepted in_rules =
      milestones_accepted in_rules.milestones
      && nat_eq (length in_rules.badges) (length catalog)
      && badges_accepted [] in_rules.badges
