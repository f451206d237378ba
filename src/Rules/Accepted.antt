-- ===== src/Rules/Accepted.antt =====
-- What `SetRules` accepts.
use impact_graph.Base.{
  ℕ, ◌≤◌, String, ◌≡◌, inl, inr, Bool, true, false, none, some, List, [], ◌∷◌, length, All, arith,
  ℤ, pos, negsuc, pos_part, ◌≤ℤ◌, ◌<ℤ◌, ◌<◌, eqb_ℤ, sym, ◌≢◌, ◌==◌, eq_iff, ne→==, eqb_ℤ_iff, Dict,
  lookup, insert, lookup-insert, Option-cases,
}
use impact_graph.Recognition.Ladder.Rungs.{Increasing}
use impact_graph.Badges.{catalog}
use impact_graph.Rules.{
  BadgeRule, rule_accepted, default_badge_rules, RecognitionRules, is_sorted, milestones_after,
  milestones_accepted, rules_accepted, badges_accepted,
}

-- The milestones as the streak card reads them.
abbrev pub naturals : List ℤ → List ℕ
naturals [] = []
naturals (n ∷ ms) = pos_part n ∷ naturals ms

-- A ladder of days: from a day on, each milestone past the one before, none past a million.
abbrev pub Ladder : ℤ → List ℤ → Type 0
Ladder low [] = Unit
Ladder low (n ∷ ms) = (low <ℤ n) × (n ≤ℤ pos 1000000) × Ladder n ms

milestones_after-Ladder :
    (p : ℤ) (ms : List ℤ)
    → is_sorted (p ∷ ms) ≡ true
    → milestones_after (some p) ms ≡ true
    → Ladder p ms
unfolding is_sorted milestones_after
milestones_after-Ladder p [] s h = tt
milestones_after-Ladder p (n ∷ ms) s h =
    (ground arith, ground arith, milestones_after-Ladder n ms (ground arith) (ground arith))

-- The milestones that `SetRules` accepts: 1 to 32 of them, each at least a day and at most a million,
-- in strictly increasing order.
pub milestones_accepted-Ladder :
    (ms : List ℤ)
    → milestones_accepted ms ≡ true
    → (0 < length ms) × (length ms ≤ 32) × Ladder (pos 0) ms
unfolding milestones_accepted
milestones_accepted-Ladder [] h = absurd (ground arith)
milestones_accepted-Ladder (n ∷ ms) h = (
  omega arith,
  ground arith,
  (ground arith, ground arith, milestones_after-Ladder n ms (ground arith) (ground arith)),
)

Increasing-naturals : (low : ℕ) (ms : List ℤ) → Ladder (pos low) ms → Increasing low (naturals ms)
Increasing-naturals low [] h = tt
Increasing-naturals low (pos n ∷ ms) (up, top, rest) = (omega arith, Increasing-naturals n ms rest)
Increasing-naturals low (negsuc n ∷ ms) (up, top, rest) = absurd (omega arith)

-- The bounds on one rule.
pub record IsBounded (b : BadgeRule) : Type 0 where
  pub threshold_low : pos 1 ≤ℤ b.threshold
  pub threshold_high : b.threshold ≤ℤ pos 1000000
  pub population_low : pos 1 ≤ℤ b.min_population
  pub population_high : b.min_population ≤ℤ pos 1000000
  pub percent : b.signal ≡ "national_percentile" → b.threshold ≤ℤ pos 100
  pub unranked :
      b.signal ≢ "city_rank" → b.signal ≢ "national_percentile" → b.min_population ≡ pos 1

-- No two rules are of one badge.
abbrev pub Distinct : List BadgeRule → Type 0
Distinct [] = Unit
Distinct (b ∷ bs) = All (λ c. c.code ≢ b.code) bs × Distinct bs

bounds_of :
    (seen : Dict Bool) (bs : List BadgeRule)
    → All (λ b. IsBounded b × (lookup b.code seen ≡ none)) bs
    → All IsBounded bs
bounds_of seen [] h = tt
bounds_of seen (b ∷ bs) h = (h.0.0, bounds_of seen bs h.1)

module _ (logo_ok : String → Bool) where
  rule_accepted-IsBounded : (d b : BadgeRule) → rule_accepted logo_ok d b ≡ true → IsBounded b
  unfolding rule_accepted
  rule_accepted-IsBounded d b h = record {
    threshold_low = ground arith;
    threshold_high = ground arith;
    population_low = ground arith;
    population_high = ground arith;
    percent = λ e. let q = (eq_iff b.signal "national_percentile").1 e in ground arith;
    unranked = λ e f.
        let p = ne→== b.signal "city_rank" e in
        let q = ne→== b.signal "national_percentile" f in
        let r : eqb_ℤ b.min_population (pos 1) ≡ true = ground arith in
        (eqb_ℤ_iff b.min_population (pos 1)).0 r;
  }

  -- What the loop over the badges has tested.
  abbrev Tested : Dict Bool → List BadgeRule → Type 0
  Tested seen bs = All (λ b. IsBounded b × (lookup b.code seen ≡ none)) bs × Distinct bs

  fresh_after :
      (seen : Dict Bool) (b : BadgeRule) (bs : List BadgeRule)
      → lookup b.code seen ≡ none
      → All (λ c. IsBounded c × (lookup c.code (insert b.code true seen) ≡ none)) bs
      → All (λ c. IsBounded c × (lookup c.code seen ≡ none)) bs × All (λ c. c.code ≢ b.code) bs
  fresh_after seen b [] free h = (tt, tt)
  fresh_after seen b (c ∷ cs) free h =
      let (rest, apart) = fresh_after seen b cs free h.1 in
      let l = lookup-insert b.code c.code true seen in
      let m = h.0.1 in
      let other : (b.code == c.code) ≡ false = ground arith in
      (
        ((h.0.0, ground arith), rest),
        ((λ e. let q = (eq_iff b.code c.code).1 (sym e) in ground arith), apart),
      )

  badges_accepted-Tested :
      (seen : Dict Bool) (bs : List BadgeRule)
      → badges_accepted logo_ok seen bs ≡ true
      → Tested seen bs
  unfolding badges_accepted
  badges_accepted-Tested seen [] h = (tt, tt)
  badges_accepted-Tested seen (b ∷ bs) h =
      let (later, distinct) = badges_accepted-Tested (insert b.code true seen) bs (ground arith) in
      let free : lookup b.code seen ≡ none = ground arith in
      let (rest, apart) = fresh_after seen b bs free later in
      elim (Option-cases (lookup b.code default_badge_rules)) [
        | inl unknown ↦ absurd (ground arith)
        | inr (d, known) ↦
            (((rule_accepted-IsBounded d b (ground arith), free), rest), (apart, distinct))
      ]

  -- Rules that `SetRules` accepts have a ladder of milestones on which the streak card brackets the days
  -- (increasing, each a day to a million), a rule for each badge of the catalog by count, no two of
  -- one badge, and every rule within its bounds.
  pub rules_accepted_sound :
      (rules : RecognitionRules)
      → rules_accepted logo_ok rules ≡ true
      → (0 < length rules.milestones)
        × Ladder (pos 0) rules.milestones
        × Increasing 0 (naturals rules.milestones)
        × (length rules.badges ≡ length catalog)
        × Distinct rules.badges
        × All IsBounded rules.badges
  unfolding rules_accepted
  rules_accepted_sound rules h =
      let (some_rung, few, ladder) = milestones_accepted-Ladder rules.milestones (ground arith) in
      let (bounded, distinct) = badges_accepted-Tested [] rules.badges (ground arith) in
      (
        some_rung,
        ladder,
        Increasing-naturals 0 rules.milestones ladder,
        ground arith,
        distinct,
        bounds_of [] rules.badges bounded,
      )
