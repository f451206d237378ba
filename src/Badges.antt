-- ===== src/Badges.antt =====
-- The badge catalog and the earn engine: apps/donor-api/internal/badges/badges.go.
--
-- A set of badge codes, `map[string]bool` in the source, is a table of the codes that are set.
pub mod Earned
pub mod Perks
use impact_graph.Base.{
  ℕ, String, Bool, true, false, ◌&&◌, ◌||◌, Option, none, some, List, [], ◌∷◌, ◌==◌, if◌then◌else◌,
  keep, map, ℤ, pos, leb_ℤ, Dict, lookup, insert, contains,
}

-- A perk is its constant's text; `perk_none` is the empty one.
abbrev pub perk_none : String
perk_none = ""

pub record Badge : Type 0 where
  pub code : String
  pub title : String
  pub rule : String
  pub perk : String
  pub live : Bool

abbrev badge : String → String → String → String → Bool → Badge
badge code title rule perk live = record {
  code = code;
  title = title;
  rule = rule;
  perk = perk;
  live = live;
}

-- Catalog
abbrev pub catalog : List Badge
catalog =
    badge "F" "Founding Donor"
      "Start a monthly gift before January 2027, or join the website waitlist" "FOUNDING_EVENTS"
      true
    ∷ badge "1D" "First Day" "Complete your first gift" perk_none true
    ∷ badge "7" "One Week" "Reach a 7-day streak" perk_none true
    ∷ badge "30" "One Month" "Reach a 30-day streak" perk_none true
    ∷ badge "100" "Hundred" "Reach a 100-day streak" perk_none true
    ∷ badge "Y1" "One Year" "Reach a 365-day streak" perk_none true
    ∷ badge "1K" "1,000 Days" "Reach a 1,000-day streak" "MILESTONE_EVENTS" true
    ∷ badge "Y3" "Three Years" "Reach a 1,095-day streak" perk_none true
    ∷ badge "CB" "Comeback" "Restart giving after a lapse and reach 30 days" perk_none true
    ∷ badge "UP" "Level Up" "Raise your daily amount" perk_none true
    ∷ badge "REF1" "First Referral" "Someone you invited completes a gift" perk_none true
    ∷ badge "REF3" "Brought 3 In" "Three people you invited complete a gift" perk_none true
    ∷ badge "REF12" "Brought 12 In" "Twelve people you invited complete a gift" perk_none true
    ∷ badge "TC" "Team Captain" "Twenty people you invited complete a gift" "TEAM_CAPTAIN" true
    ∷ badge "IRL" "IRL" "Someone joins by scanning your IRL code" perk_none true
    ∷ badge "V" "Volunteer" "Opt in as a volunteer" perk_none true
    ∷ badge "SU" "Showed Up" "Check in at your first event" perk_none true
    ∷ badge "V3" "Volunteer ×3" "Check in at 3 events" perk_none true
    ∷ badge "V10" "Volunteer ×10" "Check in at 10 events" perk_none true
    ∷ badge "INIT7" "7 Initiatives" "Fund 7 different initiatives" perk_none true
    ∷ badge "CITY50" "Top 50 City" "Rank in the top 50 in your city" perk_none true
    ∷ badge "NAT2" "Top 2%" "Rank in the top 2% nationally by streak" perk_none true
    ∷ badge "TP" "Team Player" "Join a company team" perk_none true
    ∷ badge "WT" "Winning Team" "Your team finishes a month at #1 on your company leaderboard"
        perk_none false
    ∷ []

-- byCode: a later entry of a code would replace an earlier one
index_from : Dict Badge → List Badge → Dict Badge
index_from m [] = m
index_from m (b ∷ bs) = index_from (insert b.code b m) bs

unfoldable pub by_code : Dict Badge
unfolding index_from
by_code = index_from [] catalog

-- Lookup
unfoldable pub lookup_badge : String → Option Badge
unfolding by_code lookup insert
lookup_badge code = lookup code by_code

-- The loop of `CodesForPerk`.
codes_with : String → List Badge → List String
codes_with perk [] = []
codes_with perk (b ∷ bs) =
    let rest = codes_with perk bs in if b.perk == perk then b.code ∷ rest else rest

-- CodesForPerk
unfoldable pub codes_for_perk : String → List String
unfolding codes_with
codes_for_perk perk = if perk == perk_none then [] else codes_with perk catalog

-- `earned[code]`
abbrev pub holds : String → Dict Bool → Bool
holds code earned = elim (lookup code earned) [ none ↦ false | some b ↦ b ]

holds_any : Dict Bool → List String → Bool
holds_any earned [] = false
holds_any earned (c ∷ cs) = holds c earned || holds_any earned cs

-- HoldsPerk
unfoldable pub holds_perk : Dict Bool → String → Bool
unfolding holds_any
holds_perk earned perk = if perk == perk_none then false else holds_any earned (codes_for_perk perk)

pub record Signals : Type 0 where
  pub first_gift_made : Bool
  pub founding_qualified : Bool
  pub streak_days : ℤ
  pub comeback_reached_30 : Bool
  pub raised_amount : Bool
  pub converted_referrals : ℤ
  pub has_irl_referral : Bool
  pub distinct_initiatives : ℤ
  pub national_top_percent : Option ℤ
  pub national_population : ℤ
  pub city_rank : Option ℤ
  pub city : String
  pub city_population : ℤ
  pub volunteer_opt_in : Bool
  pub event_checkins : ℤ
  pub joined_team : Bool

-- MinRankPopulation
abbrev pub min_rank_population : ℤ
min_rank_population = pos 100

-- A rank is given, is at most `top`, and is taken among enough donors.
abbrev pub ranked_within : Option ℤ → ℤ → ℤ → ℤ → Bool
ranked_within none top population least = false
ranked_within (some rank) top population least = leb_ℤ rank top && leb_ℤ least population

-- The conditions of `Evaluate` in their order, each with the code that it sets.
abbrev pub conditions : Signals → List (Bool × String)
conditions s =
    (s.founding_qualified, "F")
    ∷ (s.first_gift_made, "1D")
    ∷ (leb_ℤ (pos 7) s.streak_days, "7")
    ∷ (leb_ℤ (pos 30) s.streak_days, "30")
    ∷ (leb_ℤ (pos 100) s.streak_days, "100")
    ∷ (leb_ℤ (pos 365) s.streak_days, "Y1")
    ∷ (leb_ℤ (pos 1000) s.streak_days, "1K")
    ∷ (leb_ℤ (pos 1095) s.streak_days, "Y3")
    ∷ (s.comeback_reached_30, "CB")
    ∷ (s.raised_amount, "UP")
    ∷ (leb_ℤ (pos 1) s.converted_referrals, "REF1")
    ∷ (leb_ℤ (pos 3) s.converted_referrals, "REF3")
    ∷ (leb_ℤ (pos 12) s.converted_referrals, "REF12")
    ∷ (leb_ℤ (pos 20) s.converted_referrals, "TC")
    ∷ (s.has_irl_referral, "IRL")
    ∷ (leb_ℤ (pos 7) s.distinct_initiatives, "INIT7")
    ∷ (
      ranked_within s.national_top_percent (pos 2) s.national_population min_rank_population,
      "NAT2",
    )
    ∷ (ranked_within s.city_rank (pos 50) s.city_population min_rank_population, "CITY50")
    ∷ (s.volunteer_opt_in, "V")
    ∷ (leb_ℤ (pos 1) s.event_checkins, "SU")
    ∷ (leb_ℤ (pos 3) s.event_checkins, "V3")
    ∷ (leb_ℤ (pos 10) s.event_checkins, "V10")
    ∷ (s.joined_team, "TP")
    ∷ []

-- `if condition { earned[code] = true }` for each condition
award : List (Bool × String) → Dict Bool → Dict Bool
award [] earned = earned
award ((met, code) ∷ rest) earned = award rest (if met then insert code true earned else earned)

unfoldable pub is_live : String → Bool
unfolding lookup_badge
is_live code = elim (lookup_badge code) [ none ↦ false | some b ↦ b.live ]

-- Evaluate: the last loop deletes each code that is not a live badge
unfoldable pub evaluate : Signals → Dict Bool
unfolding award is_live
evaluate s = keep (λ e. is_live e.0) (award (conditions s) [])
