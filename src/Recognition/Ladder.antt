-- ===== src/Recognition/Ladder.antt =====
-- The streak card: `Ladder`, its milestones and its bar.
--
-- `time.In` and `time.Date` of the Go library are read through `civil_day`, which numbers the
-- calendar date of an instant in a zone, so every statement holds for any zone.
pub mod Rungs
pub mod Milestones
pub mod Card
use impact_graph.Base.{
  ℕ, suc, zero, ◌+◌, ◌-◌, ◌*◌, ◌/◌, Bool, true, false, Option, none, some, List, [], ◌∷◌, ltb, leb,
  if◌then◌else◌, ℤ, pos_part, ◌-ℤ◌, map,
}
use impact_graph.Recognition.Facts.{Time, Streak}

abbrev pub ladder_milestones : List ℕ
ladder_milestones = 7 ∷ 30 ∷ 100 ∷ 365 ∷ 500 ∷ 1000 ∷ 1095 ∷ 1460 ∷ []

abbrev pub ladder_bar_days : ℕ
ladder_bar_days = 30

pub record StreakLadder : Type 0 where
  pub days : ℕ
  pub last_milestone : ℕ
  pub next_milestone : ℕ
  pub days_to_next : ℕ
  pub bar : List Bool

-- `milestones[len(milestones)-1]`, on a list that is not empty
abbrev pub final : ℕ → List ℕ → ℕ
final m [] = m
final m (n ∷ ms) = final n ms

-- The loop of `nextMilestone`: the first milestone past `days`.
pub first_past : ℕ → List ℕ → Option ℕ
first_past days [] = none
first_past days (m ∷ ms) = if ltb days m then some m else first_past days ms

-- nextMilestone, on the milestones `m ∷ ms`; an empty ladder is an index out of range.
unfoldable pub next_milestone : ℕ → ℕ → List ℕ → ℕ
unfolding first_past
next_milestone days m ms = elim (first_past days (m ∷ ms)) [
  | some n ↦ n
  | none ↦ let last = final m ms in last + ((days - last) / 365 + 1) * 365
]

-- The loop of `lastMilestone`: the last milestone at or below `days`.
last_reached : ℕ → ℕ → List ℕ → ℕ
last_reached days reached [] = reached
last_reached days reached (m ∷ ms) = last_reached days (if leb m days then m else reached) ms

-- lastMilestone
unfoldable pub last_milestone : ℕ → ℕ → List ℕ → ℕ
unfolding last_reached
last_milestone days m ms =
    let last = final m ms in
    if leb last days then last + (days - last) / 365 * 365 else last_reached days 0 (m ∷ ms)

-- `bar[i] = days >= ladderBarDays-1-i` for the indices `i` from `n` rounds before the end
bar_from : ℕ → ℕ → List Bool
bar_from zero days = []
bar_from (suc n) days = leb n days ∷ bar_from n days

empty_bar : ℕ → List Bool
empty_bar zero = []
empty_bar (suc n) = false ∷ empty_bar n

module _ {Zone : Type 0} (civil_day : Zone → Time → ℤ) where
  -- LadderWithMilestones, on the milestones `m ∷ ms`
  unfoldable pub ladder_with_milestones : Streak → Time → Zone → ℕ → List ℕ → StreakLadder
  unfolding bar_from empty_bar
  ladder_with_milestones s as_of zone m ms = elim s.since [
    | none ↦ record {
      days = 0;
      last_milestone = 0;
      next_milestone = m;
      days_to_next = m;
      bar = empty_bar ladder_bar_days;
    }
    | some since ↦
        let days = pos_part (civil_day zone as_of -ℤ civil_day zone since) in
        let next = next_milestone days m ms in
        record {
          days = days;
          last_milestone = last_milestone days m ms;
          next_milestone = next;
          days_to_next = next - days;
          bar = bar_from ladder_bar_days days;
        }
  ]

  -- Ladder
  unfoldable pub ladder : Streak → Time → Zone → StreakLadder
  unfolding ladder_with_milestones
  ladder s as_of zone =
      ladder_with_milestones s as_of zone 7 (30 ∷ 100 ∷ 365 ∷ 500 ∷ 1000 ∷ 1095 ∷ 1460 ∷ [])
