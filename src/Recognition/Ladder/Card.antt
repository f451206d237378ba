-- ===== src/Recognition/Ladder/Card.antt =====
-- The streak card for a running streak.
use impact_graph.Base.{
  ℕ, suc, zero, ◌+◌, ◌-◌, min, ◌≡◌, refl, sym, Bool, some, List, [], ◌∷◌, arith, ◌++◌, ap, leb,
  true, false, Bool-cases, inl, inr, ℤ, pos_part, ◌-ℤ◌,
}
use mathlib.Core.Path.{subst}
use impact_graph.Recognition.Facts.{Time, Streak}
use impact_graph.Recognition.Ladder.{
  StreakLadder, ladder_with_milestones, bar_from, next_milestone, last_milestone,
}
use impact_graph.Recognition.Ladder.Rungs.{Increasing}
use impact_graph.Recognition.Ladder.Milestones.{IsLast, IsNext, milestones_bracket}

-- So many equal cells.
abbrev pub cells : ℕ → Bool → List Bool
cells zero b = []
cells (suc n) b = b ∷ cells n b

-- Dark cells first, then a lit one for each day and one for the first.
bar_from-cells :
    (n days : ℕ) → bar_from n days ≡ cells (n - (days + 1)) false ++ cells (min n (days + 1)) true
unfolding bar_from
bar_from-cells zero days =
    let none_dark : 0 - (days + 1) ≡ 0 = omega arith in
    let none_lit : min 0 (days + 1) ≡ 0 = omega arith in rw (none_dark, none_lit) refl
bar_from-cells (suc n) days = elim (Bool-cases (leb n days)) [
  | inl reached ↦
      let rest = bar_from-cells n days in
      let e₁ : suc n - (days + 1) ≡ 0 = ground arith in
      let e₂ : n - (days + 1) ≡ 0 = ground arith in
      let e₃ : min (suc n) (days + 1) ≡ suc n = ground arith in
      let e₄ : min n (days + 1) ≡ n = ground arith in
      let more : bar_from n days ≡ cells n true = rw (e₂, e₄) at rest in
      rw (e₁, e₃, reached) (ap (λ bs. true ∷ bs) more)
  | inr dark ↦
      let rest = bar_from-cells n days in
      let e₁ : suc n - (days + 1) ≡ suc (n - (days + 1)) = ground arith in
      let e₃ : min (suc n) (days + 1) ≡ min n (days + 1) = ground arith in
      rw (e₁, e₃, dark) (ap (λ bs. false ∷ bs) rest)
]

-- What a card says of a streak of so many days.
abbrev pub IsCard : ℕ → ℕ → List ℕ → StreakLadder → Type 0
IsCard days m ms card =
    (card.days ≡ days)
    × IsLast days m ms card.last_milestone
    × IsNext days m ms card.next_milestone
    × (days + card.days_to_next ≡ card.next_milestone)
    × (card.bar ≡ cells (29 - days) false ++ cells (min 30 (days + 1)) true)

module _ {Zone : Type 0} (civil_day : Zone → Time → ℤ) where
  -- For a running streak and an increasing ladder, the card's days are the calendar days since the run
  -- began and none if there are fewer than that, its last milestone is the greatest rung at or below
  -- the days, or 0 where they reach none, and its next one is the least above them, the days to the next
  -- milestone are what is missing, and the bar has 30 cells, dark ones first and then, as far as it
  -- reaches, one lit cell for each day of the streak and one for its first day.
  pub ladder-IsCard :
      (s : Streak) (as_of : Time) (zone : Zone) (m : ℕ) (ms : List ℕ) {since : Time}
      → s.since ≡ some since
      → Increasing 0 (m ∷ ms)
      → IsCard
          (pos_part (civil_day zone as_of -ℤ civil_day zone since))
          m
          ms
          (ladder_with_milestones civil_day s as_of zone m ms)
  unfolding ladder_with_milestones
  ladder-IsCard s as_of zone m ms {since} h i =
      let days = pos_part (civil_day zone as_of -ℤ civil_day zone since) in
      let next = next_milestone days m ms in
      let card : StreakLadder = record {
        days = days;
        last_milestone = last_milestone days m ms;
        next_milestone = next;
        days_to_next = next - days;
        bar = bar_from 30 days;
      } in
      let e : ladder_with_milestones civil_day s as_of zone m ms ≡ card = rw h in
      let (greatest, next_rung, _) = milestones_bracket days m ms i in
      let above = next_rung.past in
      let dark : 30 - (days + 1) ≡ 29 - days = omega arith in
      subst (IsCard days m ms) (sym e)
        (refl, greatest, next_rung, omega arith, rw (← dark) (bar_from-cells 30 days))
