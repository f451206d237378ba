-- ===== src/Financial/Years.antt =====
-- The milestones of the card and the year, if neither a milestone nor a new year lies between two times.
use impact_graph.Base.{
  ℕ, ◌+◌, ◌≤◌, ◌<◌, ◌≡◌, refl, ap, ◌∙◌, ◌↔◌, inl, inr, Option, none, some, List, [], ◌∷◌, leb,
  Bool-cases, All, ℤ, pos, pos_part, ◌+ℤ◌, ◌-ℤ◌, ◌<ℤ◌, int_laws, arith,
}
use impact_graph.Recognition.Facts.{Time, Gift}
use impact_graph.Recognition.Net.Steady.{IsSteady}
use impact_graph.Recognition.Streak.{no_streak}
use impact_graph.Recognition.Ladder.{
  StreakLadder, ladder_with_milestones, next_milestone, last_milestone,
}
use impact_graph.Recognition.Ladder.Rungs.{Increasing}
use impact_graph.Recognition.Ladder.Milestones.{milestones_bracket}
use impact_graph.Financial.{milestone_boundary, year_boundary, reaches}

-- Between two rungs the milestones stay the same.
milestones_steady :
    (days more m : ℕ) (ms : List ℕ)
    → Increasing 0 (m ∷ ms)
    → days ≤ more
    → more < next_milestone days m ms
    → (next_milestone days m ms ≡ next_milestone more m ms)
      × (last_milestone days m ms ≡ last_milestone more m ms)
milestones_steady days more m ms i up short =
    let (last, next, _) = milestones_bracket days m ms i in
    let (last', next', _) = milestones_bracket more m ms i in
    let past = next'.past in
    let least = next.least (next_milestone more m ms) next'.is_rung (omega arith) in
    let least' = next'.least (next_milestone days m ms) next.is_rung short in
    let up' : last_milestone days m ms ≤ last_milestone more m ms = elim last.is_rung [
      | inl rung ↦
          let reached = last.reached in last'.greatest (last_milestone days m ms) rung (omega arith)
      | inr (start, _) ↦ omega (arith, start)
    ] in
    let down : last_milestone more m ms ≤ last_milestone days m ms = elim last'.is_rung [
      | inl rung ↦ elim (Bool-cases (leb (last_milestone more m ms) days)) [
        | inl low ↦ last.greatest (last_milestone more m ms) rung (ground arith)
        | inr high ↦
            let beyond = next.least (last_milestone more m ms) rung (ground arith) in
            let reached = last'.reached in absurd (omega arith)
      ]
      | inr (start, _) ↦ omega (arith, start)
    ] in
    (omega arith, omega arith)

module _ {Zone : Type 0} (civil_day : Zone → Time → ℤ) where
  -- The last milestone and the next on the card of a run, if there is one.
  abbrev pub card_milestones : Option Time → Time → Zone → ℕ → List ℕ → Option (ℕ × ℕ)
  card_milestones none t zone m ms = none
  card_milestones (some at) t zone m ms =
      let card =
        ladder_with_milestones civil_day (record no_streak { since = some at }) t zone m ms in
      some (card.last_milestone, card.next_milestone)

module _ {Zone : Type 0} (civil_day : Zone → Time → ℤ) (midnight : Zone → ℤ → Time)
    (begins : (zone : Zone) (t : Time) (d : ℤ)
      → (t < midnight zone d) ↔ (civil_day zone t <ℤ d)) where
  civil_day_mono : (zone : Zone) (t u : Time) → t ≤ u → ¬ (civil_day zone u <ℤ civil_day zone t)
  civil_day_mono zone t u on back =
      let early = (begins zone u (civil_day zone t)).1 back in
      let itself = (begins zone t (civil_day zone t)).0 (omega arith) in omega (arith, itself)

  card_steady :
      (at now later : Time) (zone : Zone) (m : ℕ) (ms : List ℕ)
      → Increasing 0 (m ∷ ms)
      → now ≤ later
      → All (IsSteady now later) (milestone_boundary civil_day midnight (some at) now zone m ms)
      → let card = λ (t : Time).
        ladder_with_milestones civil_day (record no_streak { since = some at }) t zone m ms in
        ((card now).next_milestone ≡ (card later).next_milestone)
        × ((card now).last_milestone ≡ (card later).last_milestone)
  unfolding ladder_with_milestones milestone_boundary reaches
  card_steady at now later zone m ms i on (steady, _) =
      let days = pos_part (civil_day zone now -ℤ civil_day zone at) in
      let more = pos_part (civil_day zone later -ℤ civil_day zone at) in
      let next = next_milestone days m ms in
      let past = (milestones_bracket days m ms i).1.past in
      let mono = civil_day_mono zone now later on in
      let ahead : civil_day zone now <ℤ (civil_day zone at +ℤ pos next) = grind int_laws in
      let before_it : now < midnight zone (civil_day zone at +ℤ pos next) =
        (begins zone now _).1 ahead in
      let still : later < midnight zone (civil_day zone at +ℤ pos next) = ground arith in
      let short : civil_day zone later <ℤ (civil_day zone at +ℤ pos next) =
        (begins zone later _).0 still in
      milestones_steady days more m ms i (grind int_laws) (grind int_laws)

  pub card_milestones_steady :
      (since : Option Time) (now later : Time) (zone : Zone) (m : ℕ) (ms : List ℕ)
      → Increasing 0 (m ∷ ms)
      → now ≤ later
      → All (IsSteady now later) (milestone_boundary civil_day midnight since now zone m ms)
      → card_milestones civil_day since now zone m ms
        ≡ card_milestones civil_day since later zone m ms
  card_milestones_steady none now later zone m ms i on steady = refl
  card_milestones_steady (some at) now later zone m ms i on steady =
      let (next, last) = card_steady at now later zone m ms i on steady in
      ap (λ n. some ((card at now).last_milestone, n)) next
      ∙ ap (λ l. some (l, (card at later).next_milestone)) last
    where
      card : Time → Time → StreakLadder
      card at t =
          ladder_with_milestones civil_day (record no_streak { since = some at }) t zone m ms

module _ (year : Time → ℕ) where
  -- The year of a donor who has given.
  abbrev pub year_given : List Gift → Time → Option ℕ
  year_given [] t = none
  year_given (g ∷ gs) t = some (year t)

module _ (year : Time → ℕ) (new_year : ℕ → Time)
    (ends : (t : Time) (y : ℕ) → (t < new_year (y + 1)) ↔ (year t ≤ y)) where
  pub year_given_steady :
      (now later : Time) (gifts : List Gift)
      → now ≤ later
      → All (IsSteady now later) (year_boundary year new_year gifts now)
      → year_given year gifts now ≡ year_given year gifts later
  unfolding year_boundary
  year_given_steady now later [] on h = refl
  year_given_steady now later (g ∷ gs) on (steady, _) =
      let ahead = (ends now (year now)).1 (omega arith) in
      let still : later < new_year (year now + 1) = ground arith in
      let up = (ends later (year now)).0 still in
      let here = (ends later (year later)).1 (omega arith) in
      let down = (ends now (year later)).0 (omega arith) in ap some (omega arith)
