-- ===== src/Recognition/Ladder/Milestones.antt =====
-- The streak lies between the last milestone and the next.
use impact_graph.Base.{
  ℕ, ◌+◌, ◌-◌, ◌*◌, ◌/◌, ◌≤◌, ◌<◌, ◌≡◌, refl, sym, ◌⊎◌, inl, inr, List, [], ◌∷◌, leb, true, arith,
  All, Exists, Option-cases, Bool-cases,
}
use mathlib.Core.Path.{subst}
use impact_graph.Recognition.Ladder.{
  final, first_past, next_milestone, last_reached, last_milestone,
}
use impact_graph.Recognition.Ladder.Rungs.{
  Increasing, Rung, next_milestone-past, first_past-none, first_past-some, le_of_Exists,
  final_greatest, last_milestone-IsGreatest, next_milestone_least, yearly_past_top,
}

-- The least rung above the days.
pub record IsNext (days m : ℕ) (ms : List ℕ) (r : ℕ) : Type 0 where
  pub is_rung : Rung r m ms
  pub past : days < r
  pub least : (x : ℕ) → Rung x m ms → days < x → r ≤ x

-- The greatest rung at or below the days, or 0 where the days reach none.
pub record IsLast (days m : ℕ) (ms : List ℕ) (r : ℕ) : Type 0 where
  pub is_rung : Rung r m ms ⊎ ((r ≡ 0) × (days < m))
  pub reached : r ≤ days
  pub greatest : (x : ℕ) → Rung x m ms → x ≤ days → x ≤ r

of-Exists : (P : ℕ → Type 0) (x : ℕ) (ms : List ℕ) → All P ms → Exists (λ n. x ≡ n) ms → P x
of-Exists P x [] a e = absurd e
of-Exists P x (m ∷ ms) a (inl here) = rw here a.0
of-Exists P x (m ∷ ms) a (inr there) = of-Exists P x ms a.1 there

-- The next milestone is no later than a year's rung above the days.
next_milestone-year :
    (days m k : ℕ) (ms : List ℕ)
    → Increasing 0 (m ∷ ms)
    → days < final m ms + k * 365
    → next_milestone days m ms ≤ final m ms + k * 365
unfolding next_milestone
next_milestone-year days m k ms i h = elim (Option-cases (first_past days (m ∷ ms))) [
  | inl beyond ↦
      let top = first_past-none days m ms beyond in
      let e : next_milestone days m ms ≡ final m ms + ((days - final m ms) / 365 + 1) * 365 =
        ground arith in
      omega (arith, e, top, h)
  | inr (n, found) ↦
      let rung = (first_past-some days (m ∷ ms) found).1 in
      let fits = le_of_Exists n (final m ms) (m ∷ ms) (final_greatest m ms i.1) rung in
      let e : next_milestone days m ms ≡ n = ground arith in omega (arith, e, fits)
]

-- The loop of `lastMilestone` ends at a milestone, or where it began if the days reach none.
last_reached-Exists :
    (days reached : ℕ) (ms : List ℕ)
    → Exists (λ n. last_reached days reached ms ≡ n) ms
      ⊎ ((last_reached days reached ms ≡ reached) × All (λ n. days < n) ms)
unfolding last_reached
last_reached-Exists days reached [] = inr (refl, tt)
last_reached-Exists days reached (m ∷ ms) = elim (Bool-cases (leb m days)) [
  | inl hit ↦
      let e : last_reached days reached (m ∷ ms) ≡ last_reached days m ms = rw hit in
      subst (λ r. Exists (λ n. r ≡ n) (m ∷ ms) ⊎ ((r ≡ reached) × All (λ n. days < n) (m ∷ ms)))
        (sym e)
        (elim (last_reached-Exists days m ms) [
          | inl later ↦ inl (inr later)
          | inr (same, rest) ↦ inl (inl same)
        ])
  | inr miss ↦
      let e : last_reached days reached (m ∷ ms) ≡ last_reached days reached ms = rw miss in
      subst (λ r. Exists (λ n. r ≡ n) (m ∷ ms) ⊎ ((r ≡ reached) × All (λ n. days < n) (m ∷ ms)))
        (sym e)
        (elim (last_reached-Exists days reached ms) [
          | inl later ↦ inl (inr later)
          | inr (same, rest) ↦ inr (same, (ground arith, rest))
        ])
]

last_milestone-Rung :
    (days m : ℕ) (ms : List ℕ)
    → Rung (last_milestone days m ms) m ms ⊎ ((last_milestone days m ms ≡ 0) × (days < m))
unfolding last_milestone
last_milestone-Rung days m ms = elim (Bool-cases (leb (final m ms) days)) [
  | inl top ↦
      let e : last_milestone days m ms ≡ final m ms + (days - final m ms) / 365 * 365 = rw top in
      inl (inr ((days - final m ms) / 365, e))
  | inr short ↦
      let e : last_milestone days m ms ≡ last_reached days 0 (m ∷ ms) = rw short in
      subst (λ r. Rung r m ms ⊎ ((r ≡ 0) × (days < m))) (sym e)
        (elim (last_reached-Exists days 0 (m ∷ ms)) [
          | inl found ↦ inl (inl found)
          | inr (start, all_past) ↦ inr (start, all_past.0)
        ])
]

last_milestone-year :
    (days m k : ℕ) (ms : List ℕ)
    → final m ms + k * 365 ≤ days
    → final m ms + k * 365 ≤ last_milestone days m ms
unfolding last_milestone
last_milestone-year days m k ms h =
    let top : leb (final m ms) days ≡ true = ground arith in
    let e : last_milestone days m ms ≡ final m ms + (days - final m ms) / 365 * 365 = rw top in
    omega (arith, e, h)

next_milestone-IsNext :
    (days m : ℕ) (ms : List ℕ) → Increasing 0 (m ∷ ms) → IsNext days m ms (next_milestone days m ms)
next_milestone-IsNext days m ms i =
    let (past, is_rung) = next_milestone-past days m ms in
    record {
      is_rung = is_rung;
      past = past;
      least = λ x rung. elim rung [
        | inl among ↦
            of-Exists (λ n. days < n → next_milestone days m ms ≤ n) x (m ∷ ms)
              (next_milestone_least days m ms i) among
        | inr (k, year) ↦ λ above. rw year (next_milestone-year days m k ms i (rw year at above))
      ];
    }

last_milestone-IsLast :
    (days m : ℕ) (ms : List ℕ) → Increasing 0 (m ∷ ms) → IsLast days m ms (last_milestone days m ms)
last_milestone-IsLast days m ms i =
    let (reached, milestones) = last_milestone-IsGreatest days m ms i in
    record {
      is_rung = last_milestone-Rung days m ms;
      reached = reached;
      greatest = λ x rung. elim rung [
        | inl among ↦
            of-Exists (λ n. n ≤ days → n ≤ last_milestone days m ms) x (m ∷ ms) milestones among
        | inr (k, year) ↦ λ below. rw year (last_milestone-year days m k ms (rw year at below))
      ];
    }

-- On an increasing ladder, which goes on every 365 days past its top, the last milestone is the greatest
-- rung at or below the days, or 0 where they reach none, and the next one is the least rung above them;
-- from the top of the ladder on the next is a year past the last.
pub milestones_bracket :
    (days m : ℕ) (ms : List ℕ)
    → Increasing 0 (m ∷ ms)
    → IsLast days m ms (last_milestone days m ms)
      × IsNext days m ms (next_milestone days m ms)
      × (final m ms ≤ days → next_milestone days m ms ≡ last_milestone days m ms + 365)
milestones_bracket days m ms i = (
  last_milestone-IsLast days m ms i,
  next_milestone-IsNext days m ms i,
  yearly_past_top days m ms i,
)
