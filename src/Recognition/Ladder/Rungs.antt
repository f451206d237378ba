-- ===== src/Recognition/Ladder/Rungs.antt =====
-- The loops of `nextMilestone` and `lastMilestone` over an increasing ladder.
use impact_graph.Base.{
  ℕ, ◌+◌, ◌-◌, ◌*◌, ◌/◌, ◌≤◌, ◌<◌, ◌≡◌, refl, sym, ◌⊎◌, inl, inr, none, some, List, [], ◌∷◌, leb,
  ltb, arith, All, Exists, Option-cases, Bool-cases,
}
use mathlib.Core.Path.{subst}
use impact_graph.Recognition.Ladder.{
  final, first_past, next_milestone, last_reached, last_milestone,
}

-- Milestones in increasing order, none below `low`.
abbrev pub Increasing : ℕ → List ℕ → Type 0
Increasing low [] = Unit
Increasing low (m ∷ ms) = (low ≤ m) × Increasing m ms

-- A rung of the ladder: a milestone, or a number of years past the last.
abbrev pub Rung : ℕ → ℕ → List ℕ → Type 0
Rung r m ms = Exists (λ n. r ≡ n) (m ∷ ms) ⊎ ((k : ℕ) × (r ≡ final m ms + k * 365))

pub first_past-none :
    (days m : ℕ) (ms : List ℕ) → first_past days (m ∷ ms) ≡ none → final m ms ≤ days
unfolding first_past
first_past-none days m [] h = ground arith
first_past-none days m (n ∷ ms) h = first_past-none days n ms (ground arith)

pub first_past-some :
    (days : ℕ) (ms : List ℕ) {n : ℕ}
    → first_past days ms ≡ some n
    → (days < n) × Exists (λ x. n ≡ x) ms
unfolding first_past
first_past-some days [] h = cc
first_past-some days (m ∷ ms) {n} h = elim (Bool-cases (ltb days m)) [
  | inl past ↦ (ground arith, inl (ground arith))
  | inr short ↦ let r = first_past-some days ms (rw short at h) in (r.0, inr r.1)
]

-- A rung above the days.
abbrev pub Above : ℕ → ℕ → List ℕ → ℕ → Type 0
Above days m ms r = (days < r) × Rung r m ms

pub next_milestone-past : (days m : ℕ) (ms : List ℕ) → Above days m ms (next_milestone days m ms)
unfolding next_milestone
next_milestone-past days m ms = elim (Option-cases (first_past days (m ∷ ms))) [
  | inl beyond ↦
      let last = final m ms in
      let e : next_milestone days m ms ≡ last + ((days - last) / 365 + 1) * 365 = ground arith in
      subst (Above days m ms) (sym e) (omega arith, inr ((days - last) / 365 + 1, refl))
  | inr (n, found) ↦
      let (past, rung) = first_past-some days (m ∷ ms) found in
      let e : next_milestone days m ms ≡ n = ground arith in
      subst (Above days m ms) (sym e) (past, inl rung)
]

lower : (low low' : ℕ) (ms : List ℕ) → low' ≤ low → Increasing low ms → Increasing low' ms
lower low low' [] h i = tt
lower low low' (m ∷ ms) h i = (omega arith, i.1)

pub final_greatest : (m : ℕ) (ms : List ℕ) → Increasing m ms → All (λ n. n ≤ final m ms) (m ∷ ms)
final_greatest m [] i = (omega arith, tt)
final_greatest m (n ∷ ms) i = let rest = final_greatest n ms i.1 in (omega (arith, rest.0), rest)

-- At or below the days, and at least every milestone there.
abbrev pub IsGreatest : ℕ → List ℕ → ℕ → Type 0
IsGreatest days ms r = (r ≤ days) × All (λ n. n ≤ days → n ≤ r) ms

last_reached-IsGreatest :
    (days reached : ℕ) (ms : List ℕ)
    → reached ≤ days
    → Increasing reached ms
    → (reached ≤ last_reached days reached ms) × IsGreatest days ms (last_reached days reached ms)
unfolding last_reached
last_reached-IsGreatest days reached [] h i = (omega arith, (h, tt))
last_reached-IsGreatest days reached (m ∷ ms) h i = elim (Bool-cases (leb m days)) [
  | inl hit ↦
      let fits : m ≤ days = ground arith in
      let (up, (top, rest)) = last_reached-IsGreatest days m ms fits i.1 in
      let e : last_reached days reached (m ∷ ms) ≡ last_reached days m ms = rw hit in
      subst (λ r. (reached ≤ r) × IsGreatest days (m ∷ ms) r) (sym e)
        (omega arith, (top, (λ _. up, rest)))
  | inr miss ↦
      let over : days < m = ground arith in
      let (up, (top, rest)) =
        last_reached-IsGreatest days reached ms h (lower m reached ms i.0 i.1) in
      let e : last_reached days reached (m ∷ ms) ≡ last_reached days reached ms = rw miss in
      subst (λ r. (reached ≤ r) × IsGreatest days (m ∷ ms) r) (sym e)
        (up, (top, (λ q. absurd (omega arith), rest)))
]

All-below-final :
    (days last : ℕ) (ms : List ℕ)
    → All (λ n. n ≤ last) ms
    → All (λ n. n ≤ days → n ≤ last + (days - last) / 365 * 365) ms
All-below-final days last [] h = tt
All-below-final days last (m ∷ ms) h = (λ _. omega arith, All-below-final days last ms h.1)

pub last_milestone-IsGreatest :
    (days m : ℕ) (ms : List ℕ)
    → Increasing 0 (m ∷ ms)
    → IsGreatest days (m ∷ ms) (last_milestone days m ms)
unfolding last_milestone
last_milestone-IsGreatest days m ms i = elim (Bool-cases (leb (final m ms) days)) [
  | inl past ↦
      let fits : final m ms ≤ days = ground arith in
      let e : last_milestone days m ms ≡ final m ms + (days - final m ms) / 365 * 365 = rw past in
      subst (IsGreatest days (m ∷ ms)) (sym e)
        (omega arith, All-below-final days (final m ms) (m ∷ ms) (final_greatest m ms i.1))
  | inr short ↦
      let e : last_milestone days m ms ≡ last_reached days 0 (m ∷ ms) = rw short in
      subst (IsGreatest days (m ∷ ms)) (sym e)
        (last_reached-IsGreatest days 0 (m ∷ ms) (omega arith) i).1
]

first_past_least :
    (days low : ℕ) (ms : List ℕ) {n : ℕ}
    → Increasing low ms
    → first_past days ms ≡ some n
    → All (λ x. days < x → n ≤ x) ms
unfolding first_past
first_past_least days low [] i h = tt
first_past_least days low (m ∷ ms) {n} i h = elim (Bool-cases (ltb days m)) [
  | inl past ↦
      let same : m ≡ n = ground arith in
      subst (λ k. All (λ x. days < x → k ≤ x) (m ∷ ms)) same
        (λ _. omega arith, above m m ms (omega arith) i.1)
  | inr short ↦ (λ q. absurd (ground arith), first_past_least days m ms i.1 (rw short at h))
]
  where
    above :
        (k from : ℕ) (xs : List ℕ) → k ≤ from → Increasing from xs → All (λ x. days < x → k ≤ x) xs
    above k from [] h i = tt
    above k from (x ∷ xs) h i = (λ _. omega arith, above k x xs (omega arith) i.1)

All-vacuous :
    (days k last : ℕ) (ms : List ℕ)
    → last ≤ days
    → All (λ n. n ≤ last) ms
    → All (λ x. days < x → k ≤ x) ms
All-vacuous days k last [] h a = tt
All-vacuous days k last (m ∷ ms) h a = (λ q. absurd (omega arith), All-vacuous days k last ms h a.1)

pub next_milestone_least :
    (days m : ℕ) (ms : List ℕ)
    → Increasing 0 (m ∷ ms)
    → All (λ x. days < x → next_milestone days m ms ≤ x) (m ∷ ms)
unfolding next_milestone
next_milestone_least days m ms i = elim (Option-cases (first_past days (m ∷ ms))) [
  | inl beyond ↦
      All-vacuous days (next_milestone days m ms) (final m ms) (m ∷ ms)
        (first_past-none days m ms beyond) (final_greatest m ms i.1)
  | inr (n, found) ↦
      let e : next_milestone days m ms ≡ n = ground arith in
      subst (λ k. All (λ x. days < x → k ≤ x) (m ∷ ms)) (sym e)
        (first_past_least days 0 (m ∷ ms) i found)
]

pub le_of_Exists :
    (n top : ℕ) (ms : List ℕ) → All (λ x. x ≤ top) ms → Exists (λ x. n ≡ x) ms → n ≤ top
le_of_Exists n top [] a e = absurd e
le_of_Exists n top (m ∷ ms) a (inl here) = let h = a.0 in omega arith
le_of_Exists n top (m ∷ ms) a (inr there) = le_of_Exists n top ms a.1 there

pub yearly_past_top :
    (days m : ℕ) (ms : List ℕ)
    → Increasing 0 (m ∷ ms)
    → final m ms ≤ days
    → next_milestone days m ms ≡ last_milestone days m ms + 365
unfolding next_milestone last_milestone
yearly_past_top days m ms i top = elim (Option-cases (first_past days (m ∷ ms))) [
  | inl beyond ↦ ground arith
  | inr (n, found) ↦
      let (past, rung) = first_past-some days (m ∷ ms) found in
      let fits = le_of_Exists n (final m ms) (m ∷ ms) (final_greatest m ms i.1) rung in
      absurd (omega arith)
]
