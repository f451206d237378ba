-- ===== src/Recognition/Streak/Periods.antt =====
-- The billing periods that `donorPeriods` returns.
use impact_graph.Base.{
  ◌+◌, ◌*◌, ◌≤◌, ◌<◌, String, ◌≡◌, ◌≢◌, ◌↔◌, inl, inr, true, List, [], ◌∷◌, ◌==◌, eq_iff, arith,
  All, All-keep, keep, Bool-cases, ok, >>=-ok,
}
use impact_graph.Base.Sort.{sort, insert_sorted}
use impact_graph.Base.Dedupe.{dedupe}
use impact_graph.Base.Dedupe.Laws.{AllValid, dedupe_clean, All-dedupe}
use impact_graph.Recognition.Facts.{Time, day, Period, invalid}
use impact_graph.Recognition.Streak.{
  period_valid, period_eq, period_id, due_le, disjoint, donor_periods,
}

period_eq_iff : (p q : Period) → (period_eq p q ≡ true) ↔ (p ≡ q)
unfolding period_eq
period_eq_iff p q =
    ground (arith, eq_iff p.id q.id, eq_iff p.donor_id q.donor_id, eq_iff p.status q.status)

-- A month, and the donor's.
pub record IsMonth (donor : String) (p : Period) : Type 0 where
  pub named : p.id ≢ ""
  pub given_by : p.donor_id ≡ donor
  pub begins : 0 < p.due_at
  pub shortest : p.due_at + 27 * day ≤ p.ends_at
  pub longest : p.ends_at ≤ p.due_at + 32 * day

-- No period begins before an earlier one of the list has ended.
abbrev pub InTurn : List Period → Type 0
InTurn [] = Unit
InTurn (p ∷ ps) = All (λ q. p.ends_at ≤ q.due_at) ps × InTurn ps

period_valid_sound :
    (p : Period) (donor : String)
    → period_valid p ≡ true
    → (p.donor_id == donor) ≡ true
    → IsMonth donor p
unfolding period_valid
period_valid_sound p donor h d = record {
  named = ground (arith, eq_iff p.id "");
  given_by = (eq_iff p.donor_id donor).0 d;
  begins = ground arith;
  shortest = ground arith;
  longest = ground arith;
}

All-IsMonth-keep :
    (donor : String) (ps : List Period)
    → AllValid period_valid ps
    → All (IsMonth donor) (keep (λ p. p.donor_id == donor) ps)
unfolding keep
All-IsMonth-keep donor [] h = tt
All-IsMonth-keep donor (p ∷ ps) h = elim (Bool-cases (p.donor_id == donor)) [
  | inl own ↦ rw own (period_valid_sound p donor h.0 own, All-IsMonth-keep donor ps h.1)
  | inr other ↦ rw other (All-IsMonth-keep donor ps h.1)
]

All-insert :
    (P : Period → Type 0) (p : Period) (ps : List Period)
    → P p
    → All P ps
    → All P (insert_sorted due_le p ps)
unfolding insert_sorted
All-insert P p [] h k = (h, tt)
All-insert P p (q ∷ ps) h k = elim (Bool-cases (due_le p q)) [
  | inl first ↦ rw first (h, k)
  | inr later ↦ rw later (k.0, All-insert P p ps h k.1)
]

All-sort : (P : Period → Type 0) (ps : List Period) → All P ps → All P (sort due_le ps)
unfolding sort
All-sort P [] h = tt
All-sort P (p ∷ ps) h = All-insert P p (sort due_le ps) h.0 (All-sort P ps h.1)

-- Later periods begin after the end of each earlier one, since every period ends after it begins.
starts_after :
    (donor : String) (t : Time) (p : Period) (ps : List Period)
    → t ≤ p.due_at
    → All (IsMonth donor) (p ∷ ps)
    → disjoint (p ∷ ps) ≡ true
    → All (λ q. t ≤ q.due_at) (p ∷ ps)
unfolding disjoint
starts_after donor t p [] h m d = (h, tt)
starts_after donor t p (q ∷ ps) h m d =
    let shortest = m.0.shortest in (h, starts_after donor t q ps (ground arith) m.1 (ground arith))

disjoint-InTurn :
    (donor : String) (ps : List Period) → All (IsMonth donor) ps → disjoint ps ≡ true → InTurn ps
unfolding disjoint
disjoint-InTurn donor [] m d = tt
disjoint-InTurn donor (p ∷ []) m d = (tt, tt)
disjoint-InTurn donor (p ∷ q ∷ ps) m d =
    let rest : disjoint (q ∷ ps) ≡ true = ground arith in
    (
      starts_after donor p.ends_at q ps (ground arith) m.1 rest,
      disjoint-InTurn donor (q ∷ ps) m.1 rest,
    )

-- The periods that `donorPeriods` returns are months of the donor, and no two of them overlap:
-- although the loop compares neighbours only, each begins no earlier than every one before it ends.
pub donor_periods-InTurn :
    (input : List Period) (donor : String) {periods : List Period}
    → donor_periods input donor ≡ ok periods
    → All (IsMonth donor) periods × InTurn periods
unfolding donor_periods
donor_periods-InTurn input donor {periods} h =
    let (ps, read, rest) = >>=-ok (dedupe period_id period_eq period_valid invalid input) _ h in
    let valid =
      (dedupe_clean period_id period_eq period_valid invalid period_eq_iff input read).0 in
    let own = keep (λ p. p.donor_id == donor) ps in
    let apart : disjoint (sort due_le own) ≡ true = ground arith in
    let same : sort due_le own ≡ periods = ground arith in
    let months = All-sort (IsMonth donor) own (All-IsMonth-keep donor ps valid) in
    rw (← same) (months, disjoint-InTurn donor (sort due_le own) months apart)

-- What holds of every stored period holds of those that `donorPeriods` returns.
pub All-donor_periods :
    (P : Period → Type 0) (input : List Period) (donor : String) {periods : List Period}
    → donor_periods input donor ≡ ok periods
    → All P input
    → All P periods
unfolding donor_periods
All-donor_periods P input donor {periods} h k =
    let (ps, read, rest) = >>=-ok (dedupe period_id period_eq period_valid invalid input) _ h in
    let own = keep (λ p. p.donor_id == donor) ps in
    let same : sort due_le own ≡ periods = ground arith in
    rw (← same) (
      All-sort P own (
        All-keep P (λ p. p.donor_id == donor) ps
          (All-dedupe period_id period_eq period_valid invalid period_eq_iff P input read k)))
