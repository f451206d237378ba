-- ===== src/Referrals/Applied.antt =====
-- Applying the deltas moves the totals, and leaves the attributions and the sums over them alone.
use impact_graph.Base.{
  ℕ, ◌≡◌, refl, sym, ◌∙◌, ap, true, List, [], ◌∷◌, nat_eq, nat_eq_iff, if◌then◌else◌, ℤ, pos, ◌+ℤ◌,
  eqb_ℤ_iff, int_laws, Bool-cases, inl, inr, arith,
}
use impact_graph.Referrals.{
  Totals, no_totals, combine, Projection, row_at, set_row, seed_projection, referral_totals, Deltas,
  moves_nothing, apply_to_row, apply_delta, apply_all,
}
use impact_graph.Referrals.Algebra.{IsPart, contribution_to, add_zero}
use impact_graph.Referrals.Tables.{
  row_at-donor, row_at-set_row, row_at-seed_projection, part-set_row, part-seed_projection,
}
use impact_graph.Referrals.Deltas.{moved}

-- The attribution of the rows and the sums over them are as they were; the totals may not be.
pub record SameReferrals (rows rows' : List Projection) : Type 0 where
  pub row : (k j : ℕ) → contribution_to j (row_at k rows') ≡ contribution_to j (row_at k rows)
  pub referrer : (k : ℕ) → (row_at k rows').referrer_id ≡ (row_at k rows).referrer_id
  pub sums :
      {part : Totals → ℤ} (p : IsPart part) (j : ℕ)
      → part (referral_totals j rows') ≡ part (referral_totals j rows)

cancel_right : (a b c : ℤ) → a +ℤ c ≡ b +ℤ c → a ≡ b
cancel_right a b c h = grind int_laws

seed-SameReferrals :
    (donor : ℕ) (rows : List Projection) → SameReferrals rows (seed_projection donor rows)
seed-SameReferrals donor rows = record {
  row = λ k j. rw (row_at-seed_projection k donor rows) refl;
  referrer = λ k. rw (row_at-seed_projection k donor rows) refl;
  sums = λ p j. part-seed_projection p j donor rows;
}

pub contribution-with_totals :
    (j : ℕ) (r : Projection) (t : Totals)
    → contribution_to j (record r { totals = t }) ≡ contribution_to j r
unfolding contribution_to
contribution-with_totals j r t = refl

-- New totals for a row.
retotal_row :
    (id k : ℕ) (t : Totals) (rows : List Projection)
    → row_at k (set_row (record (row_at id rows) { totals = t }) rows)
      ≡ (if nat_eq id k then record (row_at id rows) { totals = t } else row_at k rows)
retotal_row id k t rows =
    row_at-set_row k (record (row_at id rows) { totals = t }) rows ∙ rw (row_at-donor id rows) refl

retotal-SameReferrals :
    (id : ℕ) (t : Totals) (rows : List Projection)
    → SameReferrals rows (set_row (record (row_at id rows) { totals = t }) rows)
retotal-SameReferrals id t rows =
    let new = record (row_at id rows) { totals = t } in
    let at = row_at-donor id rows in
    record {
      row = λ k j. elim (Bool-cases (nat_eq id k)) [
        | inl hit ↦
            let e = (nat_eq_iff id k).0 hit in
            rw (retotal_row id k t rows)
              (rw hit (rw (← e) (contribution-with_totals j (row_at id rows) t)))
        | inr miss ↦ rw (retotal_row id k t rows) (rw miss refl)
      ];
      referrer = λ k. elim (Bool-cases (nat_eq id k)) [
        | inl hit ↦
            let e = (nat_eq_iff id k).0 hit in rw (retotal_row id k t rows) (rw hit (rw (← e) refl))
        | inr miss ↦ rw (retotal_row id k t rows) (rw miss refl)
      ];
      sums = λ {part} p j.
          let before = part (referral_totals j rows) in
          let after = part (referral_totals j (set_row new rows)) in
          cancel_right after before (part (contribution_to j (row_at id rows))) (
            ap (λ x. after +ℤ part (contribution_to j (row_at x rows))) (sym at)
            ∙ part-set_row p j new rows
            ∙ ap (λ c. before +ℤ part c) (contribution-with_totals j (row_at id rows) t));
    }

SameReferrals-trans :
    {a b c : List Projection} → SameReferrals a b → SameReferrals b c → SameReferrals a c
SameReferrals-trans h g = record {
  row = λ k j. g.row k j ∙ h.row k j;
  referrer = λ k. g.referrer k ∙ h.referrer k;
  sums = λ p j. g.sums p j ∙ h.sums p j;
}

apply_delta-SameReferrals :
    (id : ℕ) (d : Totals) (rows : List Projection) → SameReferrals rows (apply_delta id d rows)
unfolding apply_delta apply_to_row
apply_delta-SameReferrals id d rows = elim (Bool-cases (moves_nothing d)) [
  | inl zero ↦ rw zero (record { row = λ k j. refl; referrer = λ k. refl; sums = λ p j. refl })
  | inr some_left ↦ rw some_left (
      SameReferrals-trans (seed-SameReferrals id rows)
        (retotal-SameReferrals id _ (seed_projection id rows)))
]

pub apply_all-SameReferrals :
    (ds : Deltas) (rows : List Projection) → SameReferrals rows (apply_all ds rows)
unfolding apply_all
apply_all-SameReferrals [] rows = record {
  row = λ k j. refl;
  referrer = λ k. refl;
  sums = λ p j. refl;
}
apply_all-SameReferrals ((id, d) ∷ more) rows =
    SameReferrals-trans (apply_delta-SameReferrals id d rows)
      (apply_all-SameReferrals more (apply_delta id d rows))

zero_totals : (d : Totals) → moves_nothing d ≡ true → d ≡ no_totals
zero_totals d h = ground (
  arith,
  eqb_ℤ_iff d.link_count (pos 0),
  eqb_ℤ_iff d.irl_count (pos 0),
  eqb_ℤ_iff d.link_minor (pos 0),
  eqb_ℤ_iff d.irl_minor (pos 0),
)

add_moved : (a b c : ℤ) → (a +ℤ b) +ℤ c ≡ a +ℤ (b +ℤ c)
add_moved a b c = grind int_laws

module _ {part : Totals → ℤ} (p : IsPart part) where
  apply_delta-totals :
      (k id : ℕ) (d : Totals) (rows : List Projection)
      → part (row_at k (apply_delta id d rows)).totals
        ≡ part (row_at k rows).totals +ℤ (if nat_eq id k then part d else pos 0)
  unfolding apply_delta apply_to_row
  apply_delta-totals k id d rows = elim (Bool-cases (moves_nothing d)) [
    | inl zero ↦
        let nothing : part d ≡ pos 0 = ap part (zero_totals d zero) ∙ p.nothing in
        elim (Bool-cases (nat_eq id k)) [
          | inl hit ↦ rw (zero, hit) (rw nothing (sym (add_zero (part (row_at k rows).totals))))
          | inr miss ↦ rw (zero, miss) (sym (add_zero (part (row_at k rows).totals)))
        ]
    | inr some_left ↦
        let there = seed_projection id rows in
        let row = retotal_row id k (combine ◌+ℤ◌ (row_at id there).totals d) there in
        elim (Bool-cases (nat_eq id k)) [
          | inl hit ↦
              let e = (nat_eq_iff id k).0 hit in
              rw some_left (
                rw row (
                  rw hit (
                    p.plus (row_at id there).totals d
                    ∙ rw (row_at-seed_projection id id rows) (rw e refl))))
          | inr miss ↦ rw some_left (
              rw row (
                rw miss (
                  rw (row_at-seed_projection k id rows)
                    (sym (add_zero (part (row_at k rows).totals))))))
        ]
  ]

  pub apply_all-totals :
      (k : ℕ) (ds : Deltas) (rows : List Projection)
      → part (row_at k (apply_all ds rows)).totals ≡ part (row_at k rows).totals +ℤ moved part k ds
  unfolding apply_all moved
  apply_all-totals k [] rows = sym (add_zero (part (row_at k rows).totals))
  apply_all-totals k ((id, d) ∷ more) rows =
      apply_all-totals k more (apply_delta id d rows)
      ∙ rw (apply_delta-totals k id d rows) (add_moved _ _ _)
