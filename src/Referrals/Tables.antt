-- ===== src/Referrals/Tables.antt =====
-- How a row that is set or seeded changes the rows by donor and the sums over them.
use impact_graph.Base.{
  ℕ, ◌≡◌, refl, false, List, [], ◌∷◌, ◌++◌, nat_eq, nat_eq_iff, if◌then◌else◌, any, ℤ, pos, ◌+ℤ◌,
  Bool-cases, inl, inr, arith,
}
use impact_graph.Referrals.{
  Totals, Projection, seeded, row_at, set_row, seed_projection, referral_totals,
}
use impact_graph.Referrals.Algebra.{
  IsPart, contribution_to, part-step, part-none, zero_add, add_zero, add_rotate, add_under,
}

pub row_at-donor : (donor : ℕ) (rows : List Projection) → (row_at donor rows).donor_id ≡ donor
unfolding row_at
row_at-donor donor [] = refl
row_at-donor donor (r ∷ rows) = elim (Bool-cases (nat_eq r.donor_id donor)) [
  | inl hit ↦ rw hit ((nat_eq_iff r.donor_id donor).0 hit)
  | inr miss ↦ rw miss (row_at-donor donor rows)
]

-- The row that is set is its donor's, and the others stay.
pub row_at-set_row :
    (k : ℕ) (new : Projection) (rows : List Projection)
    → row_at k (set_row new rows) ≡ (if nat_eq new.donor_id k then new else row_at k rows)
unfolding row_at set_row
row_at-set_row k new [] = refl
row_at-set_row k new (r ∷ rows) = elim (Bool-cases (nat_eq r.donor_id new.donor_id)) [
  | inl hit ↦ elim (Bool-cases (nat_eq new.donor_id k)) [
    | inl same ↦ rw (hit, same) refl
    | inr other ↦
        let no : nat_eq r.donor_id k ≡ false = ground arith in rw hit (rw (other, no) refl)
  ]
  | inr miss ↦
      let rest = row_at-set_row k new rows in
      elim (Bool-cases (nat_eq r.donor_id k)) [
        | inl here ↦
            let no : nat_eq new.donor_id k ≡ false = ground arith in rw miss (rw (here, no) refl)
        | inr away ↦ rw miss (rw away rest)
      ]
]

-- A seeded row is the one that is read where there is none.
row_at-append :
    (k donor : ℕ) (rows : List Projection)
    → any (λ r. nat_eq r.donor_id donor) rows ≡ false
    → row_at k (rows ++ (seeded donor ∷ [])) ≡ row_at k rows
unfolding row_at any
row_at-append k donor [] h = elim (Bool-cases (nat_eq donor k)) [
  | inl same ↦ let e = (nat_eq_iff donor k).0 same in rw same (rw e refl)
  | inr other ↦ rw other refl
]
row_at-append k donor (r ∷ rows) h = elim (Bool-cases (nat_eq r.donor_id k)) [
  | inl here ↦ rw here refl
  | inr away ↦ rw away (row_at-append k donor rows (ground arith))
]

pub row_at-seed_projection :
    (k donor : ℕ) (rows : List Projection) → row_at k (seed_projection donor rows) ≡ row_at k rows
unfolding seed_projection
row_at-seed_projection k donor rows = elim (Bool-cases (any (λ r. nat_eq r.donor_id donor) rows)) [
  | inl there ↦ rw there refl
  | inr absent ↦ rw absent (row_at-append k donor rows absent)
]

seeded_nothing :
    {part : Totals → ℤ} (p : IsPart part) (k donor : ℕ)
    → part (contribution_to k (seeded donor)) ≡ pos 0
unfolding contribution_to
seeded_nothing p k donor = p.nothing

module _ {part : Totals → ℤ} (p : IsPart part) where
  pub part-set_row :
      (k : ℕ) (new : Projection) (rows : List Projection)
      → part (referral_totals k (set_row new rows))
          +ℤ part (contribution_to k (row_at new.donor_id rows))
        ≡ part (referral_totals k rows) +ℤ part (contribution_to k new)
  unfolding row_at set_row
  part-set_row k new [] =
      rw (part-step p k new [], part-none p k, seeded_nothing p k new.donor_id)
        (rw (add_zero (part (contribution_to k new)), zero_add (part (contribution_to k new)))
          (add_zero (part (contribution_to k new))))
  part-set_row k new (r ∷ rows) = elim (Bool-cases (nat_eq r.donor_id new.donor_id)) [
    | inl hit ↦ rw hit (
        rw (part-step p k new rows, part-step p k r rows)
          (add_rotate (part (contribution_to k new)) (part (referral_totals k rows))
            (part (contribution_to k r))))
    | inr miss ↦ rw miss (
        rw (part-step p k r (set_row new rows), part-step p k r rows)
          (add_under (part (contribution_to k r)) (part (referral_totals k (set_row new rows)))
            (part (contribution_to k (row_at new.donor_id rows))) (part (referral_totals k rows))
            (part (contribution_to k new)) (part-set_row k new rows)))
  ]

  part-append :
      (k donor : ℕ) (rows : List Projection)
      → part (referral_totals k (rows ++ (seeded donor ∷ []))) ≡ part (referral_totals k rows)
  part-append k donor [] =
      rw (part-step p k (seeded donor) [], seeded_nothing p k donor)
        (zero_add (part (referral_totals k [])))
  part-append k donor (r ∷ rows) =
      rw
        (
          part-step p k r (rows ++ (seeded donor ∷ [])),
          part-step p k r rows,
          part-append k donor rows,
        )
        refl

  pub part-seed_projection :
      (k donor : ℕ) (rows : List Projection)
      → part (referral_totals k (seed_projection donor rows)) ≡ part (referral_totals k rows)
  unfolding seed_projection
  part-seed_projection k donor rows = elim (Bool-cases (any (λ r. nat_eq r.donor_id donor) rows)) [
    | inl there ↦ rw there refl
    | inr absent ↦ rw absent (part-append k donor rows)
  ]
