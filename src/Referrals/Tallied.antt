-- ===== src/Referrals/Tallied.antt =====
-- The stored totals are those of the aggregate, whatever projections are saved.
use impact_graph.Base.{
  ℕ, ◌≡◌, refl, sym, ◌∙◌, ap, false, List, nat_eq, nat_eq_iff, nat_eq_refl, ℤ, pos, ◌+ℤ◌, ◌-ℤ◌,
  int_laws, Bool-cases, inl, inr,
}
use impact_graph.Base.Sort.{sort}
use impact_graph.Referrals.{
  Totals, no_totals, Projection, refers_to, row_at, set_row, seed_projection, referral_totals,
  referral_deltas, delta_le, apply_referral_delta, project_referrals,
}
use impact_graph.Referrals.Algebra.{IsPart, contribution_to, add_zero}
use impact_graph.Referrals.Tables.{
  row_at-set_row, row_at-seed_projection, part-set_row, part-seed_projection,
}
use impact_graph.Referrals.Deltas.{moved-referral_deltas, moved-sort}
use impact_graph.Referrals.Applied.{
  SameReferrals, contribution-with_totals, apply_all-SameReferrals, apply_all-totals,
}

set_row_other :
    (k : ℕ) (new : Projection) (rows : List Projection)
    → nat_eq new.donor_id k ≡ false
    → row_at k (set_row new rows) ≡ row_at k rows
set_row_other k new rows h = row_at-set_row k new rows ∙ rw h refl

set_row_same :
    (new : Projection) (rows : List Projection) → row_at new.donor_id (set_row new rows) ≡ new
set_row_same new rows = row_at-set_row new.donor_id new rows ∙ rw (nat_eq_refl new.donor_id) refl

-- Each donor's stored totals are those of the aggregate, and nobody refers to themselves.
pub record IsTallied (rows : List Projection) : Type 0 where
  pub tallied : (k : ℕ) → (row_at k rows).totals ≡ referral_totals k rows
  pub no_self : (k : ℕ) → refers_to k (row_at k rows).referrer_id ≡ false

pub Totals-eq :
    (t u : Totals)
    → t.link_count ≡ u.link_count
    → t.irl_count ≡ u.irl_count
    → t.link_minor ≡ u.link_minor
    → t.irl_minor ≡ u.irl_minor
    → t ≡ u
Totals-eq t u a b c d = cc

link_count-IsPart : IsPart (λ t. t.link_count)
link_count-IsPart = record { plus = λ t u. refl; minus = λ t u. refl; nothing = refl }

irl_count-IsPart : IsPart (λ t. t.irl_count)
irl_count-IsPart = record { plus = λ t u. refl; minus = λ t u. refl; nothing = refl }

link_minor-IsPart : IsPart (λ t. t.link_minor)
link_minor-IsPart = record { plus = λ t u. refl; minus = λ t u. refl; nothing = refl }

irl_minor-IsPart : IsPart (λ t. t.irl_minor)
irl_minor-IsPart = record { plus = λ t u. refl; minus = λ t u. refl; nothing = refl }

-- x is what was stored, o and n the old and the new contribution, f the new sum.
rebalanced : (x o n f : ℤ) → f +ℤ o ≡ x +ℤ n → x +ℤ ((pos 0 -ℤ o) +ℤ n) ≡ f
rebalanced x o n f h = grind int_laws

no_contribution :
    (k : ℕ) (r : Projection) → refers_to k r.referrer_id ≡ false → contribution_to k r ≡ no_totals
unfolding contribution_to
no_contribution k r h = rw h refl

module _ (out : Projection) (rows : List Projection) (t : IsTallied rows) where
  abbrev seeded_rows : List Projection
  seeded_rows = seed_projection out.donor_id rows

  abbrev old : Projection
  old = row_at out.donor_id seeded_rows

  abbrev moved_rows : List Projection
  moved_rows = apply_referral_delta old out seeded_rows

  abbrev saved : Projection
  saved = record out { totals = referral_totals out.donor_id seeded_rows }

  moved-SameReferrals : SameReferrals seeded_rows moved_rows
  unfolding apply_referral_delta
  moved-SameReferrals =
      apply_all-SameReferrals (sort delta_le (referral_deltas old out)) seeded_rows

  module _ {part : Totals → ℤ} (p : IsPart part) where
    seeded-tallied :
        (k : ℕ) → part (row_at k seeded_rows).totals ≡ part (referral_totals k seeded_rows)
    seeded-tallied k =
        ap (λ r. part r.totals) (row_at-seed_projection k out.donor_id rows)
        ∙ ap part (t.tallied k)
        ∙ sym (part-seed_projection p k out.donor_id rows)

    moved-totals :
        (k : ℕ)
        → part (row_at k moved_rows).totals
          ≡ part (row_at k seeded_rows).totals
            +ℤ ((pos 0 -ℤ part (contribution_to k old)) +ℤ part (contribution_to k out))
    unfolding apply_referral_delta
    moved-totals k =
        apply_all-totals p k (sort delta_le (referral_deltas old out)) seeded_rows
        ∙ ap (λ m. part (row_at k seeded_rows).totals +ℤ m)
            (moved-sort p k (referral_deltas old out) ∙ moved-referral_deltas p k old out)

    saved-sum :
        (k : ℕ)
        → part (referral_totals k (set_row saved moved_rows)) +ℤ part (contribution_to k old)
          ≡ part (referral_totals k seeded_rows) +ℤ part (contribution_to k out)
    saved-sum k =
        let same = moved-SameReferrals in
        ap (λ c. part (referral_totals k (set_row saved moved_rows)) +ℤ part c)
          (sym (same.row out.donor_id k))
        ∙ part-set_row p k saved moved_rows
        ∙ ap (λ b. b +ℤ part (contribution_to k saved)) (same.sums p k)
        ∙ ap (λ c. part (referral_totals k seeded_rows) +ℤ part c)
            (contribution-with_totals k out (referral_totals out.donor_id seeded_rows))

    old_nothing : part (contribution_to out.donor_id old) ≡ pos 0
    old_nothing =
        ap part (
          no_contribution out.donor_id old
            (rw (row_at-seed_projection out.donor_id out.donor_id rows) (t.no_self out.donor_id)))
        ∙ p.nothing

    saved_own :
        refers_to out.donor_id out.referrer_id ≡ false
        → part (referral_totals out.donor_id (set_row saved moved_rows))
          ≡ part (referral_totals out.donor_id seeded_rows)
    saved_own fair =
        let sum = part (referral_totals out.donor_id (set_row saved moved_rows)) in
        let before = part (referral_totals out.donor_id seeded_rows) in
        let fresh : part (contribution_to out.donor_id out) ≡ pos 0 =
          ap part (no_contribution out.donor_id out fair) ∙ p.nothing in
        sym (add_zero sum)
        ∙ ap (λ z. sum +ℤ z) (sym old_nothing)
        ∙ saved-sum out.donor_id
        ∙ ap (λ z. before +ℤ z) fresh
        ∙ add_zero before

    saved-tallied :
        refers_to out.donor_id out.referrer_id ≡ false
        → (k : ℕ)
        → part (row_at k (set_row saved moved_rows)).totals
          ≡ part (referral_totals k (set_row saved moved_rows))
    saved-tallied fair k = elim (Bool-cases (nat_eq out.donor_id k)) [
      | inr other ↦
          ap (λ r. part r.totals) (set_row_other k saved moved_rows other)
          ∙ moved-totals k
          ∙ rebalanced (part (row_at k seeded_rows).totals) (part (contribution_to k old))
              (part (contribution_to k out)) (part (referral_totals k (set_row saved moved_rows)))
              (saved-sum k ∙ ap (λ b. b +ℤ part (contribution_to k out)) (sym (seeded-tallied k)))
      | inl own ↦
          let e = (nat_eq_iff out.donor_id k).0 own in
          rw (← e) (ap (λ r. part r.totals) (set_row_same saved moved_rows) ∙ sym (saved_own fair))
    ]

  saved-no_self :
      refers_to out.donor_id out.referrer_id ≡ false
      → (k : ℕ) → refers_to k (row_at k (set_row saved moved_rows)).referrer_id ≡ false
  saved-no_self fair k = elim (Bool-cases (nat_eq out.donor_id k)) [
    | inr other ↦
        let same = moved-SameReferrals in
        let there : (row_at k moved_rows).referrer_id ≡ (row_at k rows).referrer_id =
          same.referrer k ∙ ap (λ r. r.referrer_id) (row_at-seed_projection k out.donor_id rows) in
        rw (set_row_other k saved moved_rows other) (rw there (t.no_self k))
    | inl own ↦
        let e = (nat_eq_iff out.donor_id k).0 own in
        rw (← e) (rw (set_row_same saved moved_rows) fair)
  ]

-- The totals that the dashboard reads are kept exact: where every donor's stored totals are those of
-- the aggregate over the rows that the donor referred, and nobody refers to themselves, they still are
-- after a projection is saved that does not refer to its own donor, whatever its attribution and its
-- net amount were before and are now.
pub project_referrals-IsTallied :
    (out : Projection) (rows : List Projection)
    → IsTallied rows
    → refers_to out.donor_id out.referrer_id ≡ false
    → IsTallied (project_referrals out rows)
unfolding project_referrals
project_referrals-IsTallied out rows t fair = record {
  tallied = λ k.
      Totals-eq _ _ (saved-tallied out rows t link_count-IsPart fair k)
        (saved-tallied out rows t irl_count-IsPart fair k)
        (saved-tallied out rows t link_minor-IsPart fair k)
        (saved-tallied out rows t irl_minor-IsPart fair k);
  no_self = saved-no_self out rows t fair;
}
