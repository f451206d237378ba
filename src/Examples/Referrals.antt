-- ===== src/Examples/Referrals.antt =====
-- The theorem on referral totals, at a donor whose attribution is corrected.
use impact_graph.Base.{ℕ, String, ◌≡◌, refl, Option, none, some, List, [], ◌∷◌, ℤ, pos}
use impact_graph.Referrals.{Totals, no_totals, Projection, row_at, project_referrals}
use impact_graph.Referrals.Tallied.{IsTallied, project_referrals-IsTallied}

abbrev gift_of : ℕ → ℕ → String → Projection
gift_of donor referrer kind = record {
  donor_id = donor;
  referrer_id = some referrer;
  referral_kind = some kind;
  net_minor = some (pos 3000);
  totals = no_totals;
}

nobody-IsTallied : IsTallied []
unfolding impact_graph.Referrals.referral_totals row_at impact_graph.Referrals.filtered
nobody-IsTallied = record { tallied = λ k. refl; no_self = λ k. refl }

-- Donor 7 is referred by donor 1 through a link, and donor 8 in person.
abbrev two_gifts : List Projection
two_gifts = project_referrals (gift_of 8 1 "IRL") (project_referrals (gift_of 7 1 "LINK") [])

two_gifts-IsTallied : IsTallied two_gifts
two_gifts-IsTallied =
    project_referrals-IsTallied (gift_of 8 1 "IRL") (project_referrals (gift_of 7 1 "LINK") [])
      (project_referrals-IsTallied (gift_of 7 1 "LINK") [] nobody-IsTallied refl) refl

-- The gift of donor 7 turns out to be donor 2's.
abbrev corrected : List Projection
corrected = project_referrals (gift_of 7 2 "LINK") two_gifts

project_referrals-IsTallied_example : IsTallied corrected
project_referrals-IsTallied_example =
    project_referrals-IsTallied (gift_of 7 2 "LINK") two_gifts two_gifts-IsTallied refl

corrected-totals :
    ((row_at 1 corrected).totals
      ≡ record { link_count = pos 0; irl_count = pos 1; link_minor = pos 0; irl_minor = pos 3000 })
    × ((row_at 2 corrected).totals ≡ record {
      link_count = pos 1;
      irl_count = pos 0;
      link_minor = pos 3000;
      irl_minor = pos 0;
    })
unfolding row_at project_referrals impact_graph.Referrals.set_row
    impact_graph.Referrals.apply_referral_delta impact_graph.Referrals.apply_all
    impact_graph.Base.Sort.sort impact_graph.Referrals.referral_deltas
    impact_graph.Referrals.add_contribution impact_graph.Referrals.add_to
    impact_graph.Referrals.seed_projection impact_graph.Base.any impact_graph.Referrals.apply_delta
    impact_graph.Base.◌+ℤ◌ impact_graph.Referrals.referral_contribution
    impact_graph.Referrals.apply_to_row impact_graph.Base.◌-ℤ◌
corrected-totals = (refl, refl)
