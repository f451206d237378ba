-- ===== src/Referrals.antt =====
-- The referral totals of a donor's dashboard: `referralContribution`, `applyReferralDelta` and
-- `recomputeReferredTotals` of apps/donor-api/internal/store/financial.go, with the queries of
-- db/financial.sql and db/outbox.sql that they run.
--
-- A row of the projections has the columns that bear on referrals. Donors are the numbers of their
-- UUIDs. An int64 is an integer without bounds.
pub mod Algebra
pub mod Tables
pub mod Deltas
pub mod Applied
pub mod Tallied
use impact_graph.Base.{
  ℕ, String, Bool, true, false, not, ◌&&◌, Option, none, some, List, [], ◌∷◌, ◌++◌, nat_eq, leb,
  ◌==◌, if◌then◌else◌, any, ℤ, pos, ◌+ℤ◌, ◌-ℤ◌, ltb_ℤ, eqb_ℤ,
}
use impact_graph.Base.Sort.{sort}

pub record Totals : Type 0 where
  pub link_count : ℤ
  pub irl_count : ℤ
  pub link_minor : ℤ
  pub irl_minor : ℤ

abbrev pub no_totals : Totals
no_totals = record { link_count = pos 0; irl_count = pos 0; link_minor = pos 0; irl_minor = pos 0 }

-- Each field of one with that of the other.
abbrev pub combine : (ℤ → ℤ → ℤ) → Totals → Totals → Totals
combine op t u = record {
  link_count = op t.link_count u.link_count;
  irl_count = op t.irl_count u.irl_count;
  link_minor = op t.link_minor u.link_minor;
  irl_minor = op t.irl_minor u.irl_minor;
}

pub record Projection : Type 0 where
  pub donor_id : ℕ
  pub referrer_id : Option ℕ
  pub referral_kind : Option String
  pub net_minor : Option ℤ
  pub totals : Totals

-- SeedProjection's row
abbrev pub seeded : ℕ → Projection
seeded donor = record {
  donor_id = donor;
  referrer_id = none;
  referral_kind = none;
  net_minor = none;
  totals = no_totals;
}

abbrev pub if_positive : ℤ → ℤ
if_positive net = if ltb_ℤ (pos 0) net then pos 1 else pos 0

-- referralContribution
unfoldable pub referral_contribution : Option ℕ → Option String → Option ℤ → Totals
referral_contribution none kind net = no_totals
referral_contribution (some referrer) none net = no_totals
referral_contribution (some referrer) (some kind) none = no_totals
referral_contribution (some referrer) (some kind) (some net) =
    if kind == "LINK"
    then record no_totals { link_count = if_positive net; link_minor = net }
    else if kind == "IRL"
    then record no_totals { irl_count = if_positive net; irl_minor = net }
    else no_totals

-- The rows are unique by donor: the row of a donor, the one that is seeded where there is none.
unfoldable pub row_at : ℕ → List Projection → Projection
row_at donor [] = seeded donor
row_at donor (r ∷ rows) = if nat_eq r.donor_id donor then r else row_at donor rows

-- The insertion or update of a donor's row.
unfoldable pub set_row : Projection → List Projection → List Projection
set_row new [] = new ∷ []
set_row new (r ∷ rows) =
    let rest = set_row new rows in if nat_eq r.donor_id new.donor_id then new ∷ rows else r ∷ rest

-- SeedProjection
unfoldable pub seed_projection : ℕ → List Projection → List Projection
seed_projection donor rows =
    if any (λ r. nat_eq r.donor_id donor) rows then rows else rows ++ (seeded donor ∷ [])

abbrev pub refers_to : ℕ → Option ℕ → Bool
refers_to id none = false
refers_to id (some referrer) = nat_eq referrer id

abbrev pub is_kind : String → Option String → Bool
is_kind kind none = false
is_kind kind (some k) = k == kind

abbrev pub count_positive : Option ℤ → ℤ
count_positive none = pos 0
count_positive (some net) = if_positive net

abbrev pub summed : Option ℤ → ℤ
summed none = pos 0
summed (some net) = net

-- count(*) FILTER (WHERE kind AND net > 0), and sum(net) FILTER (WHERE kind), over the rows of a referrer
unfoldable pub filtered : String → (Option ℤ → ℤ) → ℕ → List Projection → ℤ
filtered kind value id [] = pos 0
filtered kind value id (r ∷ rows) =
    (if refers_to id r.referrer_id && is_kind kind r.referral_kind
      then value r.net_minor
      else pos 0)
    +ℤ filtered kind value id rows

-- ReferralTotalsFromReferred
unfoldable pub referral_totals : ℕ → List Projection → Totals
referral_totals id rows = record {
  link_count = filtered "LINK" count_positive id rows;
  irl_count = filtered "IRL" count_positive id rows;
  link_minor = filtered "LINK" summed id rows;
  irl_minor = filtered "IRL" summed id rows;
}

-- The map of `applyReferralDelta`, whose missing entries are zero.
abbrev pub Deltas : Type 0
Deltas = List (ℕ × Totals)

unfoldable pub add_to : (ℤ → ℤ → ℤ) → ℕ → Totals → Deltas → Deltas
add_to op id c [] = (id, combine op no_totals c) ∷ []
add_to op id c ((at, d) ∷ more) =
    let rest = add_to op id c more in
    if nat_eq at id then (at, combine op d c) ∷ more else (at, d) ∷ rest

-- The closure `add`, with the addition for the sign 1 and the subtraction for -1
unfoldable pub add_contribution :
    (ℤ → ℤ → ℤ) → Option ℕ → Option String → Option ℤ → Deltas → Deltas
add_contribution op none kind net deltas = deltas
add_contribution op (some referrer) kind net deltas =
    add_to op referrer (referral_contribution (some referrer) kind net) deltas

unfoldable pub referral_deltas : Projection → Projection → Deltas
referral_deltas old out =
    add_contribution ◌+ℤ◌ out.referrer_id out.referral_kind out.net_minor
      (add_contribution ◌-ℤ◌ old.referrer_id old.referral_kind old.net_minor [])

abbrev pub moves_nothing : Totals → Bool
moves_nothing d =
    eqb_ℤ d.link_count (pos 0)
    && (eqb_ℤ d.irl_count (pos 0) && (eqb_ℤ d.link_minor (pos 0) && eqb_ℤ d.irl_minor (pos 0)))

-- ApplyReferralDelta
unfoldable pub apply_to_row : ℕ → Totals → List Projection → List Projection
apply_to_row id d rows =
    let row = row_at id rows in set_row (record row { totals = combine ◌+ℤ◌ row.totals d }) rows

unfoldable pub apply_delta : ℕ → Totals → List Projection → List Projection
apply_delta id d rows =
    if moves_nothing d then rows else apply_to_row id d (seed_projection id rows)

-- The keys in order: that of the texts of UUIDs is that of their numbers.
abbrev pub delta_le : ℕ × Totals → ℕ × Totals → Bool
delta_le (a, _) (b, _) = leb a b

unfoldable pub apply_all : Deltas → List Projection → List Projection
apply_all [] rows = rows
apply_all ((id, d) ∷ more) rows = apply_all more (apply_delta id d rows)

-- applyReferralDelta, but for the badges of the referrer
unfoldable pub apply_referral_delta : Projection → Projection → List Projection → List Projection
apply_referral_delta old out rows = apply_all (sort delta_le (referral_deltas old out)) rows

-- projectFacts as far as referrals go: the donor's row is seeded, its totals are count_positive afresh, the
-- referrers' are moved, and the row is saved. `out` has the attribution and the net amount.
unfoldable pub project_referrals : Projection → List Projection → List Projection
project_referrals out rows =
    let rows₁ = seed_projection out.donor_id rows in
    let old = row_at out.donor_id rows₁ in
    let totals = referral_totals out.donor_id rows₁ in
    set_row (record out { totals = totals }) (apply_referral_delta old out rows₁)
