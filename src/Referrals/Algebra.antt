-- ===== src/Referrals/Algebra.antt =====
-- The parts of totals add up, and a referrer's totals are the sum of its rows' contributions.
use impact_graph.Base.{
  ℕ, String, ◌≡◌, refl, true, false, ◌&&◌, Option, none, some, List, [], ◌∷◌, nat_eq, ◌==◌, eq_iff,
  if◌then◌else◌, ℤ, pos, ◌+ℤ◌, ◌-ℤ◌, int_laws, eq_of_parts, +ℤ_parts, pos_part, neg_part, ap,
  Bool-cases, inl, inr, arith,
}
use impact_graph.Referrals.{
  Totals, no_totals, combine, Projection, referral_contribution, refers_to, is_kind, count_positive,
  summed, filtered, referral_totals,
}

-- A field of the totals, as the proofs use it.
pub record IsPart (part : Totals → ℤ) : Type 0 where
  pub plus : (t u : Totals) → part (combine ◌+ℤ◌ t u) ≡ part t +ℤ part u
  pub minus : (t u : Totals) → part (combine ◌-ℤ◌ t u) ≡ part t -ℤ part u
  pub nothing : part no_totals ≡ pos 0

pub zero_add : (a : ℤ) → pos 0 +ℤ a ≡ a
zero_add a = grind int_laws

pub add_zero : (a : ℤ) → a +ℤ pos 0 ≡ a
add_zero a = grind int_laws

pub add_rotate : (a b c : ℤ) → (a +ℤ b) +ℤ c ≡ (c +ℤ b) +ℤ a
add_rotate a b c = grind int_laws

pub add_under : (a s o r n : ℤ) → s +ℤ o ≡ r +ℤ n → (a +ℤ s) +ℤ o ≡ (a +ℤ r) +ℤ n
add_under a s o r n h = eq_of_parts _ _ (
    let k = ap pos_part h in
    let l = ap neg_part h in
    omega (
      arith,
      +ℤ_parts s o,
      +ℤ_parts r n,
      +ℤ_parts a s,
      +ℤ_parts a r,
      +ℤ_parts (a +ℤ s) o,
      +ℤ_parts (a +ℤ r) n,
    ))

-- What a row contributes to a donor's totals.
unfoldable pub contribution_to : ℕ → Projection → Totals
contribution_to id r =
    if refers_to id r.referrer_id
    then referral_contribution r.referrer_id r.referral_kind r.net_minor
    else no_totals

link_or_irl : (kind : String) → (kind == "LINK") ≡ true → (kind == "IRL") ≡ false
link_or_irl kind h = let same = (eq_iff kind "LINK").0 h in rw same refl

-- The filters of the aggregate pick out the fields of the contribution.
pub filters_contribution :
    (id : ℕ) (referrer : Option ℕ) (kind : Option String) (net : Option ℤ)
    → (if refers_to id referrer then referral_contribution referrer kind net else no_totals)
      ≡ record {
        link_count =
            if refers_to id referrer && is_kind "LINK" kind then count_positive net else pos 0;
        irl_count =
            if refers_to id referrer && is_kind "IRL" kind then count_positive net else pos 0;
        link_minor = if refers_to id referrer && is_kind "LINK" kind then summed net else pos 0;
        irl_minor = if refers_to id referrer && is_kind "IRL" kind then summed net else pos 0;
      }
unfolding referral_contribution
filters_contribution id none kind net = refl
filters_contribution id (some r) none net = ground arith
filters_contribution id (some r) (some k) none = ground arith
filters_contribution id (some r) (some k) (some net) = elim (Bool-cases (nat_eq r id)) [
  | inr other ↦ rw other refl
  | inl hit ↦ elim (Bool-cases (k == "LINK")) [
    | inl link ↦ rw (hit, link, link_or_irl k link) refl
    | inr no_link ↦ elim (Bool-cases (k == "IRL")) [
      | inl irl ↦ rw (hit, no_link, irl) refl
      | inr neither ↦ rw (hit, no_link, neither) refl
    ]
  ]
]

-- A row more adds its contribution.
pub referral_totals-step :
    (id : ℕ) (r : Projection) (rows : List Projection)
    → referral_totals id (r ∷ rows) ≡ combine ◌+ℤ◌ (contribution_to id r) (referral_totals id rows)
unfolding referral_totals filtered contribution_to
referral_totals-step id r rows =
    rw (filters_contribution id r.referrer_id r.referral_kind r.net_minor) refl

module _ {part : Totals → ℤ} (p : IsPart part) where
  pub part-step :
      (id : ℕ) (r : Projection) (rows : List Projection)
      → part (referral_totals id (r ∷ rows))
        ≡ part (contribution_to id r) +ℤ part (referral_totals id rows)
  part-step id r rows =
      rw (referral_totals-step id r rows) (p.plus (contribution_to id r) (referral_totals id rows))

  pub part-none : (id : ℕ) → part (referral_totals id []) ≡ pos 0
  unfolding referral_totals filtered
  part-none id = p.nothing
