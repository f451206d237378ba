-- ===== src/Referrals/Deltas.antt =====
-- What the deltas of a projection move, and what applying them does.
use impact_graph.Base.{
  ℕ, ◌≡◌, refl, ◌∙◌, none, some, [], ◌∷◌, nat_eq, nat_eq_iff, sym, Option-cases, if◌then◌else◌, ℤ,
  pos, ◌+ℤ◌, ◌-ℤ◌, int_laws, Bool-cases, inl, inr,
}
use impact_graph.Base.Sort.{sort, insert_sorted}
use impact_graph.Referrals.{
  Totals, no_totals, Projection, referral_contribution, Deltas, add_to, add_contribution,
  referral_deltas, delta_le,
}
use impact_graph.Referrals.Algebra.{IsPart, contribution_to, zero_add, add_zero}

add_inner : (a d c : ℤ) → (d +ℤ c) +ℤ a ≡ (d +ℤ a) +ℤ c
add_inner a d c = grind int_laws

sub_inner : (a d c : ℤ) → (d -ℤ c) +ℤ a ≡ (d +ℤ a) -ℤ c
sub_inner a d c = grind int_laws

add_outer : (a d c : ℤ) → a +ℤ (d +ℤ c) ≡ (a +ℤ d) +ℤ c
add_outer a d c = grind int_laws

sub_outer : (a d c : ℤ) → a +ℤ (d -ℤ c) ≡ (a +ℤ d) -ℤ c
sub_outer a d c = grind int_laws

add_swap : (a b c : ℤ) → a +ℤ (b +ℤ c) ≡ b +ℤ (a +ℤ c)
add_swap a b c = grind int_laws

sub_zero : (a : ℤ) → a -ℤ pos 0 ≡ a
sub_zero a = grind int_laws

-- A sum over the entries of a donor.
unfoldable pub moved : (Totals → ℤ) → ℕ → Deltas → ℤ
moved part k [] = pos 0
moved part k ((id, d) ∷ more) = (if nat_eq id k then part d else pos 0) +ℤ moved part k more

module _ {part : Totals → ℤ} (p : IsPart part) where
  moved-add_to_plus :
      (k id : ℕ) (c : Totals) (m : Deltas)
      → moved part k (add_to ◌+ℤ◌ id c m)
        ≡ moved part k m +ℤ (if nat_eq id k then part c else pos 0)
  unfolding moved add_to
  moved-add_to_plus k id c [] = elim (Bool-cases (nat_eq id k)) [
    | inl hit ↦
        rw hit (rw (p.plus no_totals c, p.nothing) (rw (zero_add (part c)) (add_zero (part c))))
    | inr miss ↦ rw miss refl
  ]
  moved-add_to_plus k id c ((at, d) ∷ more) = elim (Bool-cases (nat_eq at id)) [
    | inl same ↦
        let e = (nat_eq_iff at id).0 same in
        elim (Bool-cases (nat_eq id k)) [
          | inl hit ↦
              rw same
                (rw e (rw hit (rw (p.plus d c) (add_inner (moved part k more) (part d) (part c)))))
          | inr miss ↦ rw same (rw e (rw miss (sym (add_zero (pos 0 +ℤ moved part k more)))))
        ]
    | inr other ↦ rw other (rw (moved-add_to_plus k id c more) (add_outer _ _ _))
  ]

  moved-add_to_minus :
      (k id : ℕ) (c : Totals) (m : Deltas)
      → moved part k (add_to ◌-ℤ◌ id c m)
        ≡ moved part k m -ℤ (if nat_eq id k then part c else pos 0)
  unfolding moved add_to
  moved-add_to_minus k id c [] = elim (Bool-cases (nat_eq id k)) [
    | inl hit ↦ rw hit (rw (p.minus no_totals c, p.nothing) (add_zero (pos 0 -ℤ part c)))
    | inr miss ↦ rw miss (add_zero (pos 0) ∙ sym (sub_zero (pos 0)))
  ]
  moved-add_to_minus k id c ((at, d) ∷ more) = elim (Bool-cases (nat_eq at id)) [
    | inl same ↦
        let e = (nat_eq_iff at id).0 same in
        elim (Bool-cases (nat_eq id k)) [
          | inl hit ↦
              rw same
                (rw e (rw hit (rw (p.minus d c) (sub_inner (moved part k more) (part d) (part c)))))
          | inr miss ↦ rw same (rw e (rw miss (sym (sub_zero (pos 0 +ℤ moved part k more)))))
        ]
    | inr other ↦ rw other (rw (moved-add_to_minus k id c more) (sub_outer _ _ _))
  ]

  part-contribution_to :
      (k : ℕ) (r : Projection) (referrer : ℕ)
      → r.referrer_id ≡ some referrer
      → part (contribution_to k r) ≡ (
          if nat_eq referrer k
          then part (referral_contribution (some referrer) r.referral_kind r.net_minor)
          else pos 0)
  unfolding contribution_to
  part-contribution_to k r referrer e = elim (Bool-cases (nat_eq referrer k)) [
    | inl hit ↦ rw e (rw hit refl)
    | inr miss ↦ rw e (rw miss p.nothing)
  ]

  part-no_referrer :
      (k : ℕ) (r : Projection) → r.referrer_id ≡ none → part (contribution_to k r) ≡ pos 0
  unfolding contribution_to
  part-no_referrer k r e = rw e p.nothing

  moved-added :
      (k : ℕ) (r : Projection) (m : Deltas)
      → moved part k (add_contribution ◌+ℤ◌ r.referrer_id r.referral_kind r.net_minor m)
        ≡ moved part k m +ℤ part (contribution_to k r)
  unfolding add_contribution
  moved-added k r m = elim (Option-cases r.referrer_id) [
    | inl e ↦ rw (part-no_referrer k r e) (rw e (sym (add_zero (moved part k m))))
    | inr (referrer, e) ↦
        rw (part-contribution_to k r referrer e) (rw e (moved-add_to_plus k referrer _ m))
  ]

  moved-taken :
      (k : ℕ) (r : Projection) (m : Deltas)
      → moved part k (add_contribution ◌-ℤ◌ r.referrer_id r.referral_kind r.net_minor m)
        ≡ moved part k m -ℤ part (contribution_to k r)
  unfolding add_contribution
  moved-taken k r m = elim (Option-cases r.referrer_id) [
    | inl e ↦ rw (part-no_referrer k r e) (rw e (sym (sub_zero (moved part k m))))
    | inr (referrer, e) ↦
        rw (part-contribution_to k r referrer e) (rw e (moved-add_to_minus k referrer _ m))
  ]

  -- The deltas take what the old row contributed to a donor, and give what the new one does.
  pub moved-referral_deltas :
      (k : ℕ) (old out : Projection)
      → moved part k (referral_deltas old out)
        ≡ (pos 0 -ℤ part (contribution_to k old)) +ℤ part (contribution_to k out)
  unfolding referral_deltas moved
  moved-referral_deltas k old out =
      moved-added k out (add_contribution ◌-ℤ◌ old.referrer_id old.referral_kind old.net_minor [])
      ∙ rw (moved-taken k old []) refl

  moved-insert_sorted :
      (k : ℕ) (x : ℕ × Totals) (ys : Deltas)
      → moved part k (insert_sorted delta_le x ys) ≡ moved part k (x ∷ ys)
  unfolding moved insert_sorted
  moved-insert_sorted k x [] = refl
  moved-insert_sorted k x (y ∷ ys) = elim (Bool-cases (delta_le x y)) [
    | inl e ↦ rw e refl
    | inr e ↦ rw e (rw (moved-insert_sorted k x ys) (add_swap _ _ _))
  ]

  pub moved-sort : (k : ℕ) (xs : Deltas) → moved part k (sort delta_le xs) ≡ moved part k xs
  unfolding moved sort
  moved-sort k [] = refl
  moved-sort k (x ∷ xs) = moved-insert_sorted k x (sort delta_le xs) ∙ rw (moved-sort k xs) refl
