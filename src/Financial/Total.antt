-- ===== src/Financial/Total.antt =====
-- `netMinor`: the total of the net gifts.
use impact_graph.Base.{
  ◌≡◌, false, List, [], All, ◌∷◌, inl, inr, ok, Dict, ℤ, pos, ◌+ℤ◌, ◌-ℤ◌, ◌<ℤ◌, ltb_ℤ, ◌∙◌, ap, sym,
  ◌↔◌, int_laws, arith, Bool-cases,
}
use impact_graph.Recognition.Facts.{Time, Gift, Refund}
use impact_graph.Recognition.Net.{net_gifts}
use impact_graph.Financial.{max_int64, sum_amounts, net_minor}

-- The sum of the amounts, unbounded.
abbrev pub sum : Dict ℤ → ℤ
sum [] = pos 0
sum ((id, amount) ∷ more) = amount +ℤ sum more

sum_amounts_lem :
    (total : ℤ) (m : Dict ℤ) {end : ℤ}
    → ¬ (max_int64 <ℤ total)
    → sum_amounts total m ≡ ok end
    → (end ≡ total +ℤ sum m) × ¬ (max_int64 <ℤ end)
unfolding sum_amounts
sum_amounts_lem total [] small h = (grind int_laws, grind int_laws)
sum_amounts_lem total ((id, amount) ∷ more) {end} small h =
    elim (Bool-cases (ltb_ℤ (max_int64 -ℤ total) amount)) [
      | inl over ↦ absurd (cc)
      | inr fits ↦
          let (same, fits_too) =
            sum_amounts_lem (total +ℤ amount) more (grind int_laws) (rw fits at h) in
          (same ∙ grind int_laws, fits_too)
    ]

sum-positive : (m : Dict ℤ) → All (λ e. ¬ (e.1 <ℤ pos 0)) m → ¬ (sum m <ℤ pos 0)
sum-positive [] lows = λ big. omega (arith, big)
sum-positive ((id, amount) ∷ more) (low, lows) =
    let rest = sum-positive more lows in let small : ¬ (amount <ℤ pos 0) = low in grind int_laws

-- Amounts that are not negative are added up whenever their sum is in range.
sum_amounts_given :
    (total : ℤ) (m : Dict ℤ)
    → All (λ e. ¬ (e.1 <ℤ pos 0)) m
    → ¬ (max_int64 <ℤ (total +ℤ sum m))
    → sum_amounts total m ≡ ok (total +ℤ sum m)
unfolding sum_amounts
sum_amounts_given total [] lows fits = ap ok (grind int_laws)
sum_amounts_given total ((id, amount) ∷ more) (low, lows) fits =
    let rest = sum-positive more lows in
    let shifted : (total +ℤ amount) +ℤ sum more ≡ total +ℤ (amount +ℤ sum more) = grind int_laws in
    let in_range : ltb_ℤ (max_int64 -ℤ total) amount ≡ false = grind int_laws in
    rw in_range (sum_amounts_given (total +ℤ amount) more lows (rw shifted fits) ∙ ap ok shifted)

-- Where the net gifts are known and none is negative, netMinor gives a total exactly where that total is
-- their sum and is at most math.MaxInt64.
pub net_minor_total :
    (gifts : List Gift) (refunds : List Refund) (now : Time) {net : Dict ℤ} (total : ℤ)
    → net_gifts gifts refunds now ≡ ok net
    → All (λ e. ¬ (e.1 <ℤ pos 0)) net
    → (net_minor gifts refunds now ≡ ok total) ↔ ((total ≡ sum net) × ¬ (max_int64 <ℤ total))
unfolding net_minor
net_minor_total gifts refunds now {net} total found lows =
    let plain : pos 0 +ℤ sum net ≡ sum net = grind int_laws in
    (
      λ h.
          let (same, small) =
            sum_amounts_lem (pos 0) net (λ big. omega (arith, big)) (rw found at h) in
          (same ∙ plain, small),
      λ (same, small). rw found (
          sum_amounts_given (pos 0) net lows (rw (plain, ← same) small) ∙ ap ok (plain ∙ sym same)),
    )
