-- ===== src/Reconcile/Diff/Totals.antt =====
-- When the loops of `Diff` add nothing to the counts of the report.
use impact_graph.Base.{
  ◌+◌, String, ◌≡◌, ◌↔◌, ◌⊎◌, Bool, true, false, not, ◌&&◌, ◌==◌, List, [], ◌∷◌, if◌then◌else◌, All,
  arith, eq_iff, Dict, contains,
}
use impact_graph.Payments.Facts.{Object}
use impact_graph.Reconcile.Report.{Report, note}
use impact_graph.Reconcile.Diff.{
  StoredGift, StoredRefund, gift_row_valid, refund_row_valid, count_invalid, Index, check_gifts,
  check_refunds, Matching, charge_step, match_charges, refund_step, match_refunds, unconfirmed,
}
use impact_graph.Reconcile.Diff.Counts.{
  total, count-note, charge_faults, total-charge_step, refund_faults, total-refund_step,
}
use impact_graph.Reconcile.Diff.Agreement.{
  ChargeAgrees, ChargeAgrees-sound, ChargeAgrees-complete, RefundAgrees, RefundAgrees-sound,
  RefundAgrees-complete,
}

pub total-match_charges :
    (ix : Index) (charges : List Object) (m : Matching)
    → (total (match_charges ix charges m).report ≡ 0)
      ↔ ((total m.report ≡ 0) × All (ChargeAgrees ix) charges)
unfolding match_charges
total-match_charges ix [] m = (λ h. (h, tt), λ h. h.0)
total-match_charges ix (c ∷ cs) m =
    let rest = total-match_charges ix cs (charge_step ix c m) in
    let one = total-charge_step ix c m in
    (
      λ h.
          let (z, all) = rest.0 h in
          let none_here : charge_faults ix c ≡ 0 = omega arith in
          (omega arith, (ChargeAgrees-sound ix c none_here, all)),
      λ h. let none_here = ChargeAgrees-complete ix c h.1.0 in rest.1 (omega (arith, h.0), h.1.1),
    )

pub total-match_refunds :
    (rows : Dict StoredRefund) (refunds : List Object) (m : Matching)
    → (total (match_refunds rows refunds m).report ≡ 0)
      ↔ ((total m.report ≡ 0) × All (RefundAgrees rows) refunds)
unfolding match_refunds
total-match_refunds rows [] m = (λ h. (h, tt), λ h. h.0)
total-match_refunds rows (c ∷ cs) m =
    let rest = total-match_refunds rows cs (refund_step rows c m) in
    let one = total-refund_step rows c m in
    (
      λ h.
          let (z, all) = rest.0 h in
          let none_here : refund_faults rows c ≡ 0 = omega arith in
          (omega arith, (RefundAgrees-sound rows c none_here, all)),
      λ h. let none_here = RefundAgrees-complete rows c h.1.0 in rest.1 (omega (arith, h.0), h.1.1),
    )

total-count_invalid :
    (valid : Bool) (r : Report) → total (count_invalid valid r) ≡ total r + (if valid then 0 else 1)
unfolding count_invalid
total-count_invalid valid r = ground arith

pub total-check_gifts :
    (gs : List StoredGift) (r : Report)
    → (total (check_gifts gs r) ≡ 0) ↔ ((total r ≡ 0) × All (λ g. gift_row_valid g ≡ true) gs)
unfolding check_gifts
total-check_gifts [] r = (λ h. (h, tt), λ h. h.0)
total-check_gifts (g ∷ gs) r =
    let rest = total-check_gifts gs (count_invalid (gift_row_valid g) r) in
    let one = total-count_invalid (gift_row_valid g) r in
    (
      λ h. let (z, all) = rest.0 h in (ground arith, (ground arith, all)),
      λ h. let v = h.1.0 in let z = h.0 in rest.1 (ground arith, h.1.1),
    )

pub total-check_refunds :
    (rs : List StoredRefund) (r : Report)
    → (total (check_refunds rs r) ≡ 0)
      ↔ ((total r ≡ 0) × All (λ row. refund_row_valid row ≡ true) rs)
unfolding check_refunds
total-check_refunds [] r = (λ h. (h, tt), λ h. h.0)
total-check_refunds (row ∷ rows) r =
    let rest = total-check_refunds rows (count_invalid (refund_row_valid row) r) in
    let one = total-count_invalid (refund_row_valid row) r in
    (
      λ h. let (z, all) = rest.0 h in (ground arith, (ground arith, all)),
      λ h. let v = h.1.0 in let z = h.0 in rest.1 (ground arith, h.1.1),
    )

-- A row without an identifier, or one that has been seen.
abbrev pub Confirmed : Dict Bool → String → Type 0
Confirmed seen id = (id ≡ "") ⊎ (contains id seen ≡ true)

pub total-unconfirmed :
    (seen : Dict Bool) (ids : List String) (r : Report)
    → (total (unconfirmed seen ids r) ≡ 0) ↔ ((total r ≡ 0) × All (Confirmed seen) ids)
unfolding unconfirmed
total-unconfirmed seen [] r = (λ h. (h, tt), λ h. h.0)
total-unconfirmed seen (id ∷ ids) r =
    let noted = record r { db_without_stripe = note id r.db_without_stripe } in
    let fault = not (id == "") && not (contains id seen) in
    let rest = total-unconfirmed seen ids (if fault then noted else r) in
    let one : total (if fault then noted else r) ≡ total r + (if fault then 1 else 0) =
      ground (arith, count-note id r.db_without_stripe) in
    (
      λ h.
          let (z, all) = rest.0 h in
          let clear : fault ≡ false = ground arith in
          (ground arith, (ground (arith, eq_iff id ""), all)),
      λ h.
          let k = h.1.0 in
          let z = h.0 in
          let clear : fault ≡ false = ground (arith, eq_iff id "") in rest.1 (ground arith, h.1.1),
    )
