-- ===== src/Reconcile/Diff/Clean.antt =====
-- What a report without discrepancies says of the books.
use impact_graph.Base.{
  String, ◌≡◌, refl, ◌↔◌, ◌⊎◌, inl, inr, true, false, List, [], ◌∷◌, All, Exists, arith, Dict,
  lookup,
}
use impact_graph.Payments.Facts.{Object}
use impact_graph.Reconcile.Window.{Window}
use impact_graph.Reconcile.Report.{Report, has_discrepancies, sort_ids}
use impact_graph.Reconcile.Diff.{
  StoredGift, StoredRefund, gift_row_valid, refund_row_valid, Index, index_gifts, index_refunds,
  check_gifts, check_refunds, gift_ids, refund_ids, empty_report, diff, match_charges,
  match_refunds, unconfirmed,
}
use impact_graph.Reconcile.Diff.Counts.{total, has_discrepancies-total, total-sort_ids}
use impact_graph.Reconcile.Diff.Agreement.{ChargeAgrees, RefundAgrees}
use impact_graph.Reconcile.Diff.Totals.{
  Confirmed, total-match_charges, total-match_refunds, total-check_gifts, total-check_refunds,
  total-unconfirmed,
}
use impact_graph.Reconcile.Diff.Seen.{
  ConfirmsGift, ConfirmsRefund, seen-match_charges, seen-match_refunds,
}

abbrev pub gift_index : List StoredGift → Index
gift_index gifts = index_gifts gifts (record { by_charge = []; by_intent = [] })

abbrev pub refund_index : List StoredRefund → Dict StoredRefund
refund_index rows = index_refunds rows []

-- The rows are well formed, each of the processor's objects agrees with them, and some object confirms
-- each row that has an identifier.
pub record BooksAgree (charges refunds : List Object) (gifts : List StoredGift)
    (rows : List StoredRefund) : Type 0 where
  pub valid_gifts : All (λ g. gift_row_valid g ≡ true) gifts
  pub valid_refunds : All (λ row. refund_row_valid row ≡ true) rows
  pub charges_agree : All (ChargeAgrees (gift_index gifts)) charges
  pub refunds_agree : All (RefundAgrees (refund_index rows)) refunds
  pub gifts_confirmed :
      All (λ id. (id ≡ "") ⊎ Exists (ConfirmsGift (gift_index gifts) id) charges) (gift_ids gifts)
  pub refunds_confirmed :
      All
        (λ id. (id ≡ "") ⊎ Exists (ConfirmsRefund (refund_index rows) id) refunds)
        (refund_ids rows)

All-iff :
    {P Q : String → Type 0}
    → ((id : String) → P id ↔ Q id)
    → (ids : List String) → All P ids ↔ All Q ids
All-iff f [] = (λ h. h, λ h. h)
All-iff f (id ∷ ids) =
    let rest = All-iff f ids in (λ h. ((f id).0 h.0, rest.0 h.1), λ h. ((f id).1 h.0, rest.1 h.1))

-- A row counts as confirmed after the loop over the charges, started with nothing seen.
Confirmed-match_charges :
    (ix : Index) (charges : List Object) (r : Report) (id : String)
    → Confirmed (match_charges ix charges (record { report = r; seen = [] })).seen id
      ↔ ((id ≡ "") ⊎ Exists (ConfirmsGift ix id) charges)
unfolding lookup
Confirmed-match_charges ix charges r id =
    let s = seen-match_charges ix id charges (record { report = r; seen = [] }) in
    (
      λ h. elim h [
        | inl unnamed ↦ inl unnamed
        | inr marked ↦ elim (s.0 marked) [ inl old ↦ cc | inr by ↦ inr by ]
      ],
      λ h. elim h [ inl unnamed ↦ inl unnamed | inr by ↦ inr (s.1 (inr by)) ],
    )

Confirmed-match_refunds :
    (rows : Dict StoredRefund) (refunds : List Object) (r : Report) (id : String)
    → Confirmed (match_refunds rows refunds (record { report = r; seen = [] })).seen id
      ↔ ((id ≡ "") ⊎ Exists (ConfirmsRefund rows id) refunds)
unfolding lookup
Confirmed-match_refunds rows refunds r id =
    let s = seen-match_refunds rows id refunds (record { report = r; seen = [] }) in
    (
      λ h. elim h [
        | inl unnamed ↦ inl unnamed
        | inr marked ↦ elim (s.0 marked) [ inl old ↦ cc | inr by ↦ inr by ]
      ],
      λ h. elim h [ inl unnamed ↦ inl unnamed | inr by ↦ inr (s.1 (inr by)) ],
    )

-- `Diff` reports no discrepancy exactly when the books agree: every row is well formed, every
-- charge of the processor is well formed and either not collected or matched to a row with its
-- amount and currency, every refund is well formed and has a row with its amount, status and
-- currency, and every row that has an identifier is confirmed by one of the processor's objects.
pub diff-BooksAgree :
    (window : Window) (charges refunds : List Object) (gifts : List StoredGift)
    (rows : List StoredRefund)
    → (has_discrepancies (diff window charges refunds gifts rows) ≡ false)
      ↔ BooksAgree charges refunds gifts rows
unfolding diff
diff-BooksAgree window charges refunds gifts rows =
    let checked = check_refunds rows (check_gifts gifts (empty_report window)) in
    let collected =
      match_charges (gift_index gifts) charges (record { report = checked; seen = [] }) in
    let refunded =
      match_refunds (refund_index rows) refunds (record { report = collected.report; seen = [] }) in
    let unseen_gifts = unconfirmed collected.seen (gift_ids gifts) refunded.report in
    let last = unconfirmed refunded.seen (refund_ids rows) unseen_gifts in
    let flag = has_discrepancies-total (sort_ids last) in
    let sorted = total-sort_ids last in
    let a = total-check_gifts gifts (empty_report window) in
    let b = total-check_refunds rows (check_gifts gifts (empty_report window)) in
    let c =
      total-match_charges (gift_index gifts) charges (record { report = checked; seen = [] }) in
    let d =
      total-match_refunds (refund_index rows) refunds
        (record { report = collected.report; seen = [] }) in
    let e = total-unconfirmed collected.seen (gift_ids gifts) refunded.report in
    let f = total-unconfirmed refunded.seen (refund_ids rows) unseen_gifts in
    let g = All-iff (Confirmed-match_charges (gift_index gifts) charges checked) (gift_ids gifts) in
    let k =
      All-iff (Confirmed-match_refunds (refund_index rows) refunds collected.report)
        (refund_ids rows) in
    (
      λ h.
          let clear : total last ≡ 0 = ground arith in
          let (z₁, by_refund) = f.0 clear in
          let (z₂, by_gift) = e.0 z₁ in
          let (z₃, refunds_ok) = d.0 z₂ in
          let (z₄, charges_ok) = c.0 z₃ in
          let (z₅, rows_ok) = b.0 z₄ in
          record {
            valid_gifts = (a.0 z₅).1;
            valid_refunds = rows_ok;
            charges_agree = charges_ok;
            refunds_agree = refunds_ok;
            gifts_confirmed = g.0 by_gift;
            refunds_confirmed = k.0 by_refund;
          },
      λ h.
          let z = a.1 (refl, h.valid_gifts) in
          let clear : total last ≡ 0 = f.1 (
            e.1 (
              d.1 (c.1 (b.1 (z, h.valid_refunds), h.charges_agree), h.refunds_agree),
              g.1 h.gifts_confirmed,
            ),
            k.1 h.refunds_confirmed,
          ) in
          ground arith,
    )
