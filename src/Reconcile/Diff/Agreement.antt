-- ===== src/Reconcile/Diff/Agreement.antt =====
-- The objects that add nothing to the counts are those that agree with the books.
use impact_graph.Base.{
  String, ◌≡◌, refl, inl, inr, true, false, ◌==◌, some, arith, ℤ, eqb_ℤ, eqb_ℤ_iff, eq_iff, ok,
  Dict, lookup, Bool-cases, Option-cases,
}
use impact_graph.Base.Chars.{equal_fold}
use impact_graph.Payments.Facts.{Object, text_of}
use impact_graph.Reconcile.Objects.{financial_object, collected_charge, refund_status}
use impact_graph.Reconcile.Diff.{StoredGift, StoredRefund, Index, matched_gift}
use impact_graph.Reconcile.Diff.Counts.{charge_faults, refund_faults, Result-cases}

-- A charge that is not collected, or whose row has its amount and its currency.
pub data ChargeAgrees (ix : Index) (charge : Object) : Type 0 where
  uncollected : (amount : ℤ) → collected_charge charge ≡ ok (amount, false) → ChargeAgrees ix charge
  matched :
      (g : StoredGift)
      → collected_charge charge ≡ ok (g.amount_minor, true)
      → matched_gift ix charge ≡ some g
      → equal_fold (text_of charge "currency") g.currency ≡ true
      → ChargeAgrees ix charge

pub ChargeAgrees-sound :
    (ix : Index) (charge : Object) → charge_faults ix charge ≡ 0 → ChargeAgrees ix charge
unfolding charge_faults
ChargeAgrees-sound ix charge h = elim (Result-cases (collected_charge charge)) [
  | inl ((amount, collected), e) ↦ elim (Bool-cases collected) [
    | inl taken ↦ elim (Option-cases (matched_gift ix charge)) [
      | inl lost ↦ let bad = rw (charge_faults, e, taken, lost) at h in absurd (omega arith)
      | inr (g, found) ↦
          let sum = rw (charge_faults, e, taken, found) at h in
          let same : eqb_ℤ amount g.amount_minor ≡ true = ground arith in
          let coin : equal_fold (text_of charge "currency") g.currency ≡ true = ground arith in
          let a = (eqb_ℤ_iff amount g.amount_minor).0 same in ChargeAgrees.matched g (cc) found coin
    ]
    | inr left ↦ ChargeAgrees.uncollected amount (cc)
  ]
  | inr (f, e) ↦ let bad = rw (charge_faults, e) at h in absurd (omega arith)
]

pub ChargeAgrees-complete :
    (ix : Index) (charge : Object) → ChargeAgrees ix charge → charge_faults ix charge ≡ 0
unfolding charge_faults
ChargeAgrees-complete ix charge (ChargeAgrees.uncollected amount e) = rw (charge_faults, e) refl
ChargeAgrees-complete ix charge (ChargeAgrees.matched g e found coin) =
    let same = (eqb_ℤ_iff g.amount_minor g.amount_minor).1 refl in
    rw (charge_faults, e, found, coin) (ground arith)

-- A refund with a known status whose row has its amount, its status and its currency.
pub data RefundAgrees (rows : Dict StoredRefund) (refund : Object) : Type 0 where
  agrees :
      (id : String) (row : StoredRefund)
      → financial_object refund "re_" ≡ ok (id, row.amount_minor)
      → lookup id rows ≡ some row
      → (row.status == "") ≡ false
      → refund_status (text_of refund "status") ≡ row.status
      → equal_fold (text_of refund "currency") row.currency ≡ true
      → RefundAgrees rows refund

pub RefundAgrees-sound :
    (rows : Dict StoredRefund) (refund : Object)
    → refund_faults rows refund ≡ 0
    → RefundAgrees rows refund
unfolding refund_faults
RefundAgrees-sound rows refund h = elim (Result-cases (financial_object refund "re_")) [
  | inl ((id, amount), e) ↦ elim (Bool-cases (refund_status (text_of refund "status") == "")) [
    | inl unknown ↦ let bad = rw (refund_faults, e, unknown) at h in absurd (omega arith)
    | inr known ↦ elim (Option-cases (lookup id rows)) [
      | inl lost ↦ let bad = rw (refund_faults, e, known, lost) at h in absurd (omega arith)
      | inr (row, found) ↦
          let sum = rw (refund_faults, e, known, found) at h in
          let same : eqb_ℤ amount row.amount_minor ≡ true = ground arith in
          let told : (refund_status (text_of refund "status") == row.status) ≡ true =
            ground arith in
          let coin : equal_fold (text_of refund "currency") row.currency ≡ true = ground arith in
          let a = (eqb_ℤ_iff amount row.amount_minor).0 same in
          let b = (eq_iff (refund_status (text_of refund "status")) row.status).0 told in
          RefundAgrees.agrees id row (cc) found (rw (← b) known) b coin
    ]
  ]
  | inr (f, e) ↦ let bad = rw (refund_faults, e) at h in absurd (omega arith)
]

pub RefundAgrees-complete :
    (rows : Dict StoredRefund) (refund : Object)
    → RefundAgrees rows refund
    → refund_faults rows refund ≡ 0
unfolding refund_faults
RefundAgrees-complete rows refund (RefundAgrees.agrees id row e found known told coin) =
    let same = (eqb_ℤ_iff row.amount_minor row.amount_minor).1 refl in
    let named = (eq_iff (refund_status (text_of refund "status")) row.status).1 told in
    let kept : (refund_status (text_of refund "status") == "") ≡ false = rw (told) known in
    rw (refund_faults, e, kept, found, coin, named) (ground arith)
