-- ===== src/Reconcile/Diff/Counts.antt =====
-- When the steps of `Diff` add nothing to the counts of the report.
use impact_graph.Base.{
  ℕ, ◌+◌, String, ◌≡◌, refl, ◌⊎◌, inl, inr, ◌==◌, none, some, if◌then◌else◌, arith, ltb, ℤ, eqb_ℤ,
  Result, ok, err, Dict, lookup, Bool-cases, Option-cases,
}
use impact_graph.Base.Chars.{equal_fold}
use impact_graph.Payments.Facts.{FactsFailure, Object, text_of}
use impact_graph.Reconcile.Objects.{financial_object, collected_charge, refund_status}
use impact_graph.Reconcile.Report.{Class, Report, note, has_discrepancies, sort_ids}
use impact_graph.Reconcile.Diff.{
  StoredRefund, Index, note_invalid, compare_amount, compare_status, compare_currency, Matching,
  matched_gift, collect, charge_step, settle_refund, refund_step,
}

-- All the discrepancies of a report.
abbrev pub total : Report → ℕ
total r =
    r.missing_gifts.count + r.missing_refunds.count + r.amount_mismatches.count
    + r.status_mismatches.count + r.db_without_stripe.count + r.currency_mismatches.count
    + r.invalid_objects.count

pub count-note : (id : String) (c : Class) → (note id c).count ≡ c.count + 1
unfolding note
count-note id c = refl

pub has_discrepancies-total : (r : Report) → has_discrepancies r ≡ ltb 0 (total r)
unfolding has_discrepancies
has_discrepancies-total r = ground arith

pub total-sort_ids : (r : Report) → total (sort_ids r) ≡ total r
unfolding sort_ids
total-sort_ids r = refl

total-compare_amount :
    (id : String) (a b : ℤ) (r : Report)
    → total (compare_amount id a b r) ≡ total r + (if eqb_ℤ a b then 0 else 1)
unfolding compare_amount
total-compare_amount id a b r = ground (arith, count-note id r.amount_mismatches)

total-compare_status :
    (id s t : String) (r : Report)
    → total (compare_status id s t r) ≡ total r + (if s == t then 0 else 1)
unfolding compare_status
total-compare_status id s t r = ground (arith, count-note id r.status_mismatches)

total-compare_currency :
    (id s t : String) (r : Report)
    → total (compare_currency id s t r) ≡ total r + (if equal_fold s t then 0 else 1)
unfolding compare_currency
total-compare_currency id s t r = ground (arith, count-note id r.currency_mismatches)

total-note_invalid :
    (id prefix : String) (r : Report) → total (note_invalid id prefix r) ≡ total r + 1
unfolding note_invalid
total-note_invalid id prefix r = ground arith

-- What a charge adds to the counts.
unfoldable pub charge_faults : Index → Object → ℕ
charge_faults ix charge = elim (collected_charge charge) [
  | err _ ↦ 1
  | ok (amount, collected) ↦
      if collected
      then (elim (matched_gift ix charge) [
        | none ↦ 1
        | some g ↦
            (if eqb_ℤ amount g.amount_minor then 0 else 1)
            + (if equal_fold (text_of charge "currency") g.currency then 0 else 1)
      ])
      else 0
]

pub Result-cases :
    {A : Type 0} (o : Result FactsFailure A)
    → ((a : A) × (o ≡ ok a)) ⊎ ((e : FactsFailure) × (o ≡ err e))
Result-cases (ok a) = inl (a, refl)
Result-cases (err e) = inr (e, refl)

total-collect :
    (ix : Index) (charge : Object) (amount : ℤ) (m : Matching)
    → total (collect ix charge amount m).report
      ≡ total m.report + (elim (matched_gift ix charge) [
        | none ↦ 1
        | some g ↦
            (if eqb_ℤ amount g.amount_minor then 0 else 1)
            + (if equal_fold (text_of charge "currency") g.currency then 0 else 1)
      ])
unfolding collect
total-collect ix charge amount m = elim (Option-cases (matched_gift ix charge)) [
  | inl none_there ↦
      rw (collect, none_there)
        (omega (arith, count-note (text_of charge "id") m.report.missing_gifts))
  | inr (g, e) ↦
      rw (collect, e)
        (omega (
          arith,
          total-compare_currency (text_of charge "id") (text_of charge "currency") g.currency
              (compare_amount (text_of charge "id") amount g.amount_minor m.report),
          total-compare_amount (text_of charge "id") amount g.amount_minor m.report,
        ))
]

pub total-charge_step :
    (ix : Index) (charge : Object) (m : Matching)
    → total (charge_step ix charge m).report ≡ total m.report + charge_faults ix charge
unfolding charge_step charge_faults
total-charge_step ix charge m = elim (Result-cases (collected_charge charge)) [
  | inl ((amount, collected), e) ↦ elim (Bool-cases collected) [
    | inl taken ↦ rw (charge_step, charge_faults, e, taken) (total-collect ix charge amount m)
    | inr left ↦ rw (charge_step, charge_faults, e, left) (omega arith)
  ]
  | inr (f, e) ↦
      rw (charge_step, charge_faults, e) (total-note_invalid (text_of charge "id") "ch_" m.report)
]

-- What a refund adds to the counts.
unfoldable pub refund_faults : Dict StoredRefund → Object → ℕ
refund_faults rows refund = elim (financial_object refund "re_") [
  | err _ ↦ 1
  | ok (id, amount) ↦
      if refund_status (text_of refund "status") == "" then 1 else (elim (lookup id rows) [
        | none ↦ 1
        | some row ↦
            (if eqb_ℤ amount row.amount_minor then 0 else 1)
            + (if refund_status (text_of refund "status") == row.status then 0 else 1)
            + (if equal_fold (text_of refund "currency") row.currency then 0 else 1)
      ])
]

total-settle_refund :
    (rows : Dict StoredRefund) (refund : Object) (id : String) (amount : ℤ) (status : String)
    (m : Matching)
    → total (settle_refund rows refund id amount status m).report
      ≡ total m.report + (elim (lookup id rows) [
        | none ↦ 1
        | some row ↦
            (if eqb_ℤ amount row.amount_minor then 0 else 1)
            + (if status == row.status then 0 else 1)
            + (if equal_fold (text_of refund "currency") row.currency then 0 else 1)
      ])
unfolding settle_refund
total-settle_refund rows refund id amount status m = elim (Option-cases (lookup id rows)) [
  | inl missing ↦
      rw (settle_refund, missing) (omega (arith, count-note id m.report.missing_refunds))
  | inr (row, e) ↦
      let r₁ = compare_amount id amount row.amount_minor m.report in
      rw (settle_refund, e)
        (omega (
          arith,
          total-compare_currency id (text_of refund "currency") row.currency
              (compare_status id status row.status r₁),
          total-compare_status id status row.status r₁,
          total-compare_amount id amount row.amount_minor m.report,
        ))
]

pub total-refund_step :
    (rows : Dict StoredRefund) (refund : Object) (m : Matching)
    → total (refund_step rows refund m).report ≡ total m.report + refund_faults rows refund
unfolding refund_step refund_faults
total-refund_step rows refund m = elim (Result-cases (financial_object refund "re_")) [
  | inl ((id, amount), e) ↦ elim (Bool-cases (refund_status (text_of refund "status") == "")) [
    | inl unknown ↦
        rw (refund_step, refund_faults, e, unknown)
          (total-note_invalid (text_of refund "id") "re_" m.report)
    | inr known ↦
        rw (refund_step, refund_faults, e, known)
          (total-settle_refund rows refund id amount (refund_status (text_of refund "status")) m)
  ]
  | inr (f, e) ↦
      rw (refund_step, refund_faults, e) (total-note_invalid (text_of refund "id") "re_" m.report)
]
