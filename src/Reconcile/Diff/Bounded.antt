-- ===== src/Reconcile/Diff/Bounded.antt =====
-- The report of `Diff` names at most 100 objects of a class, and no more than it counts.
use impact_graph.Base.{
  String, Bool, true, false, not, ◌&&◌, ◌==◌, List, [], ◌∷◌, if◌then◌else◌, ℤ, eqb_ℤ, Dict, lookup,
  contains, All, Bool-cases, Option-cases, inl, inr, arith,
}
use impact_graph.Base.Chars.{equal_fold}
use impact_graph.Payments.Facts.{Object, text_of}
use impact_graph.Reconcile.Window.{Window}
use impact_graph.Reconcile.Objects.{processor_id, financial_object, collected_charge, refund_status}
use impact_graph.Reconcile.Report.{Report, note, sort_ids}
use impact_graph.Reconcile.Report.Bounded.{
  IsBounded, classes, note-IsBounded, sort_class-IsBounded, length-append_id, length-append_id_le,
}
use impact_graph.Reconcile.Diff.{
  StoredGift, StoredRefund, gift_row_valid, refund_row_valid, count_invalid, Index, index_gifts,
  index_refunds, check_gifts, check_refunds, note_invalid, compare_amount, compare_status,
  compare_currency, Matching, matched_gift, collect, charge_step, match_charges, settle_refund,
  refund_step, match_refunds, unconfirmed, gift_ids, refund_ids, empty_report, diff,
}
use impact_graph.Reconcile.Diff.Counts.{Result-cases}

-- Every class of the report is bounded.
Bounded : Report → Type 0
Bounded r = All IsBounded (classes r)

Bounded-count_invalid : (valid : Bool) (r : Report) → Bounded r → Bounded (count_invalid valid r)
unfolding Bounded count_invalid
Bounded-count_invalid true r h = h
Bounded-count_invalid false r (a, (b, (c, (d, (e, (f, (g, u))))))) =
    (a, (b, (c, (d, (e, (f, ((omega (arith, g.0), g.1), u)))))))

Bounded-note_invalid :
    (id prefix : String) (r : Report) → Bounded r → Bounded (note_invalid id prefix r)
unfolding Bounded note_invalid
Bounded-note_invalid id prefix r (a, (b, (c, (d, (e, (f, (g, u))))))) =
    let ids = r.invalid_objects.ids in
    elim (Bool-cases (processor_id id prefix)) [
      | inl named ↦
          rw (note_invalid, named)
            (
              a,
              (
                b,
                (
                  c,
                  (
                    d,
                    (
                      e,
                      (
                        f,
                        (
                          (
                            omega (arith, length-append_id ids id, g.0),
                            length-append_id_le ids id g.1,
                          ),
                          u,
                        ),
                      ),
                    ),
                  ),
                ),
              ),
            )
      | inr other ↦
          rw (note_invalid, other) (a, (b, (c, (d, (e, (f, ((omega (arith, g.0), g.1), u)))))))
    ]

Bounded-compare_amount :
    (id : String) (x y : ℤ) (r : Report) → Bounded r → Bounded (compare_amount id x y r)
unfolding Bounded compare_amount
Bounded-compare_amount id x y r h = elim (Bool-cases (eqb_ℤ x y)) [
  | inl same ↦ rw (compare_amount, same) h
  | inr other ↦
      rw (compare_amount, other)
        (h.0, (h.1.0, (note-IsBounded id r.amount_mismatches h.1.1.0, h.1.1.1)))
]

Bounded-compare_status :
    (id s t : String) (r : Report) → Bounded r → Bounded (compare_status id s t r)
unfolding Bounded compare_status
Bounded-compare_status id s t r h = elim (Bool-cases (s == t)) [
  | inl same ↦ rw (compare_status, same) h
  | inr other ↦
      rw (compare_status, other)
        (h.0, (h.1.0, (h.1.1.0, (note-IsBounded id r.status_mismatches h.1.1.1.0, h.1.1.1.1))))
]

Bounded-compare_currency :
    (id s t : String) (r : Report) → Bounded r → Bounded (compare_currency id s t r)
unfolding Bounded compare_currency
Bounded-compare_currency id s t r (a, (b, (c, (d, (e, (f, g)))))) =
    elim (Bool-cases (equal_fold s t)) [
      | inl same ↦ rw (compare_currency, same) (a, (b, (c, (d, (e, (f, g))))))
      | inr other ↦
          rw (compare_currency, other)
            (a, (b, (c, (d, (e, (note-IsBounded id r.currency_mismatches f, g))))))
    ]

Bounded-collect :
    (ix : Index) (charge : Object) (amount : ℤ) (m : Matching)
    → Bounded m.report
    → Bounded (collect ix charge amount m).report
unfolding Bounded collect
Bounded-collect ix charge amount m h = elim (Option-cases (matched_gift ix charge)) [
  | inl lost ↦
      rw (collect, lost) (note-IsBounded (text_of charge "id") m.report.missing_gifts h.0, h.1)
  | inr (g, found) ↦
      let id = text_of charge "id" in
      rw (collect, found)
        (Bounded-compare_currency id (text_of charge "currency") g.currency
          (compare_amount id amount g.amount_minor m.report)
          (Bounded-compare_amount id amount g.amount_minor m.report h))
]

Bounded-match_charges :
    (ix : Index) (charges : List Object) (m : Matching)
    → Bounded m.report
    → Bounded (match_charges ix charges m).report
unfolding Bounded match_charges charge_step
Bounded-match_charges ix [] m h = h
Bounded-match_charges ix (c ∷ cs) m h =
    Bounded-match_charges ix cs (charge_step ix c m) (elim (Result-cases (collected_charge c)) [
      | inl ((amount, collected), e) ↦ elim (Bool-cases collected) [
        | inl taken ↦ rw (charge_step, e, taken) (Bounded-collect ix c amount m h)
        | inr left ↦ rw (charge_step, e, left) h
      ]
      | inr (f, e) ↦ rw (charge_step, e) (Bounded-note_invalid (text_of c "id") "ch_" m.report h)
    ])

Bounded-settle_refund :
    (rows : Dict StoredRefund) (refund : Object) (id : String) (amount : ℤ) (status : String)
    (m : Matching)
    → Bounded m.report
    → Bounded (settle_refund rows refund id amount status m).report
unfolding Bounded settle_refund
Bounded-settle_refund rows refund id amount status m h = elim (Option-cases (lookup id rows)) [
  | inl lost ↦
      rw (settle_refund, lost) (h.0, (note-IsBounded id m.report.missing_refunds h.1.0, h.1.1))
  | inr (row, found) ↦
      let r₁ = compare_amount id amount row.amount_minor m.report in
      rw (settle_refund, found)
        (Bounded-compare_currency id (text_of refund "currency") row.currency
          (compare_status id status row.status r₁)
          (Bounded-compare_status id status row.status r₁
            (Bounded-compare_amount id amount row.amount_minor m.report h)))
]

Bounded-match_refunds :
    (rows : Dict StoredRefund) (refunds : List Object) (m : Matching)
    → Bounded m.report
    → Bounded (match_refunds rows refunds m).report
unfolding Bounded match_refunds refund_step
Bounded-match_refunds rows [] m h = h
Bounded-match_refunds rows (c ∷ cs) m h =
    let broken = Bounded-note_invalid (text_of c "id") "re_" m.report h in
    Bounded-match_refunds rows cs (refund_step rows c m)
      (elim (Result-cases (financial_object c "re_")) [
        | inl ((id, amount), e) ↦ elim (Bool-cases (refund_status (text_of c "status") == "")) [
          | inl unknown ↦ rw (refund_step, e, unknown) broken
          | inr known ↦
              rw (refund_step, e, known)
                (Bounded-settle_refund rows c id amount (refund_status (text_of c "status")) m h)
        ]
        | inr (f, e) ↦ rw (refund_step, e) broken
      ])

Bounded-check_gifts : (gs : List StoredGift) (r : Report) → Bounded r → Bounded (check_gifts gs r)
unfolding check_gifts
Bounded-check_gifts [] r h = h
Bounded-check_gifts (g ∷ gs) r h =
    Bounded-check_gifts gs (count_invalid (gift_row_valid g) r)
      (Bounded-count_invalid (gift_row_valid g) r h)

Bounded-check_refunds :
    (rs : List StoredRefund) (r : Report) → Bounded r → Bounded (check_refunds rs r)
unfolding check_refunds
Bounded-check_refunds [] r h = h
Bounded-check_refunds (g ∷ gs) r h =
    Bounded-check_refunds gs (count_invalid (refund_row_valid g) r)
      (Bounded-count_invalid (refund_row_valid g) r h)

Bounded-unconfirmed :
    (seen : Dict Bool) (ids : List String) (r : Report)
    → Bounded r
    → Bounded (unconfirmed seen ids r)
unfolding Bounded unconfirmed
Bounded-unconfirmed seen [] r h = h
Bounded-unconfirmed seen (id ∷ ids) r (a, (b, (c, (d, (e, f))))) =
    let noted = record r { db_without_stripe = note id r.db_without_stripe } in
    let fault = not (id == "") && not (contains id seen) in
    Bounded-unconfirmed seen ids (if fault then noted else r) (elim (Bool-cases fault) [
      | inl bad ↦ rw (bad) (a, (b, (c, (d, (note-IsBounded id r.db_without_stripe e, f)))))
      | inr good ↦ rw (good) (a, (b, (c, (d, (e, f)))))
    ])

-- Whatever `Diff` is given, each class of its report names no more objects than it counts, and at most
-- 100, so that a bad day cannot print an unbounded report.
pub diff-IsBounded :
    (window : Window) (charges refunds : List Object) (gifts : List StoredGift)
    (rows : List StoredRefund)
    → All IsBounded (classes (diff window charges refunds gifts rows))
unfolding diff Bounded sort_ids
diff-IsBounded window charges refunds gifts rows =
    let ix = index_gifts gifts (record { by_charge = []; by_intent = [] }) in
    let table = index_refunds rows [] in
    let checked = check_refunds rows (check_gifts gifts (empty_report window)) in
    let collected = match_charges ix charges (record { report = checked; seen = [] }) in
    let refunded = match_refunds table refunds (record { report = collected.report; seen = [] }) in
    let zero_class : IsBounded (record { count = 0; ids = [] }) = (omega arith, omega arith) in
    let start : Bounded (empty_report window) = (
      zero_class,
      (zero_class, (zero_class, (zero_class, (zero_class, (zero_class, (zero_class, tt)))))),
    ) in
    let b =
      Bounded-check_refunds rows (check_gifts gifts (empty_report window))
        (Bounded-check_gifts gifts (empty_report window) start) in
    let c = Bounded-match_charges ix charges (record { report = checked; seen = [] }) b in
    let d =
      Bounded-match_refunds table refunds (record { report = collected.report; seen = [] }) c in
    let e = Bounded-unconfirmed collected.seen (gift_ids gifts) refunded.report d in
    let last =
      unconfirmed refunded.seen (refund_ids rows)
        (unconfirmed collected.seen (gift_ids gifts) refunded.report) in
    let f : Bounded last =
      Bounded-unconfirmed refunded.seen (refund_ids rows)
        (unconfirmed collected.seen (gift_ids gifts) refunded.report) e in
    (
      sort_class-IsBounded last.missing_gifts f.0,
      (
        sort_class-IsBounded last.missing_refunds f.1.0,
        (
          sort_class-IsBounded last.amount_mismatches f.1.1.0,
          (
            sort_class-IsBounded last.status_mismatches f.1.1.1.0,
            (
              sort_class-IsBounded last.db_without_stripe f.1.1.1.1.0,
              (
                sort_class-IsBounded last.currency_mismatches f.1.1.1.1.1.0,
                (sort_class-IsBounded last.invalid_objects f.1.1.1.1.1.1.0, tt),
              ),
            ),
          ),
        ),
      ),
    )
