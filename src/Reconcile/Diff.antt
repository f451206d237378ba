-- ===== src/Reconcile/Diff.antt =====
-- `Diff`: every discrepancy between the processor's objects and the stored rows.
pub mod Counts
pub mod Bounded
pub mod Agreement
pub mod Totals
pub mod Seen
pub mod Clean
use text.Mathlib.Text.{starts_with}
use impact_graph.Base.{
  ℕ, ◌+◌, String, Bool, true, false, not, ◌&&◌, ◌||◌, ◌==◌, Option, none, some, List, [], ◌∷◌,
  if◌then◌else◌, ℤ, pos, leb_ℤ, eqb_ℤ, ok, err, Dict, lookup, insert, contains,
}
use impact_graph.Base.Chars.{to_lower, equal_fold}
use impact_graph.Recognition.Facts.{Time}
use impact_graph.Payments.Facts.{Object, text_of}
use impact_graph.Reconcile.Window.{Window}
use impact_graph.Reconcile.Objects.{processor_id, financial_object, collected_charge, refund_status}
use impact_graph.Reconcile.Report.{Class, no_objects, Report, append_id, note, sort_ids}

pub record StoredGift : Type 0 where
  pub stripe_object_id : String
  pub stripe_payment_intent_id : String
  pub amount_minor : ℤ
  pub currency : String
  pub paid_at : Time

pub record StoredRefund : Type 0 where
  pub stripe_refund_id : String
  pub amount_minor : ℤ
  pub currency : String
  pub status : String
  pub observed_at : Time

-- The report that `Diff` starts from.
abbrev pub empty_report : Window → Report
empty_report w = record {
  pending_refunds_checked = 0;
  pending_refund_batches = 0;
  window = w;
  missing_gifts = no_objects;
  missing_refunds = no_objects;
  amount_mismatches = no_objects;
  status_mismatches = no_objects;
  db_without_stripe = no_objects;
  currency_mismatches = no_objects;
  invalid_objects = no_objects;
}

unfoldable pub gift_row_valid : StoredGift → Bool
gift_row_valid g = not (
    not (processor_id g.stripe_object_id "pi_")
      && not (processor_id g.stripe_object_id "in_")
      && not (processor_id g.stripe_object_id "ch_")
    || leb_ℤ g.amount_minor (pos 0)
    || not (g.currency == "USD"))

unfoldable pub refund_row_valid : StoredRefund → Bool
refund_row_valid r = not (
    not (processor_id r.stripe_refund_id "re_")
    || leb_ℤ r.amount_minor (pos 0)
    || not (r.currency == "USD")
    || refund_status (to_lower r.status) == "")

-- `report.InvalidObjects++`
unfoldable pub count_invalid : Bool → Report → Report
count_invalid valid r = if valid then r else record r {
  invalid_objects = record r.invalid_objects { count = r.invalid_objects.count + 1 };
}

-- The maps of the database rows by each key that they match on.
pub record Index : Type 0 where
  pub by_charge : Dict StoredGift
  pub by_intent : Dict StoredGift

-- `if key != "" { m[key] = row }`
abbrev pub set_named {ℓ} : {V : Type ℓ} → String → V → Dict V → Dict V
set_named key row m = if key == "" then m else insert key row m

unfoldable pub index_gift : StoredGift → Index → Index
index_gift g ix = record {
  by_charge = set_named g.stripe_object_id g ix.by_charge;
  by_intent =
      let named = set_named g.stripe_payment_intent_id g ix.by_intent in
      if starts_with g.stripe_object_id "pi_" then insert g.stripe_object_id g named else named;
}

-- The loop over the gift rows: its maps, and its counts.
unfoldable pub index_gifts : List StoredGift → Index → Index
index_gifts [] ix = ix
index_gifts (g ∷ gs) ix = index_gifts gs (index_gift g ix)

unfoldable pub check_gifts : List StoredGift → Report → Report
check_gifts [] r = r
check_gifts (g ∷ gs) r = check_gifts gs (count_invalid (gift_row_valid g) r)

-- The loop over the refund rows.
unfoldable pub index_refunds : List StoredRefund → Dict StoredRefund → Dict StoredRefund
index_refunds [] m = m
index_refunds (r ∷ rs) m = index_refunds rs (set_named r.stripe_refund_id r m)

unfoldable pub check_refunds : List StoredRefund → Report → Report
check_refunds [] r = r
check_refunds (row ∷ rows) r = check_refunds rows (count_invalid (refund_row_valid row) r)

-- An invalid object is counted, and named if its identifier is of the right kind.
unfoldable pub note_invalid : String → String → Report → Report
note_invalid id prefix r = record r {
  invalid_objects = record {
    count = r.invalid_objects.count + 1;
    ids =
        if processor_id id prefix
        then append_id r.invalid_objects.ids id
        else r.invalid_objects.ids;
  };
}

unfoldable pub compare_amount : String → ℤ → ℤ → Report → Report
compare_amount id amount stored r =
    if eqb_ℤ amount stored then r else record r { amount_mismatches = note id r.amount_mismatches }

unfoldable pub compare_status : String → String → String → Report → Report
compare_status id status stored r =
    if status == stored then r else record r { status_mismatches = note id r.status_mismatches }

unfoldable pub compare_currency : String → String → String → Report → Report
compare_currency id currency stored r =
    if equal_fold currency stored
    then r
    else record r { currency_mismatches = note id r.currency_mismatches }

-- The variables of the two loops over the processor's objects.
pub record Matching : Type 0 where
  pub report : Report
  pub seen : Dict Bool

-- The row of a charge, by the charge and else by its payment.
unfoldable pub matched_gift : Index → Object → Option StoredGift
matched_gift ix charge = elim (lookup (text_of charge "id") ix.by_charge) [
  | some g ↦ some g
  | none ↦ lookup (text_of charge "payment_intent") ix.by_intent
]

-- What a collected charge does.
unfoldable pub collect : Index → Object → ℤ → Matching → Matching
unfolding matched_gift
collect ix charge amount m =
    let id = text_of charge "id" in
    let r = m.report in
    elim (matched_gift ix charge) [
      | none ↦ record m { report = record r { missing_gifts = note id r.missing_gifts } }
      | some g ↦ record {
        report =
            compare_currency id (text_of charge "currency") g.currency
              (compare_amount id amount g.amount_minor r);
        seen = insert g.stripe_object_id true m.seen;
      }
    ]

-- The body of the loop over the charges.
unfoldable pub charge_step : Index → Object → Matching → Matching
unfolding collect
charge_step ix charge m = elim (collected_charge charge) [
  | err _ ↦ record m { report = note_invalid (text_of charge "id") "ch_" m.report }
  | ok (amount, collected) ↦ if collected then collect ix charge amount m else m
]

unfoldable pub match_charges : Index → List Object → Matching → Matching
match_charges ix [] m = m
match_charges ix (charge ∷ charges) m = match_charges ix charges (charge_step ix charge m)

-- What a refund does that says what it has to.
unfoldable pub settle_refund :
    Dict StoredRefund → Object → String → ℤ → String → Matching → Matching
settle_refund rows refund id amount status m =
    let r = m.report in
    elim (lookup id rows) [
      | none ↦ record m { report = record r { missing_refunds = note id r.missing_refunds } }
      | some row ↦ record {
        report =
            compare_currency id (text_of refund "currency") row.currency
              (compare_status id status row.status (compare_amount id amount row.amount_minor r));
        seen = insert id true m.seen;
      }
    ]

-- The body of the loop over the refunds.
unfoldable pub refund_step : Dict StoredRefund → Object → Matching → Matching
unfolding settle_refund
refund_step rows refund m =
    let status = refund_status (text_of refund "status") in
    let broken = record m { report = note_invalid (text_of refund "id") "re_" m.report } in
    elim (financial_object refund "re_") [
      | err _ ↦ broken
      | ok (id, amount) ↦
          if status == "" then broken else settle_refund rows refund id amount status m
    ]

unfoldable pub match_refunds : Dict StoredRefund → List Object → Matching → Matching
match_refunds rows [] m = m
match_refunds rows (refund ∷ refunds) m = match_refunds rows refunds (refund_step rows refund m)

-- The last two loops: the rows that the processor does not confirm.
unfoldable pub unconfirmed : Dict Bool → List String → Report → Report
unconfirmed seen [] r = r
unconfirmed seen (id ∷ ids) r = unconfirmed seen ids (
    if not (id == "") && not (contains id seen)
    then record r { db_without_stripe = note id r.db_without_stripe }
    else r)

abbrev pub gift_ids : List StoredGift → List String
gift_ids [] = []
gift_ids (g ∷ gs) = g.stripe_object_id ∷ gift_ids gs

abbrev pub refund_ids : List StoredRefund → List String
refund_ids [] = []
refund_ids (r ∷ rs) = r.stripe_refund_id ∷ refund_ids rs

-- Diff
unfoldable pub diff :
    Window → List Object → List Object → List StoredGift → List StoredRefund → Report
unfolding index_gifts check_gifts index_refunds check_refunds match_charges charge_step
    match_refunds refund_step
diff window charges refunds gifts refund_rows =
    let ix = index_gifts gifts (record { by_charge = []; by_intent = [] }) in
    let rows = index_refunds refund_rows [] in
    let checked = check_refunds refund_rows (check_gifts gifts (empty_report window)) in
    let collected = match_charges ix charges (record { report = checked; seen = [] }) in
    let refunded = match_refunds rows refunds (record { report = collected.report; seen = [] }) in
    sort_ids (
      unconfirmed refunded.seen (refund_ids refund_rows)
        (unconfirmed collected.seen (gift_ids gifts) refunded.report))
