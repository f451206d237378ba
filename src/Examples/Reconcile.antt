-- ===== src/Examples/Reconcile.antt =====
-- The theorems on reconciliation, applied to a charge and the row of its gift.
use impact_graph.Base.{
  ℕ, ◌+◌, ◌*◌, ◌≤◌, ◌<◌, ◌≡◌, refl, ◌≢◌, ◌↔◌, true, false, List, [], ◌∷◌, All, Exists, ltb, leb,
  if◌then◌else◌, Result, ok, err, pos, ◌≤ℤ◌, arith, Bool-cases, inl, inr,
}
use impact_graph.Recognition.Facts.{Time}
use impact_graph.Payments.Facts.{Json, Object, unix_epoch, second}
use impact_graph.Payments.Facts.{int_of, text_of, bool_is}
use impact_graph.Reconcile.Objects.{collected_charge, processor_id}
use impact_graph.Reconcile.Objects.Collected.{collected_charge-bounds}
use impact_graph.Base.{ℤ, ◌<ℤ◌}
use impact_graph.Reconcile.Window.{Window, stripe_created_range}
use impact_graph.Reconcile.Window.Created.{stripe_created_range-exact}
use impact_graph.Reconcile.Report.{Report, has_discrepancies}
use impact_graph.Reconcile.Report.Bounded.{IsBounded, classes}
use impact_graph.Reconcile.Diff.{StoredGift, diff, empty_report}
use impact_graph.Reconcile.Diff.Bounded.{diff-IsBounded}
use impact_graph.Reconcile.Diff.Clean.{BooksAgree, diff-BooksAgree}
use impact_graph.Reconcile.Listing.{
  ListFailure, page_cap, unfinished, list_splitting, list_by_created,
}
use impact_graph.Reconcile.Listing.Terminates.{list_splitting-unfinished, list_splitting-finishes}
use impact_graph.Reconcile.Listing.Covers.{list_splitting-covers}

abbrev window : Window
window = record {
  start = 63934376400 * 1000000000;
  end = 63934462800 * 1000000000;
  max_lag = 0;
  ny_date = "2027-01-01";
}

abbrev charge : Object
charge =
    ("id", Json.text "ch_1")
    ∷ ("amount", Json.int (pos 500))
    ∷ ("created", Json.int (pos 1798779700))
    ∷ ("livemode", Json.bool false)
    ∷ ("currency", Json.text "usd")
    ∷ ("amount_captured", Json.int (pos 500))
    ∷ ("paid", Json.bool true)
    ∷ ("captured", Json.bool true)
    ∷ ("status", Json.text "succeeded")
    ∷ ("payment_intent", Json.text "pi_1")
    ∷ []

abbrev gift_row : StoredGift
gift_row = record {
  stripe_object_id = "pi_1";
  stripe_payment_intent_id = "";
  amount_minor = pos 500;
  currency = "USD";
  paid_at = 63934376410 * 1000000000;
}

diff-BooksAgree_example :
    (has_discrepancies (diff window (charge ∷ []) [] (gift_row ∷ []) []) ≡ false)
    ↔ BooksAgree (charge ∷ []) [] (gift_row ∷ []) []
diff-BooksAgree_example = diff-BooksAgree window (charge ∷ []) [] (gift_row ∷ []) []

diff-IsBounded_example : All IsBounded (classes (diff window (charge ∷ []) [] [] []))
diff-IsBounded_example = diff-IsBounded window (charge ∷ []) [] [] []

abbrev one_missing : Report
one_missing = record (empty_report window) {
  missing_gifts = record { count = 2; ids = "ch_2" ∷ [] };
}

one_missing-IsBounded : All IsBounded (classes one_missing)
one_missing-IsBounded =
    let none_listed : IsBounded (record { count = 0; ids = [] }) = (omega arith, omega arith) in
    (
      (omega arith, omega arith),
      (none_listed, (none_listed, (none_listed, (none_listed, (none_listed, (none_listed, tt)))))),
    )

stripe_created_range-exact_example :
    let range = stripe_created_range window in
    let at = (unix_epoch + 1798779700) * second in
    ((range.0 ≤ℤ pos 1798779700) × (pos 1798779700 ≤ℤ range.1))
    ↔ ((window.start ≤ at) × (at < window.end))
stripe_created_range-exact_example = stripe_created_range-exact window 1798779700

-- A processor with more than the cap in one second, ten seconds after the zero time.
abbrev crowded : ℕ → ℕ → Result ListFailure (List ℕ)
crowded a b = if ltb b 10 then ok [] else err page_cap

list_splitting-unfinished_example :
    list_splitting (list_by_created crowded) 50 (5 * 1000000000) (10 * 1000000000 + 500)
    ≡ err unfinished
list_splitting-unfinished_example =
    list_splitting-unfinished crowded 50 (5 * 1000000000) (10 * 1000000000 + 500) (omega arith)
      (omega arith) (λ a h. refl) (λ a b h. ([], ground arith))

-- A listing that answers with one object for any range of up to 20 seconds.
abbrev sparse : Time → Time → Result ListFailure (List ℕ)
sparse s e = if leb e (s + 20 * 1000000000) then ok (7 ∷ []) else err page_cap

list_splitting-finishes_example :
    list_splitting sparse 4 (10 * 1000000000) (170 * 1000000000) ≢ err unfinished
list_splitting-finishes_example =
    list_splitting-finishes sparse (20 * 1000000000) 3 (10 * 1000000000) (170 * 1000000000)
      (λ s e. ground arith) (λ s e a. ground arith) (omega arith)

list_splitting-sparse :
    list_splitting sparse 2 (10 * 1000000000) (40 * 1000000000) ≡ ok (7 ∷ 7 ∷ [])
unfolding list_splitting
list_splitting-sparse = refl

sparse-answers : (s e : Time) (xs : List ℕ) → sparse s e ≡ ok xs → Exists (λ x. x ≡ 7) xs
sparse-answers s e xs h = elim (Bool-cases (leb e (s + 20 * 1000000000))) [
  | inl narrow ↦
      let k = rw (narrow) at h in let same : 7 ∷ [] ≡ xs = ground arith in rw (← same) (inl refl)
  | inr wide ↦ let k = rw (wide) at h in absurd (ground arith)
]

list_splitting-covers_example : Exists (λ (x : ℕ). x ≡ 7) (7 ∷ 7 ∷ [])
list_splitting-covers_example =
    list_splitting-covers sparse 7 25 (λ s e xs h a b. sparse-answers s e xs h) 2 (10 * 1000000000)
      (40 * 1000000000) (omega arith) list_splitting-sparse (omega arith) (omega arith)

collected_charge-charge : collected_charge charge ≡ ok (pos 500, true)
unfolding collected_charge impact_graph.Reconcile.Objects.financial_object int_of
    impact_graph.Base.lookup impact_graph.Payments.Facts.unix_of processor_id text_of bool_is
    impact_graph.Base.Chars.to_lower
collected_charge-charge = refl

collected_charge-bounds_example :
    (amount : ℤ) × (int_of charge "amount" ≡ ok amount)
    × (int_of charge "amount_captured" ≡ ok (pos 500))
    × (pos 0 <ℤ pos 500)
    × (pos 500 ≤ℤ amount)
    × (processor_id (text_of charge "id") "ch_" ≡ true)
    × (text_of charge "status" ≡ "succeeded")
    × (bool_is charge "paid" true ≡ true)
    × (bool_is charge "captured" true ≡ true)
collected_charge-bounds_example = collected_charge-bounds charge collected_charge-charge
