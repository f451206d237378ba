-- ===== src/Reconcile/Report.antt =====
-- The report of a run: `Report`, `Add`, `HasDiscrepancies`, `appendID` and `sortIDs`.
--
-- A count of the report and the list of identifiers beside it are one field, a `Class`.
pub mod Bounded
use impact_graph.Base.{
  ℕ, ◌+◌, String, Bool, ◌&&◌, ◌||◌, List, [], ◌∷◌, ◌++◌, if◌then◌else◌, ltb, length, take,
}
use impact_graph.Base.Sort.{sort}
use impact_graph.Base.TextOrder.{text_le}
use impact_graph.Reconcile.Window.{Window}
use impact_graph.Reconcile.Objects.{processor_id}

pub record Class : Type 0 where
  pub count : ℕ
  pub ids : List String

abbrev pub no_objects : Class
no_objects = record { count = 0; ids = [] }

pub record Report : Type 0 where
  pub pending_refunds_checked : ℕ
  pub pending_refund_batches : ℕ
  pub window : Window
  pub missing_gifts : Class
  pub missing_refunds : Class
  pub amount_mismatches : Class
  pub status_mismatches : Class
  pub db_without_stripe : Class
  pub currency_mismatches : Class
  pub invalid_objects : Class

-- maxIDs
abbrev pub max_ids : ℕ
max_ids = 100

-- appendID
unfoldable pub append_id : List String → String → List String
append_id ids id =
    let valid =
      processor_id id "ch_"
      || processor_id id "pi_"
      || processor_id id "in_"
      || processor_id id "re_" in
    if valid && ltb (length ids) max_ids then ids ++ id ∷ [] else ids

-- `report.X++` and `appendID(&report.XIDs, id)`
unfoldable pub note : String → Class → Class
unfolding append_id
note id c = record { count = c.count + 1; ids = append_id c.ids id }

-- One round of the loop of `Add`, with the sum of the counts.
unfoldable pub add_class : Class → Class → Class
add_class into from = record {
  count = into.count + from.count;
  ids = take max_ids (sort text_le (into.ids ++ from.ids));
}

-- Add
unfoldable pub add : Report → Report → Report
add r other = record r {
  missing_gifts = add_class r.missing_gifts other.missing_gifts;
  missing_refunds = add_class r.missing_refunds other.missing_refunds;
  amount_mismatches = add_class r.amount_mismatches other.amount_mismatches;
  status_mismatches = add_class r.status_mismatches other.status_mismatches;
  db_without_stripe = add_class r.db_without_stripe other.db_without_stripe;
  currency_mismatches = add_class r.currency_mismatches other.currency_mismatches;
  invalid_objects = add_class r.invalid_objects other.invalid_objects;
}

-- HasDiscrepancies
unfoldable pub has_discrepancies : Report → Bool
has_discrepancies r =
    ltb 0 r.missing_gifts.count
    || ltb 0 r.missing_refunds.count
    || ltb 0 r.amount_mismatches.count
    || ltb 0 r.status_mismatches.count
    || ltb 0 r.db_without_stripe.count
    || ltb 0 r.currency_mismatches.count
    || ltb 0 r.invalid_objects.count

unfoldable pub sort_class : Class → Class
sort_class c = record c { ids = sort text_le c.ids }

-- sortIDs
unfoldable pub sort_ids : Report → Report
unfolding sort_class
sort_ids r = record r {
  missing_gifts = sort_class r.missing_gifts;
  missing_refunds = sort_class r.missing_refunds;
  amount_mismatches = sort_class r.amount_mismatches;
  status_mismatches = sort_class r.status_mismatches;
  db_without_stripe = sort_class r.db_without_stripe;
  currency_mismatches = sort_class r.currency_mismatches;
  invalid_objects = sort_class r.invalid_objects;
}
