-- ===== src/Reconcile/Links.antt =====
-- `invoiceLink` of apps/donor-api/cmd/reconcile/main.go: the payment of an invoice.
--
-- `list` is the processor's listing of invoice payments, `none` where it fails.
use impact_graph.Base.{
  String, Bool, not, ◌&&◌, ◌||◌, ◌==◌, Option, none, some, List, [], ◌∷◌, if◌then◌else◌, Result, ok,
  err,
}
use impact_graph.Payments.Facts.{Object}
use impact_graph.Reconcile.Objects.{InvoicePayment, invoice_payment_facts}

pub data LinkFailure : Type 0 where
  lookup_failed ambiguous invalid_link : LinkFailure

-- Whether the link is of the invoice and the payment that were asked for.
unfoldable pub link_fits : String → String → InvoicePayment → Bool
link_fits invoice payment link = not (
    not (invoice == "") && not (link.invoice_id == invoice)
    || not (payment == "") && not (link.payment_intent_id == payment))

-- invoiceLink; `ok none` is a link that was not found
unfoldable pub invoice_link :
    (String → String → Option (List Object))
    → String
    → String
    → Result LinkFailure (Option InvoicePayment)
unfolding link_fits
invoice_link list invoice payment = elim (list invoice payment) [
  | none ↦ err lookup_failed
  | some [] ↦ ok none
  | some (row ∷ []) ↦ elim (invoice_payment_facts row) [
    | err _ ↦ err invalid_link
    | ok link ↦ if link_fits invoice payment link then ok (some link) else err invalid_link
  ]
  | some (_ ∷ _ ∷ _) ↦ err ambiguous
]
