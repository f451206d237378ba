-- ===== src/Reconcile/Objects.antt =====
-- What the processor's objects have to say to be compared: `processorID`, `financialObject`,
-- `CollectedCharge`, `InvoicePaymentFacts` and `refundStatus`.
pub mod Collected
use Prim.Native.Char.{Char, code}
use Prim.Native.String.{len}
use text.Mathlib.Text.{starts_with}
use impact_graph.Base.{
  String, Bool, true, false, not, ◌&&◌, ◌||◌, ◌==◌, if◌then◌else◌, nat_eq, leb, ltb, ℤ, pos, ltb_ℤ,
  leb_ℤ, Result, ok, err, ◌>>=◌, ◌>>◌, ensure,
}
use impact_graph.Base.Chars.{in_range, all_chars, to_lower}
use impact_graph.Payments.Facts.{
  FactsFailure, bad_facts, Object, text_of, int_of, unix_of, bool_is, object_of,
}

-- The test on each character of an identifier.
unfoldable pub id_char : Char → Bool
id_char c =
    nat_eq (code c) b'_'
    || nat_eq (code c) b'-'
    || in_range b'a' b'z' c
    || in_range b'A' b'Z' c
    || in_range b'0' b'9' c

-- processorID
unfoldable pub processor_id : String → String → Bool
unfolding id_char
processor_id id prefix =
    not (not (starts_with id prefix) || leb (len id) (len prefix) || ltb 255 (len id))
    && all_chars id_char id

-- financialObject
unfoldable pub financial_object : Object → String → Result FactsFailure (String × ℤ)
financial_object o prefix = do
  let id = text_of o "id"
  amount ← int_of o "amount"
  _ ← unix_of o "created"
  ensure
      (processor_id id prefix
        && ltb_ℤ (pos 0) amount
        && bool_is o "livemode" false
        && nat_eq (len (text_of o "currency")) 3)
      bad_facts
  ensure (all_chars (in_range b'a' b'z') (to_lower (text_of o "currency"))) bad_facts
  ok (id, amount)

-- The switch of `CollectedCharge`.
unfoldable pub charge_outcome : Object → ℤ → Result FactsFailure (ℤ × Bool)
charge_outcome o captured =
    let status = text_of o "status" in
    if status == "failed" || status == "pending"
    then (if bool_is o "paid" true || ltb_ℤ (pos 0) captured
        then err bad_facts
        else ok (pos 0, false))
    else if status == "succeeded"
    then (if bool_is o "paid" true && bool_is o "captured" true && ltb_ℤ (pos 0) captured
        then ok (captured, true)
        else ok (pos 0, false))
    else err bad_facts

-- CollectedCharge
unfoldable pub collected_charge : Object → Result FactsFailure (ℤ × Bool)
unfolding charge_outcome
collected_charge o = do
  (_, amount) ← financial_object o "ch_"
  captured ← int_of o "amount_captured"
  ensure
      (not (
        ltb_ℤ captured (pos 0)
        || ltb_ℤ amount captured
        || not (bool_is o "paid" true) && not (bool_is o "paid" false)
        || not (bool_is o "captured" true) && not (bool_is o "captured" false)))
      bad_facts
  charge_outcome o captured

pub record InvoicePayment : Type 0 where
  pub invoice_id : String
  pub payment_intent_id : String
  pub currency : String
  pub amount_minor : ℤ

-- InvoicePaymentFacts
unfoldable pub invoice_payment_facts : Object → Result FactsFailure InvoicePayment
invoice_payment_facts o = do
  payment ← object_of o "payment"
  amount ← int_of o "amount_paid"
  _ ← unix_of o "created"
  ensure
      (not (
        leb_ℤ amount (pos 0)
        || not (bool_is o "livemode" false)
        || not (text_of o "status" == "paid")
        || not (text_of payment "type" == "payment_intent")
        || not (processor_id (text_of o "id") "inpay_")
        || not (processor_id (text_of o "invoice") "in_")
        || not (processor_id (text_of payment "payment_intent") "pi_")
        || not (text_of o "currency" == "usd")))
      bad_facts
  ok (record {
    invoice_id = text_of o "invoice";
    payment_intent_id = text_of payment "payment_intent";
    currency = text_of o "currency";
    amount_minor = amount;
  })

-- refundStatus
unfoldable pub refund_status : String → String
refund_status stripe =
    if stripe == "pending"
    then "PENDING"
    else if stripe == "requires_action"
    then "REQUIRES_ACTION"
    else if stripe == "succeeded"
    then "SUCCEEDED"
    else if stripe == "failed"
    then "FAILED"
    else if stripe == "canceled"
    then "CANCELED"
    else ""
