-- ===== src/Reconcile/Objects/Collected.antt =====
-- What a collected charge is.
use Prim.Native.String.{len}
use impact_graph.Base.{
  String, ◌≡◌, true, false, not, ◌&&◌, ◌||◌, nat_eq, ℤ, pos, ltb_ℤ, ◌≤ℤ◌, ◌<ℤ◌, ok, >>=-ok, ensure,
  arith, eq_iff,
}
use impact_graph.Base.Chars.{all_chars, in_range, to_lower}
use impact_graph.Payments.Facts.{bad_facts, Object, text_of, int_of, unix_of, bool_is}
use impact_graph.Reconcile.Objects.{
  processor_id, financial_object, charge_outcome, collected_charge,
}

financial_object-amount :
    (o : Object) (prefix id : String) {amount : ℤ}
    → financial_object o prefix ≡ ok (id, amount)
    → (int_of o "amount" ≡ ok amount) × (processor_id (text_of o "id") prefix ≡ true)
unfolding financial_object
financial_object-amount o prefix id {amount} h =
    let (n, e₁, f₁) = >>=-ok (int_of o "amount") _ h in
    let (t, e₂, f₂) = >>=-ok (unix_of o "created") _ f₁ in
    let (u, e₃, f₃) =
      >>=-ok
        (ensure
          (processor_id (text_of o "id") prefix
            && ltb_ℤ (pos 0) n
            && bool_is o "livemode" false
            && nat_eq (len (text_of o "currency")) 3)
          bad_facts)
        _ f₂ in
    let (v, e₄, f₄) =
      >>=-ok (ensure (all_chars (in_range b'a' b'z') (to_lower (text_of o "currency"))) bad_facts) _
        f₃ in
    let same : n ≡ amount = ground arith in (rw (← same) e₁, ground arith)

charge_outcome-collected :
    (o : Object) (captured : ℤ) {n : ℤ}
    → charge_outcome o captured ≡ ok (n, true)
    → (n ≡ captured)
      × (pos 0 <ℤ n)
      × (text_of o "status" ≡ "succeeded")
      × (bool_is o "paid" true ≡ true)
      × (bool_is o "captured" true ≡ true)
unfolding charge_outcome
charge_outcome-collected o captured {n} h =
    let same : n ≡ captured = ground arith in
    let some_money : pos 0 <ℤ captured = ground arith in
    (
      same,
      rw (same) some_money,
      ground (arith, eq_iff (text_of o "status") "succeeded"),
      ground arith,
      ground arith,
    )

-- A charge that counts as collected has succeeded, is paid and captured, has an identifier of a charge,
-- and its collected amount is positive and at most the charge's own.
pub collected_charge-bounds :
    (o : Object) {n : ℤ}
    → collected_charge o ≡ ok (n, true)
    → (amount : ℤ) × (int_of o "amount" ≡ ok amount)
      × (int_of o "amount_captured" ≡ ok n)
      × (pos 0 <ℤ n)
      × (n ≤ℤ amount)
      × (processor_id (text_of o "id") "ch_" ≡ true)
      × (text_of o "status" ≡ "succeeded")
      × (bool_is o "paid" true ≡ true)
      × (bool_is o "captured" true ≡ true)
unfolding collected_charge
collected_charge-bounds o {n} h =
    let ((id, amount), e₁, f₁) = >>=-ok (financial_object o "ch_") _ h in
    let (captured, e₂, f₂) = >>=-ok (int_of o "amount_captured") _ f₁ in
    let (u, e₃, f₃) =
      >>=-ok
        (ensure
          (not (
            ltb_ℤ captured (pos 0)
            || ltb_ℤ amount captured
            || not (bool_is o "paid" true) && not (bool_is o "paid" false)
            || not (bool_is o "captured" true) && not (bool_is o "captured" false)))
          bad_facts)
        _ f₂ in
    let (same, positive, status, paid, taken) = charge_outcome-collected o captured f₃ in
    let (own, named) = financial_object-amount o "ch_" id e₁ in
    let within : captured ≤ℤ amount = ground arith in
    (amount, own, rw (same) e₂, positive, rw (same) within, named, status, paid, taken)
