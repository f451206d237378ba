-- ===== src/Payments/Webhook/Minimal.antt =====
-- What `minimalObject` keeps of an event, and which events it drops.
use Prim.Native.String.{len}
use text.Mathlib.Text.{starts_with}
use impact_graph.Base.{
  ◌≤◌, String, ◌≡◌, refl, ap, ◌≢◌, inl, inr, Bool, not, ◌&&◌, some, [], ◌∷◌, if◌then◌else◌, ok,
  >>=-ok, ensure, lookup, eq_iff, Bool-cases, arith,
}
use impact_graph.Payments.Facts.{Json, Object}
use impact_graph.Payments.Webhook.{
  event_shape, get, pick_from, copy_present, copied_fields, references, identifier, kept_fields,
  add_invoice_facts, with_update, minimal_object, is_null, unless_blank, uuid_ok,
}
use impact_graph.Payments.Webhook.Fields.{
  Only, allowed_fields, IsKept, named_fields-IsKept, refund_fields-IsKept, add_invoice_facts-IsKept,
}

identifier-ok :
    (v : Json) {id : String}
    → identifier v ≡ ok id
    → (v ≡ Json.text id) × (id ≢ "") × (len id ≤ 255)
unfolding identifier
identifier-ok (Json.text s) {id} h =
    let same : s ≡ id = ground arith in
    (ap Json.text same, rw (← same) (ground (arith, eq_iff s "")), rw (← same) (ground arith))
identifier-ok Json.null h = absurd (ground arith)
identifier-ok Json.number h = absurd (ground arith)
identifier-ok (Json.bool b) h = absurd (ground arith)
identifier-ok (Json.int n) h = absurd (ground arith)
identifier-ok (Json.object o) h = absurd (ground arith)
identifier-ok (Json.array a) h = absurd (ground arith)

-- The fields of a payment update.
update_fields-IsKept :
    (id : String) (value : Json)
    → IsKept id (("id", Json.text id) ∷ ("payment_update_id", value) ∷ [])
unfolding lookup
update_fields-IsKept id value = ((refl, (refl, tt)), refl)

with_update-IsKept :
    (id : String) (update : Json) (fields : Object)
    → IsKept id fields
    → IsKept id (with_update id update fields)
unfolding with_update
with_update-IsKept id Json.null fields h = h
with_update-IsKept id Json.number fields h = update_fields-IsKept id Json.number
with_update-IsKept id (Json.bool b) fields h = update_fields-IsKept id (Json.bool b)
with_update-IsKept id (Json.int n) fields h = update_fields-IsKept id (Json.int n)
with_update-IsKept id (Json.text s) fields h = update_fields-IsKept id (Json.text s)
with_update-IsKept id (Json.object o) fields h = update_fields-IsKept id (Json.object o)
with_update-IsKept id (Json.array a) fields h = update_fields-IsKept id (Json.array a)

kept_fields-IsKept :
    (kind : String) (obj : Object) (id : String) (checkout update subscription : Json) {r : Object}
    → get obj "id" ≡ Json.text id
    → kept_fields kind obj id checkout update subscription ≡ ok r
    → IsKept id r
unfolding kept_fields
kept_fields-IsKept kind obj id checkout update subscription {r} h e =
    let plain =
      copy_present obj copied_fields
        (("id", Json.text id) ∷ ("checkout_id", checkout) ∷ ("subscription", subscription) ∷ []) in
    let (filled, e₁, f₁) =
      >>=-ok (if starts_with kind "invoice." then add_invoice_facts plain obj else ok plain) _ e in
    let base = named_fields-IsKept id checkout subscription obj in
    let whole : IsKept id filled = elim (Bool-cases (starts_with kind "invoice.")) [
      | inl invoice ↦ add_invoice_facts-IsKept id plain obj base (rw (invoice) at e₁)
      | inr other ↦ let same : plain ≡ filled = ground arith in rw (← same) base
    ] in
    let fields =
      if starts_with kind "refund."
      then pick_from obj ("id" ∷ "payment_intent" ∷ "amount" ∷ "currency" ∷ "status" ∷ []) []
      else filled in
    let picked : IsKept id fields = elim (Bool-cases (starts_with kind "refund.")) [
      | inl refund ↦ rw (refund) (refund_fields-IsKept id obj h)
      | inr other ↦ rw (other) whole
    ] in
    let same : with_update id update fields ≡ r = ground arith in
    rw (← same) (with_update-IsKept id update fields picked)

module _ (is_uuid : String → Bool) where
  -- What `minimalObject` keeps has allowed fields only, whatever else the event carries, and the event's
  -- identifier, which is not empty and at most 255 bytes long.
  pub minimal_object-IsKept :
      (kind : String) (obj : Object) {kept : Object}
      → minimal_object is_uuid kind obj ≡ ok (some kept)
      → (id : String) × (get obj "id" ≡ Json.text id)
        × (id ≢ "")
        × (len id ≤ 255)
        × (lookup "id" kept ≡ some (Json.text id))
        × Only allowed_fields kept
  unfolding minimal_object
  minimal_object-IsKept kind obj {kept} h =
      let ((metadata, subscription), e₁, f₁) = >>=-ok (references kind obj) _ h in
      let checkout = unless_blank (get metadata "dad_checkout_id") in
      let update =
        if starts_with kind "checkout.session."
        then unless_blank (get metadata "dad_payment_update_id")
        else Json.null in
      elim (Bool-cases (is_null checkout && is_null update && not (starts_with kind "refund."))) [
        | inl dropped ↦ let k = rw (dropped) at f₁ in absurd (ground arith)
        | inr taken ↦
            let k = rw (taken) at f₁ in
            let (u, e₂, f₂) =
              >>=-ok (ensure (uuid_ok is_uuid checkout && uuid_ok is_uuid update) event_shape) _
                k in
            let (id, e₃, f₃) = >>=-ok (identifier (get obj "id")) _ f₂ in
            let (r, e₄, f₄) = >>=-ok (kept_fields kind obj id checkout update subscription) _ f₃ in
            let (named, filled, short) = identifier-ok (get obj "id") e₃ in
            let (only, same) =
              kept_fields-IsKept kind obj id checkout update subscription named e₄ in
            let last : r ≡ kept = ground arith in rw (← last) (id, named, filled, short, same, only)
      ]
