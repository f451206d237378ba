-- ===== src/Payments/Webhook/Fields.antt =====
-- Which fields of an event are kept.
use impact_graph.Base.{
  String, ◌≡◌, refl, ap, ◌∙◌, inl, inr, Bool, true, false, ◌||◌, ◌==◌, some, List, [], ◌∷◌, All, ok,
  >>=-ok, lookup, insert, lookup-insert, Bool-cases, Option-cases, arith, ==_sym,
}
use impact_graph.Payments.Facts.{Json, Object}
use impact_graph.Payments.Webhook.{
  get, object_value, page, each_row, invoice_line, invoice_payment, pick_from, copy_into,
  copy_present, copied_fields, invoice_lines, invoice_payments, add_invoice_facts,
}

abbrev pub listed : String → List String → Bool
listed key [] = false
listed key (name ∷ names) = key == name || listed key names

-- Every field of an object is one of these.
abbrev pub Only : List String → Object → Type 0
Only names o = All (λ e. listed e.0 names ≡ true) o

-- The fields that are ever kept of an event.
abbrev pub allowed_fields : List String
allowed_fields =
    "id" ∷ "checkout_id" ∷ "subscription" ∷ "status" ∷ "currency" ∷ "amount_received"
    ∷ "amount_paid" ∷ "amount_due" ∷ "total" ∷ "billing_reason" ∷ "starting_balance"
    ∷ "ending_balance" ∷ "lines_complete" ∷ "lines" ∷ "payments_complete" ∷ "payments" ∷ "paid_at"
    ∷ "payment_intent" ∷ "amount" ∷ "payment_update_id" ∷ []

Only-insert :
    (names : List String) (key : String) (value : Json) (o : Object)
    → listed key names ≡ true
    → Only names o
    → Only names (insert key value o)
unfolding insert
Only-insert names key value [] k h = (k, tt)
Only-insert names key value ((at, old) ∷ more) k h = elim (Bool-cases (at == key)) [
  | inl same ↦ rw (insert, same) (h.0, h.1)
  | inr other ↦ rw (insert, other) (h.0, Only-insert names key value more k h.1)
]

Only-pick_from :
    (names : List String) (obj : Object) (keys : List String) (o : Object)
    → All (λ k. listed k names ≡ true) keys
    → Only names o
    → Only names (pick_from obj keys o)
unfolding pick_from
Only-pick_from names obj [] o k h = h
Only-pick_from names obj (key ∷ keys) o k h =
    Only-pick_from names obj keys (insert key (get obj key) o) k.1
      (Only-insert names key (get obj key) o k.0 h)

Only-copy_present :
    (names : List String) (obj : Object) (keys : List String) (o : Object)
    → All (λ k. listed k names ≡ true) keys
    → Only names o
    → Only names (copy_present obj keys o)
unfolding copy_present
Only-copy_present names obj [] o k h = h
Only-copy_present names obj (key ∷ keys) o k h = elim (Option-cases (lookup key obj)) [
  | inl missing ↦ rw (copy_present, missing) (Only-copy_present names obj keys o k.1 h)
  | inr (v, found) ↦
      rw (copy_present, found)
        (Only-copy_present names obj keys (insert key v o) k.1 (Only-insert names key v o k.0 h))
]

-- A field that is not copied keeps its value.
lookup-copy_present :
    (name : String) (obj : Object) (keys : List String) (o : Object)
    → listed name keys ≡ false
    → lookup name (copy_present obj keys o) ≡ lookup name o
unfolding copy_present
lookup-copy_present name obj [] o h = refl
lookup-copy_present name obj (key ∷ keys) o h = elim (Option-cases (lookup key obj)) [
  | inl missing ↦ rw (copy_present, missing) (lookup-copy_present name obj keys o (ground arith))
  | inr (v, found) ↦
      let apart : (key == name) ≡ false = ground (arith, ==_sym key name) in
      rw (copy_present, found)
        (lookup-copy_present name obj keys (insert key v o) (ground arith)
          ∙ ground (arith, lookup-insert key name v o))
]

-- What an object is that is kept: allowed fields only, and its identifier.
abbrev pub IsKept : String → Object → Type 0
IsKept id o = Only allowed_fields o × (lookup "id" o ≡ some (Json.text id))

IsKept-insert :
    (id key : String) (value : Json) (o : Object)
    → listed key allowed_fields ≡ true
    → (key == "id") ≡ false
    → IsKept id o
    → IsKept id (insert key value o)
IsKept-insert id key value o k apart h = (
  Only-insert allowed_fields key value o k h.0,
  lookup-insert key "id" value o ∙ (rw (apart) h.1),
)

-- Fields that may be copied and are not the identifier.
Beside : Object → Type 0
Beside o = All (λ e. (listed e.0 allowed_fields ≡ true) × ((e.0 == "id") ≡ false)) o

IsKept-copy_into :
    (id : String) (o from : Object) → Beside from → IsKept id o → IsKept id (copy_into o from)
unfolding copy_into Beside
IsKept-copy_into id o [] b h = h
IsKept-copy_into id o ((key, value) ∷ more) b h =
    IsKept-copy_into id (insert key value o) more b.1 (IsKept-insert id key value o b.0.0 b.0.1 h)

Beside-invoice_lines : (value : Json) {r : Object} → invoice_lines value ≡ ok r → Beside r
unfolding invoice_lines Beside
Beside-invoice_lines value {r} e =
    let ((input, complete), e₁, f₁) = >>=-ok (page value) _ e in
    let (rows, e₂, f₂) = >>=-ok (each_row invoice_line input) _ f₁ in
    let same : ("lines_complete", Json.bool complete) ∷ ("lines", Json.array rows) ∷ [] ≡ r =
      ground arith in
    rw (← same) ((refl, refl), ((refl, refl), tt))

Beside-invoice_payments : (value : Json) {r : Object} → invoice_payments value ≡ ok r → Beside r
unfolding invoice_payments Beside
Beside-invoice_payments value {r} e =
    let ((input, complete), e₁, f₁) = >>=-ok (page value) _ e in
    let (rows, e₂, f₂) = >>=-ok (each_row invoice_payment input) _ f₁ in
    let same : ("payments_complete", Json.bool complete) ∷ ("payments", Json.array rows) ∷ [] ≡ r =
      ground arith in
    rw (← same) ((refl, refl), ((refl, refl), tt))

pub add_invoice_facts-IsKept :
    (id : String) (o invoice : Object) {r : Object}
    → IsKept id o
    → add_invoice_facts o invoice ≡ ok r
    → IsKept id r
unfolding add_invoice_facts
add_invoice_facts-IsKept id o invoice {r} h e =
    let (lines, e₁, f₁) = >>=-ok (invoice_lines (get invoice "lines")) _ e in
    let (payments, e₂, f₂) = >>=-ok (invoice_payments (get invoice "payments")) _ f₁ in
    let (moved, e₃, f₃) = >>=-ok (object_value (get invoice "status_transitions")) _ f₂ in
    let copied = copy_into (copy_into o lines) payments in
    let same : insert "paid_at" (get moved "paid_at") copied ≡ r = ground arith in
    let first = IsKept-copy_into id o lines (Beside-invoice_lines (get invoice "lines") e₁) h in
    let second =
      IsKept-copy_into id (copy_into o lines) payments
        (Beside-invoice_payments (get invoice "payments") e₂) first in
    rw (← same) (IsKept-insert id "paid_at" (get moved "paid_at") copied refl refl second)

-- What is kept of an object beside what it is overridden with.
pub named_fields-IsKept :
    (id : String) (checkout subscription : Json) (obj : Object)
    → IsKept id (
        copy_present obj copied_fields
          (("id", Json.text id) ∷ ("checkout_id", checkout) ∷ ("subscription", subscription) ∷ []))
unfolding lookup
named_fields-IsKept id checkout subscription obj =
    let named =
      ("id", Json.text id) ∷ ("checkout_id", checkout) ∷ ("subscription", subscription) ∷ [] in
    (
      Only-copy_present allowed_fields obj copied_fields named
          (refl, (refl, (refl, (refl, (refl, (refl, (refl, (refl, (refl, tt)))))))))
          (refl, (refl, (refl, tt))),
      lookup-copy_present "id" obj copied_fields named refl ∙ refl,
    )

pub refund_fields-IsKept :
    (id : String) (obj : Object)
    → get obj "id" ≡ Json.text id
    → IsKept id (pick_from obj ("id" ∷ "payment_intent" ∷ "amount" ∷ "currency" ∷ "status" ∷ []) [])
unfolding pick_from insert lookup
refund_fields-IsKept id obj h = (
  Only-pick_from allowed_fields obj
      ("id" ∷ "payment_intent" ∷ "amount" ∷ "currency" ∷ "status" ∷ []) []
      (refl, (refl, (refl, (refl, (refl, tt))))) tt,
  ap some h,
)
