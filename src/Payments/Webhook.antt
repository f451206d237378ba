-- ===== src/Payments/Webhook.antt =====
-- The event boundary: apps/donor-api/internal/payments/webhook.go.
--
-- A value of a decoded object is a JSON value, and a missing member reads as null, as from a Go map.
-- `pgtype.UUID`, which reads a UUID, and the processor's SDK are parameters.
pub mod Fields
pub mod Minimal
use Prim.Native.String.{len}
use text.Mathlib.Text.{starts_with}
use impact_graph.Base.{
  ℕ, ◌*◌, ◌+◌, String, Bool, true, false, not, ◌&&◌, ◌||◌, ◌==◌, Option, none, some, List, [], ◌∷◌,
  if◌then◌else◌, ltb, ℤ, pos, pos_part, ltb_ℤ, Result, ok, err, ◌>>=◌, ◌>>◌, ensure, fold_ok, Dict,
  lookup, insert, get_or,
}
use impact_graph.Payments.Facts.{
  Json, Members, no_members, member, Items, no_items, item, Object, members, max_unix,
}

-- ErrUnavailable, ErrInvalidEvent and ErrEventShape
pub data WebhookFailure : Type 0 where
  unavailable invalid_event event_shape : WebhookFailure

-- A map as a JSON value.
abbrev pub to_members : Object → Members
to_members [] = no_members
to_members ((key, value) ∷ more) = member key value (to_members more)

-- `obj[key]`
abbrev pub get : Object → String → Json
get o key = get_or Json.null key o

-- object
unfoldable pub object_value : Json → Result WebhookFailure Object
object_value Json.null = ok []
object_value (Json.object ms) = ok (members ms)
object_value _ = err event_shape

-- The loop of `pick`.
unfoldable pub pick_from : Object → List String → Object → Object
pick_from obj [] result = result
pick_from obj (key ∷ keys) result = pick_from obj keys (insert key (get obj key) result)

-- pick
abbrev pub pick : Object → List String → Object
pick obj names = pick_from obj names []

-- `value == nil || value == ""`
unfoldable pub is_blank : Json → Bool
is_blank Json.null = true
is_blank (Json.text s) = s == ""
is_blank _ = false

-- A blank reference is nil.
abbrev pub unless_blank : Json → Json
unless_blank value = if is_blank value then Json.null else value

-- `has_more` and `data` of a page
unfoldable pub page_complete : Object → Bool
page_complete obj = elim (get obj "has_more") [ Json.bool more ↦ not more | _ ↦ false ]

unfoldable pub page_rows : Object → Result WebhookFailure Items
page_rows obj = elim (get obj "data") [
  | Json.null ↦ ok no_items
  | Json.array rows ↦ ok rows
  | _ ↦ err event_shape
]

-- page
unfoldable pub page : Json → Result WebhookFailure (Items × Bool)
unfolding page_complete page_rows
page value = do obj ← object_value value; rows ← page_rows obj; ok (rows, page_complete obj)

-- The loops over the rows of a page.
unfoldable pub each_row : (Json → Result WebhookFailure Json) → Items → Result WebhookFailure Items
each_row f no_items = ok no_items
each_row f (item raw more) = do row ← f raw; rows ← each_row f more; ok (item row rows)

-- The body of the loop of `invoiceLines`.
unfoldable pub invoice_line : Json → Result WebhookFailure Json
invoice_line raw = do
  line ← object_value raw
  parent ← object_value (get line "parent")
  details ← object_value (get parent "subscription_item_details")
  period ← object_value (get line "period")
  let row₁ =
      insert "period" (Json.object (to_members (pick period ("start" ∷ "end" ∷ []))))
        (pick line ("amount" ∷ "currency" ∷ []))
  let row₂ = insert "parent_type" (get parent "type") row₁
  let row₃ = insert "subscription" (get details "subscription") row₂
  ok (Json.object (to_members (insert "proration" (get details "proration") row₃)))

-- invoiceLines
unfoldable pub invoice_lines : Json → Result WebhookFailure Object
unfolding invoice_line
invoice_lines value = do
  (input, complete) ← page value
  rows ← each_row invoice_line input
  ok (("lines_complete", Json.bool complete) ∷ ("lines", Json.array rows) ∷ [])

-- The body of the loop of `invoicePayments`.
unfoldable pub invoice_payment : Json → Result WebhookFailure Json
invoice_payment raw = do
  p ← object_value raw
  payment ← object_value (get p "payment")
  let row₁ = pick p ("status" ∷ "amount_paid" ∷ "currency" ∷ "invoice" ∷ "livemode" ∷ [])
  let row₂ = insert "type" (get payment "type") row₁
  ok (Json.object (to_members (insert "payment_intent" (get payment "payment_intent") row₂)))

-- invoicePayments
unfoldable pub invoice_payments : Json → Result WebhookFailure Object
unfolding invoice_payment
invoice_payments value = do
  (input, complete) ← page value
  rows ← each_row invoice_payment input
  ok (("payments_complete", Json.bool complete) ∷ ("payments", Json.array rows) ∷ [])

-- `maps.Copy(data, from)`
unfoldable pub copy_into : Object → Object → Object
copy_into kept [] = kept
copy_into kept ((key, value) ∷ more) = copy_into (insert key value kept) more

-- addInvoiceFacts
unfoldable pub add_invoice_facts : Object → Object → Result WebhookFailure Object
add_invoice_facts kept invoice = do
  lines ← invoice_lines (get invoice "lines")
  payments ← invoice_payments (get invoice "payments")
  transitions ← object_value (get invoice "status_transitions")
  ok (insert "paid_at" (get transitions "paid_at") (copy_into (copy_into kept lines) payments))

-- The loop of `minimalObject` over the fields that it copies where they are present.
unfoldable pub copy_present : Object → List String → Object → Object
copy_present obj [] kept = kept
copy_present obj (key ∷ keys) kept =
    copy_present obj keys
      (elim (lookup key obj) [ none ↦ kept | some value ↦ insert key value kept ])

abbrev pub copied_fields : List String
copied_fields =
    "status" ∷ "currency" ∷ "amount_received" ∷ "amount_paid" ∷ "amount_due" ∷ "total"
    ∷ "billing_reason" ∷ "starting_balance" ∷ "ending_balance" ∷ []

-- The metadata and the subscription of an object, which an invoice holds in its parent.
unfoldable pub references : String → Object → Result WebhookFailure (Object × Json)
references kind obj = do
  metadata ← object_value (get obj "metadata")
  if starts_with kind "invoice."
      then (do
        parent ← object_value (get obj "parent")
        details ← object_value (get parent "subscription_details")
        own ← object_value (get details "metadata")
        ok (own, get details "subscription"))
      else ok (metadata, get obj "subscription")

-- `id, ok := obj["id"].(string)` with its guard
unfoldable pub identifier : Json → Result WebhookFailure String
identifier (Json.text id) = if id == "" || ltb 255 (len id) then err event_shape else ok id
identifier _ = err event_shape

-- `if update != nil`
unfoldable pub with_update : String → Json → Object → Object
with_update id Json.null fields = fields
with_update id update fields = ("id", Json.text id) ∷ ("payment_update_id", update) ∷ []

-- The fields that are kept of an object with this identifier and these references.
unfoldable pub kept_fields :
    String → Object → String → Json → Json → Json → Result WebhookFailure Object
unfolding copy_present
kept_fields kind obj id checkout update subscription = do
  let named = ("id", Json.text id) ∷ ("checkout_id", checkout) ∷ ("subscription", subscription) ∷ []
  let kept = copy_present obj copied_fields named
  with_invoice ← if starts_with kind "invoice." then add_invoice_facts kept obj else ok kept
  let fields =
      if starts_with kind "refund."
      then pick obj ("id" ∷ "payment_intent" ∷ "amount" ∷ "currency" ∷ "status" ∷ [])
      else with_invoice
  ok (with_update id update fields)

unfoldable pub is_null : Json → Bool
is_null Json.null = true
is_null _ = false

module _ (is_uuid : String → Bool) where
  -- uuid, `true` where it returns no error
  unfoldable pub uuid_ok : Json → Bool
  uuid_ok Json.null = true
  uuid_ok (Json.text s) = s == "" || is_uuid s
  uuid_ok _ = false

  -- minimalObject; `none` is an event about an object that the program did not create.
  unfoldable pub minimal_object : String → Object → Result WebhookFailure (Option Object)
  minimal_object kind obj = do
    (metadata, subscription) ← references kind obj
    let checkout = unless_blank (get metadata "dad_checkout_id")
    let update =
        if starts_with kind "checkout.session."
        then unless_blank (get metadata "dad_payment_update_id")
        else Json.null
    if is_null checkout && is_null update && not (starts_with kind "refund.") then ok none else (do
      ensure (uuid_ok checkout && uuid_ok update) event_shape
      id ← identifier (get obj "id")
      kept ← kept_fields kind obj id checkout update subscription
      ok (some kept))
