-- ===== src/Payments/Events.antt =====
-- The receiver of events: `Receive` and `verifyEvent` of
-- apps/donor-api/internal/payments/webhook.go.
--
-- Parameters: `construct_event` is the SDK's check of the signature, `envelope` and `decode` are the
-- decoder of package encoding/json on the body and on the event's object, `is_uuid` reads a UUID, and
-- `save` is the inbox, if there is one. Encoding the kept object, which cannot fail on decoded values,
-- leaves it as it is.
pub mod Receive
use Prim.Native.String.{len}
use impact_graph.Base.{
  ℕ, ◌*◌, ◌+◌, String, Bool, true, false, not, ◌&&◌, ◌||◌, ◌==◌, Option, none, some, List, [], ◌∷◌,
  if◌then◌else◌, ltb, ℤ, pos, pos_part, ltb_ℤ, Result, ok, err, ◌>>=◌, ◌>>◌, ensure,
}
use impact_graph.Recognition.Facts.{Time}
use impact_graph.Payments.Facts.{Object, max_unix, unix_epoch, second}
use impact_graph.Payments.Webhook.{
  WebhookFailure, unavailable, invalid_event, event_shape, minimal_object,
}

-- APIVersion
abbrev pub api_version : String
api_version = "2026-09-30.endive"

-- MaxWebhookBytes
abbrev pub max_webhook_bytes : ℕ
max_webhook_bytes = 256 * 1024

pub record VerifiedEvent : Type 0 where
  pub id : String
  pub kind : String
  pub occurred : Time
  pub facts : Object

-- What `verifyEvent` reads of the SDK's event; `raw` is `event.Data.Raw`, none without data.
pub record SdkEvent : Type 0 where
  pub id : String
  pub kind : String
  pub account : String
  pub version : String
  pub raw : Option String

-- The envelope that `verifyEvent` decodes by itself.
pub record Envelope : Type 0 where
  pub livemode : Option Bool
  pub created : Option ℤ

-- The cases of the switch of `verifyEvent`.
abbrev pub handled_kinds : List String
handled_kinds =
    "invoice.payment_succeeded" ∷ "invoice.payment_failed" ∷ "refund.created" ∷ "refund.updated"
    ∷ "refund.failed" ∷ "checkout.session.completed" ∷ "checkout.session.expired"
    ∷ "customer.subscription.created" ∷ "customer.subscription.updated"
    ∷ "customer.subscription.deleted" ∷ "customer.subscription.pending_update_applied"
    ∷ "customer.subscription.pending_update_expired" ∷ []

unfoldable pub handles : List String → String → Bool
handles [] kind = false
handles (k ∷ ks) kind = k == kind || handles ks kind

-- The mode, the account and the version that the stored facts are about.
unfoldable pub sandbox : SdkEvent → Envelope → Bool
sandbox e v =
    elim v.livemode [ none ↦ false | some live ↦ not live ]
    && e.account == ""
    && e.version == api_version

-- `envelope.Created` with its guard
unfoldable pub created_at : Envelope → Result WebhookFailure Time
created_at v = elim v.created [
  | none ↦ err event_shape
  | some n ↦
      if ltb_ℤ n (pos 0) || ltb_ℤ max_unix n
      then err event_shape
      else ok ((unix_epoch + pos_part n) * second)
]

-- A value that has to be there.
unfoldable pub required : {A : Type 0} → WebhookFailure → Option A → Result WebhookFailure A
required f none = err f
required f (some x) = ok x

module _ (construct_event : String → String → String → Option SdkEvent)
    (envelope : String → Option Envelope) (decode : String → Option Object)
    (is_uuid : String → Bool) where
  -- What `verifyEvent` does with an event of a handled kind.
  unfoldable pub keep_event : SdkEvent → Envelope → Result WebhookFailure (Option VerifiedEvent)
  keep_event e v = do
    occurred ← created_at v
    ensure (not (e.id == "" || ltb 255 (len e.id))) event_shape
    raw ← required event_shape e.raw
    obj ← required event_shape (decode raw)
    minimal ← minimal_object is_uuid e.kind obj
    ok (elim minimal [
      | none ↦ none
      | some kept ↦ some (record { id = e.id; kind = e.kind; occurred = occurred; facts = kept })
    ])

  -- verifyEvent; `ok none` is an event that is not kept.
  unfoldable pub verify_event :
      String → String → String → Result WebhookFailure (Option VerifiedEvent)
  unfolding keep_event handles sandbox
  verify_event body signature secret = do
    ensure (not (secret == "")) unavailable
    ensure (not (ltb max_webhook_bytes (len body))) invalid_event
    e ← required invalid_event (construct_event body signature secret)
    v ← required invalid_event (envelope body)
    ensure (sandbox e v) invalid_event
    if handles handled_kinds e.kind then keep_event e v else ok none

  -- Receive, with the inbox if there is one
  unfoldable pub receive :
      Option (VerifiedEvent → Result WebhookFailure (Unit {0}))
      → String
      → String
      → String
      → Result WebhookFailure (Unit {0})
  receive save body signature secret = do
    verified ← verify_event body signature secret
    elim verified [
      | none ↦ ok tt
      | some event ↦ elim save [ none ↦ err unavailable | some inbox ↦ inbox event ]
    ]
