-- ===== src/Examples/Payments.antt =====
-- The theorems on events and on the taxonomy, applied to a refund and to a push notification.
use Prim.Native.String.{len}
use impact_graph.Base.{
  ◌*◌, ◌≤◌, String, ◌≡◌, refl, ◌≢◌, Bool, true, false, Option, none, some, List, [], ◌∷◌, All,
  length, Result, ok, Dict, lookup, pos,
}
use impact_graph.Payments.Facts.{Json, Object}
use impact_graph.Payments.Webhook.{get, minimal_object}
use impact_graph.Payments.Webhook.Fields.{Only, allowed_fields}
use impact_graph.Payments.Webhook.Minimal.{minimal_object-IsKept}
use impact_graph.Payments.Events.{
  VerifiedEvent, SdkEvent, Envelope, api_version, handled_kinds, handles, sandbox, verify_event,
}
use impact_graph.Payments.Events.Receive.{verify_event_sound}
use impact_graph.Analytics.{known, properties_accepted}
use impact_graph.Analytics.Bounded.{IsShort, properties_accepted-IsShort}

abbrev no_uuid : String → Bool
no_uuid text = false

abbrev refund_object : Object
refund_object =
    ("id", Json.text "re_1") ∷ ("amount", Json.int (pos 5)) ∷ ("email", Json.text "a@b") ∷ []

abbrev kept_refund : Object
kept_refund =
    ("id", Json.text "re_1")
    ∷ ("payment_intent", Json.null)
    ∷ ("amount", Json.int (pos 5))
    ∷ ("currency", Json.null)
    ∷ ("status", Json.null)
    ∷ []

minimal_object-refund :
    minimal_object no_uuid "refund.created" refund_object ≡ ok (some kept_refund)
unfolding minimal_object impact_graph.Payments.Webhook.references
    impact_graph.Payments.Webhook.object_value lookup impact_graph.Payments.Webhook.is_null
    impact_graph.Payments.Webhook.is_blank impact_graph.Payments.Webhook.uuid_ok
    impact_graph.Payments.Webhook.identifier impact_graph.Payments.Webhook.kept_fields
    impact_graph.Payments.Webhook.with_update impact_graph.Payments.Webhook.pick_from
    impact_graph.Base.insert
minimal_object-refund = refl

minimal_object-IsKept_example :
    (id : String) × (get refund_object "id" ≡ Json.text id)
    × (id ≢ "")
    × (len id ≤ 255)
    × (lookup "id" kept_refund ≡ some (Json.text id))
    × Only allowed_fields kept_refund
minimal_object-IsKept_example =
    minimal_object-IsKept no_uuid "refund.created" refund_object minimal_object-refund

abbrev refund_event : SdkEvent
refund_event = record {
  id = "evt_1";
  kind = "refund.created";
  account = "";
  version = api_version;
  raw = some "raw";
}

abbrev sandbox_envelope : Envelope
sandbox_envelope = record { livemode = some false; created = some (pos 60) }

abbrev sdk : String → String → String → Option SdkEvent
sdk body signature secret = some refund_event

abbrev read_envelope : String → Option Envelope
read_envelope body = some sandbox_envelope

abbrev read_object : String → Option Object
read_object raw = some refund_object

abbrev verified : VerifiedEvent
verified = record {
  id = "evt_1";
  kind = "refund.created";
  occurred = 62135596860 * 1000000000;
  facts = kept_refund;
}

abbrev key : String
key = "key"

verify_event-refund :
    verify_event sdk read_envelope read_object no_uuid "body" "sig" key ≡ ok (some verified)
unfolding verify_event impact_graph.Payments.Events.required impact_graph.Payments.Events.created_at
    minimal_object impact_graph.Payments.Webhook.references
    impact_graph.Payments.Webhook.object_value lookup impact_graph.Payments.Webhook.is_null
    impact_graph.Payments.Webhook.is_blank impact_graph.Payments.Webhook.uuid_ok
    impact_graph.Payments.Webhook.identifier impact_graph.Payments.Webhook.kept_fields
    impact_graph.Payments.Webhook.with_update impact_graph.Payments.Webhook.pick_from
    impact_graph.Base.insert
verify_event-refund = refl

verify_event_sound_example :
    (e : SdkEvent) × (w : Envelope) × (sdk "body" "sig" key ≡ some e)
    × (read_envelope "body" ≡ some w)
    × (key ≢ "")
    × (len "body" ≤ 256 * 1024)
    × (sandbox e w ≡ true)
    × (handles handled_kinds e.kind ≡ true)
    × (verified.id ≡ e.id)
    × (verified.kind ≡ e.kind)
    × Only allowed_fields verified.facts
verify_event_sound_example =
    verify_event_sound sdk read_envelope read_object no_uuid "body" "sig" key verify_event-refund

abbrev push_properties : Dict String
push_properties = ("type", "reminder") ∷ []

properties_accepted-push : properties_accepted "push_opened" push_properties ≡ true
unfolding properties_accepted lookup
properties_accepted-push = refl

properties_accepted-IsShort_example :
    (known "push_opened" ≡ true)
    × (length push_properties ≤ 1)
    × All (λ (e : String × String). IsShort e.1) push_properties
properties_accepted-IsShort_example =
    properties_accepted-IsShort "push_opened" push_properties properties_accepted-push
