-- ===== src/Payments/Events/Receive.antt =====
-- Which events reach the inbox.
use Prim.Native.String.{len}
use impact_graph.Base.{
  ◌*◌, ◌≤◌, String, ◌≡◌, refl, ◌∙◌, ◌≢◌, ap, inl, inr, Bool, true, not, ◌||◌, ◌==◌, Option, none,
  some, ltb, ok, >>=-ok, ensure, Bool-cases, Option-cases, arith, eq_iff,
}
use impact_graph.Payments.Facts.{Object}
use impact_graph.Payments.Webhook.{
  WebhookFailure, unavailable, invalid_event, event_shape, minimal_object,
}
use impact_graph.Payments.Webhook.Fields.{Only, allowed_fields}
use impact_graph.Payments.Webhook.Minimal.{minimal_object-IsKept}
use impact_graph.Payments.Events.{
  VerifiedEvent, SdkEvent, Envelope, handled_kinds, handles, sandbox, required, max_webhook_bytes,
  created_at, keep_event, verify_event,
}

required-ok :
    {A : Type 0} (f : WebhookFailure) (o : Option A) {a : A} → required f o ≡ ok a → o ≡ some a
unfolding required
required-ok f none h = absurd (ground arith)
required-ok f (some x) {a} h = let same : x ≡ a = ground arith in ap some same

module _ (construct_event : String → String → String → Option SdkEvent)
    (envelope : String → Option Envelope) (decode : String → Option Object)
    (is_uuid : String → Bool) where
  keep_event_sound :
      (e : SdkEvent) (w : Envelope) {v : VerifiedEvent}
      → keep_event construct_event envelope decode is_uuid e w ≡ ok (some v)
      → (v.id ≡ e.id) × (v.kind ≡ e.kind) × Only allowed_fields v.facts
  unfolding keep_event
  keep_event_sound e w {v} h =
      let (occurred, e₁, f₁) = >>=-ok (created_at w) _ h in
      let (u, e₂, f₂) = >>=-ok (ensure (not (e.id == "" || ltb 255 (len e.id))) event_shape) _ f₁ in
      let (raw, e₃, f₃) = >>=-ok (required event_shape e.raw) _ f₂ in
      let (obj, e₄, f₄) = >>=-ok (required event_shape (decode raw)) _ f₃ in
      let (minimal, e₅, f₅) = >>=-ok (minimal_object is_uuid e.kind obj) _ f₄ in
      elim (Option-cases minimal) [
        | inl dropped ↦ let k = rw (dropped) at f₅ in absurd (ground arith)
        | inr (kept, q) ↦
            let k = rw (q) at f₅ in
            let same : record { id = e.id; kind = e.kind; occurred = occurred; facts = kept } ≡ v =
              ground arith in
            let (id, named, filled, bounded, shown, only) =
              minimal_object-IsKept is_uuid e.kind obj (e₅ ∙ ap ok q) in
            rw (← same) (refl, refl, only)
      ]

  -- An event that `verifyEvent` passes on to the inbox is one that the SDK vouches for under a secret that
  -- is set, in a body of at most 256 KiB; it has the program's version, no other account and the mode
  -- that is not live, is of a handled kind, and carries allowed fields only.
  pub verify_event_sound :
      (body signature secret : String) {v : VerifiedEvent}
      → verify_event construct_event envelope decode is_uuid body signature secret ≡ ok (some v)
      → (e : SdkEvent) × (w : Envelope) × (construct_event body signature secret ≡ some e)
        × (envelope body ≡ some w)
        × (secret ≢ "")
        × (len body ≤ 256 * 1024)
        × (sandbox e w ≡ true)
        × (handles handled_kinds e.kind ≡ true)
        × (v.id ≡ e.id)
        × (v.kind ≡ e.kind)
        × Only allowed_fields v.facts
  unfolding verify_event
  verify_event_sound body signature secret {v} h =
      let (u₁, e₁, f₁) = >>=-ok (ensure (not (secret == "")) unavailable) _ h in
      let (u₂, e₂, f₂) =
        >>=-ok (ensure (not (ltb max_webhook_bytes (len body))) invalid_event) _ f₁ in
      let (e, e₃, f₃) =
        >>=-ok (required invalid_event (construct_event body signature secret)) _ f₂ in
      let (w, e₄, f₄) = >>=-ok (required invalid_event (envelope body)) _ f₃ in
      let (u₅, e₅, f₅) = >>=-ok (ensure (sandbox e w) invalid_event) _ f₄ in
      let boxed : sandbox e w ≡ true = ground arith in
      elim (Bool-cases (handles handled_kinds e.kind)) [
        | inr unknown ↦ let k = rw (unknown) at f₅ in absurd (ground arith)
        | inl handled ↦
            let (same_id, same_kind, only) = keep_event_sound e w (rw (handled) at f₅) in
            (
              e,
              w,
              required-ok invalid_event (construct_event body signature secret) e₃,
              required-ok invalid_event (envelope body) e₄,
              (λ q. let t = (eq_iff secret "").1 q in ground arith),
              ground arith,
              boxed,
              handled,
              same_id,
              same_kind,
              only,
            )
      ]
