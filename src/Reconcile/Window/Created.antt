-- ===== src/Reconcile/Window/Created.antt =====
-- What the inclusive range of seconds of a window holds.
use impact_graph.Base.{ℕ, ◌+◌, ◌*◌, ◌≤◌, ◌<◌, ◌↔◌, pos, ◌≤ℤ◌, ◌-ℤ◌, arith}
use impact_graph.Payments.Facts.{second, unix_epoch}
use impact_graph.Reconcile.Window.{Window, ceil_unix, stripe_created_range}

-- The range that is asked of the processor is exact: an object created in a whole second lies in the
-- half-open window exactly when that second is in the inclusive range.
pub stripe_created_range-exact :
    (w : Window) (created : ℕ)
    → let range = stripe_created_range w in
      let at = (unix_epoch + created) * second in
      ((range.0 ≤ℤ pos created) × (pos created ≤ℤ range.1)) ↔ ((w.start ≤ at) × (at < w.end))
unfolding stripe_created_range ceil_unix ◌-ℤ◌
stripe_created_range-exact w created =
    (λ h. (ground arith, ground arith), λ h. (ground arith, ground arith))
