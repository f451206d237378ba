-- ===== src/Reconcile.antt =====
-- Reconciliation of the processor's charges and refunds with the stored facts:
-- apps/donor-api/internal/reconcile/reconcile.go, and the listing of cmd/reconcile/main.go.
pub mod Window
pub mod Objects
pub mod Report
pub mod Diff
pub mod Listing
pub mod Links
