-- ===== src/Payments.antt =====
-- The processor's objects and events: apps/donor-api/internal/payments.
pub mod Facts
pub mod Webhook
pub mod Events
