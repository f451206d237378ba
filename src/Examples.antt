-- ===== src/Examples.antt =====
-- The theorems applied to concrete inputs.
pub mod Recognition
pub mod Badges
pub mod Events
pub mod Financial
pub mod Referrals
pub mod Texts
pub mod Payments
pub mod Reconcile
