-- ===== src/Recognition.antt =====
-- Donor recognition: apps/donor-api/internal/recognition/recognition.go.
pub mod Facts
pub mod Net
pub mod Relationships
pub mod Streak
pub mod Ladder
