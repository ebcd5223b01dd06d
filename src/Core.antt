-- ===== src/Core.antt =====
-- The crate bebop2/core, its event-sourcing organ.
mod Tests
pub mod EventLog
pub mod AntiEntropy
