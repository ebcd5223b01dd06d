-- ===== src/ProtoCap.antt =====
-- The crate bebop2/proto-cap.
mod EventTests
mod IssuanceTests
mod Tests
pub mod ClaimMachine
pub mod EventDict
pub mod Issuance
pub mod Matcher
pub mod Scope
pub mod Tlv
pub mod Error
pub mod Capability
pub mod Roster
pub mod Revocation
pub mod Redline
pub mod SignedFrame
pub mod HybridGate
