-- ===== src/ProtoWire.antt =====
-- The crate bebop2/proto-wire.
mod SyncTests
mod Tests
pub mod Bpv7
pub mod Framing
pub mod MerkleLog
pub mod SyncFrame
pub mod SyncPeer
pub mod TransportPolicy
