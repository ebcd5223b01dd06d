-- ===== src/Delivery.antt =====
-- The crate bebop2/delivery-domain.
mod Tests
pub mod Finalization
pub mod HubRing
pub mod Pod
pub mod Transition
