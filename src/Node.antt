-- ===== src/Node.antt =====
-- The crate bebop2/mesh-node, its fail-closed control paths.
mod PolicyTests
mod Tests
pub mod Breach
pub mod Dod
pub mod HubPolicy
pub mod KillSwitch
pub mod Listeners
