-- ===== src/Supervisor/Install.antt =====
-- crates/audiodown-supervisor/src/install_operation.rs.
pub mod State
pub mod Files
pub mod Sections
pub mod Lifecycle
pub mod Steps
pub mod Simulation
pub mod Bounds
pub mod Quiet
pub mod Composed
pub mod Interleaving
pub mod Listing
pub mod Abort
pub mod Finalized
pub mod Restart
pub mod Durable
pub mod Opened
