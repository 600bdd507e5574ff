-- ===== src/Supervisor.antt =====
-- crates/audiodown-supervisor and crates/audiodown-supervisor-protocol.
pub mod Protocol
pub mod Install
pub mod Policy
mod Examples
