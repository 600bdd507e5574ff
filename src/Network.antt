-- ===== src/Network.antt =====
-- crates/audiodown-network-proxy.
pub mod Address
pub mod Host
pub mod Policy
pub mod Cookies
mod Examples
