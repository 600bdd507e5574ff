-- ===== src/PluginApi.antt =====
-- crates/audiodown-plugin-api: the contract between Core and a plugin.
pub mod Error
pub mod Rpc
pub mod Content
