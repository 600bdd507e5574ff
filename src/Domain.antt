-- ===== src/Domain.antt =====
-- crates/audiodown-domain: the identifiers that the other crates share.
pub mod PluginId
mod Examples
