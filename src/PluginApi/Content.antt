-- ===== src/PluginApi/Content.antt =====
-- crates/audiodown-plugin-api/src/content.rs: the requests and results of the content methods, and
-- the limits that their `validate` methods enforce.
mod Checks
mod Types
pub mod Laws
unfoldable pub use Types.*
unfoldable pub use Checks.*
