-- ===== src/Content.antt =====
-- crates/audiodown-content: routing a content request to plugins and aggregating their answers.
pub mod Candidate
pub mod Select
pub mod Group
pub mod Cursor
pub mod Dedup
pub mod Platform
pub mod Service
mod Examples
