-- ===== src/Content/Cursor/Binding.antt =====
-- Cursors of crates/audiodown-content/src/cursor.rs under another request than their own.
use audio_down_core.Base.Text.{Text}
