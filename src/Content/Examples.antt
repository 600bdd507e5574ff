-- ===== src/Content/Examples.antt =====
-- Concrete requests, plugins and cursors for crates/audiodown-content, on which its theorems are used.
mod Codec
mod Data
mod Cursors
mod Routes
mod Contents
