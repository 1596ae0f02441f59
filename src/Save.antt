-- ===== src/Save.antt =====
-- replay/save/: where a replay is saved, and what is written.
pub mod Directory
pub mod Writer
pub mod JsonHeader
pub mod Saver
mod Tests
