-- ===== src/Store.antt =====
-- kernel/store: files of bytes.
pub mod File
pub mod Reading
pub mod Sizes
mod Tests
