-- ===== src/Utils.antt =====
-- kernel/common/utils/utils.cc.
pub mod Murmur
pub mod Text
pub mod Split
pub mod Pieces
pub mod Sections
pub mod Strip
mod Tests
