-- ===== src/Manager.antt =====
-- kernel/manager/table_info: what the tables and their fields are made of.
pub mod FieldInfo
pub mod Sizes
pub mod Names
pub mod Convert
pub mod Widths
pub mod Decimal
pub mod TableInfo
pub mod Layout
pub mod Tables
pub mod Checked
pub mod Ending
pub mod Unique
mod Tests
