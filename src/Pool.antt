-- ===== src/Pool.antt =====
-- kernel/pool: memory in blocks, from a store and from a list of blocks that were freed.
pub mod FreeList
pub mod FilePool
pub mod Cover
pub mod Accounts
pub mod History
pub mod VariableLength
pub mod Reading
pub mod Mapped
pub mod Growing
pub mod Placing
pub mod Saved
pub mod Totals
pub mod Blocks
pub mod Dumping
pub mod Dumped
pub mod Loading
pub mod Reloading
mod Tests
