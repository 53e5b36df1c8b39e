-- ===== src/Arena.antt =====
-- kernel/pool/arena_buddy_pool: the pool of blocks in levels of sizes.
pub mod Levels
pub mod Slab
pub mod Items
pub mod Page
pub mod Words
pub mod Lists
pub mod Splitting
pub mod Units
pub mod Taking
pub mod Giving
pub mod Pushing
pub mod Extending
pub mod Freeing
pub mod Segments
pub mod Changing
pub mod Unlinking
pub mod Section
pub mod Serving
pub mod Heap
pub mod Overflow
pub mod Rounds
pub mod Joining
pub mod Gaining
pub mod Merging
mod Tests
pub mod Requests
pub mod Headers
pub mod Written
pub mod Reload
