-- ===== src/HashTable.antt =====
-- kernel/index/hash_table: buckets in an array and in chains behind it.
pub mod Bucket
pub mod Table
pub mod Keys
pub mod Chains
pub mod Contents
pub mod Valid
pub mod Insertion
pub mod Appending
pub mod Lookup
pub mod Storing
pub mod Map
pub mod Removal
pub mod Pulling
pub mod Deletion
pub mod Limits
mod Tests
