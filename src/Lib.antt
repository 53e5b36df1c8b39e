-- ===== src/Lib.antt =====
-- Verification of the index kernel of ad_index (kernel/), an index and storage engine in C++.
--
-- The program keeps its tables in memory that a pool gives out (kernel/pool), over a file or a mapped
-- file (kernel/store). An index (kernel/index) is a table in pool memory: the sort table, a sorted
-- array of records, and the hash table, an array of buckets with chains. Both find a key by its bytes;
-- longer keys go through MurmurHash2 (kernel/common/utils).
--
-- - Base: the names that the modules share. Base/Tests: Boolean tests on numbers. Base/Lists: C arrays
--   as lists. Base/Words, Base/Bits, Base/Masks: machine words, the signed order of an int64_t given
--   as its bit pattern, bounds on bit operations, and masks. Base/Outcomes: the result of code that
--   can fault or run out of fuel, and what it is to return a value with a property.
-- - Utils: kernel/common/utils/utils.cc. Utils/Murmur is MurmurHash2, on bytes; Utils/Text is Split
--   (the one that gives strings), Strip and Join, on characters; Split, Pieces, Sections and Strip are about
--   those, and Utils/Tests runs the theorems on short texts.
-- - SortTable: kernel/index/sort_table/sort_table.{h,cc}. The parent holds Record, the block (the
--   header and the records behind it) and SimdBinarySearch; SortTable/Table the operations of the class
--   (GetHashKey, DirectlyAdd, AllocAdd, ExpandAdd, GetRecordByKey, Insert, Delete, Search);
--   SortTable/Batch BatchDelete, and SortTable/BatchInsert BatchInsert. A pointer to a record is the
--   index of the record, and an access outside the block is a fault. SortTable/Search is about the
--   search, Shifting, Add and Valid about the insertion of a record and the invariant, Contents and
--   Update about the block as a map from keys to values, Map about the operations on that map,
--   Difference, Compact and BatchDelete about the batch deletion, Hash about the range of a key,
--   BatchFull about a batch without room, Initial about a new table; SortTable/Tests runs the theorems
--   on concrete tables.
-- - Index: KvPair of kernel/index/index.h. Index/Magic is the header of an index, of index.h and index.cc,
--   and that of a hash table, with LoadHashTable; Made is about a header that was made before, and
--   Index/Tests runs the theorems on memory that is all zero.
-- - Snapshot: the document ids of kernel/snapshot/snapshot.h. Snapshot/Places is about the places in
--   segments that they stand for, and Snapshot/Tests has a snapshot of four segments.
-- - HashTable: kernel/index/hash_table. HashTable/Bucket is hash_bucket.{h,cc}; HashTable/Table is
--   murmurhash_table.{h,cc}, with the memory from `first_` on as a function from indexes to buckets, of
--   which the first `bucket_num_` are the array. The two functions GetBucketByKeyLePayloadSize and
--   GetBucketByKeyGtPayloadSize differ in how they test and write a bucket (`check`, `write_key`), and
--   are one definition for the rest. Keys says which keys a bucket stands for, Chains what `walk` finds
--   on a chain, Contents what a chain holds, Valid, Insertion, Appending, Removal and Pulling what a
--   change of the buckets does to the invariant and the contents, Lookup, Storing, Map and Deletion
--   what the operations do, Limits is about sizes and about what is freed; HashTable/Tests runs the
--   theorems on a concrete table.
-- - Pool: kernel/pool/file_pool.{h,cc}. Pool/FreeList is the map from sizes to queues of blocks,
--   Pool/FilePool DoAlloc and DoFree, with GetAlignedSize, which derived pools override, and the
--   success of Store::Expand as arguments. Pool/Cover counts in how many blocks an address lies,
--   Pool/Accounts is about free_list_meta_, and Pool/History about sequences of Alloc, Free and the
--   delayed tasks that Free queues, each a step, since both run under one mutex. Pool/VariableLength is
--   Write and Read of variable_length_pool.cc on those of kernel/store/mmap_store.cc, with the memory
--   as a function from addresses to bytes and FileStore::Write as an argument, and Pool/Reading is
--   about what is read back. Pool/Mapped is AllocFromStore of mmap_pool.cc, on the mapped file: Growing
--   is about its loop, Placing about the block that it gives. Pool/Saved is DumpFreeList and
--   LoadFreeList of FilePool and MMapPool, on files: Totals is about the blocks of a list, Blocks about
--   them in a file, Dumping and Dumped about what gets into the file, Loading and Reloading about what
--   is loaded. Pool/Tests runs the theorems on a concrete pool.
-- - Arena: kernel/pool/arena_buddy_pool. Levels is ab_pool_define.h and the levels of
--   page_mem_table.h; Slab is slab_mem_table.h; Page and Freeing are page_mem_table.{h,cc}, how blocks
--   of six sizes are given and taken back, with the words in free blocks in a memory of bytes; Section
--   is section_mem_table.{h,cc}; Heap and Requests are heap_mem_manager.{h,cc}, Reload its Init, and
--   Headers is arena_buddy_pool.{h,cc}, on any heap. Items is about slabs, Serving about sections.
--   Words, Lists, Splitting, Units, Taking and Pushing lead to Giving, about a unit block, and
--   Extending, about memory that is added to the lists; Segments, Changing, Unlinking, Rounds, Joining
--   and Gaining, about one level of MergePageLevel, lead to Merging, about a block that is freed;
--   Overflow is about merging beyond the highest level, Reload/Sections, Reload/Pages and
--   Reload/Losing about a heap that is found again, Written about the size by which a block is freed.
--   Arena/Tests runs the theorems on a table with one free block and on small heaps.
-- - Store: kernel/store/file_store.{h,cc}, on files of bytes. Store/File is FileStore, with what lseek,
--   read, write, open and ftruncate return as an argument; Reading is about what is written and read,
--   Sizes about size_; Store/Tests runs the theorems on an empty disk. Base/Memory: memory and numbers
--   as bytes.
-- - Concurrency: kernel/common/concurrency. Concurrency/LockFreeQueue is lock_free_queue.hpp on nodes
--   in memory, with the address that `new` gives as an argument; Concurrency/ThreadPool is
--   thread_pool.{h,cc}: thread_step is ThreadBody, from one point where other threads may run to the
--   next, and Step adds the calls of AddTask, which test the status before they take the mutex, and
--   Stop. The free of a pool is such a task. Fifo is about the queue, Running about one worker,
--   Stopping about the pool in use; Concurrency/Tests runs the theorems on a pool of one worker.
-- - Manager: kernel/manager/table_info. Manager/FieldInfo is field_info.{h,cc} and index_info.cc,
--   Manager/Names GetFieldInfoByUnionName with what holds of it, Manager/Convert the two conversions of
--   field_info.cc; Manager/TableInfo is ParseFieldDesc and the loops of ParseTableConfig of
--   table_info.cc on the descriptors of protobuf, which are data here; Manager/Tables is
--   table_info_factory.cc and the tables of kv_table_info.cc, kkv_table_info.cc and
--   structure_table_info.cc. A rapidjson value is the argument Json, a proto file what `imported` gives
--   for it. Sizes is about the sizes, Widths and Decimal about the conversions, Layout about the
--   offsets, Ending about the end of the loop over fields, Unique about the fields of type
--   "uniq_string", Checked about the tables; Manager/Tests runs the theorems on small inputs.
--   Base/Texts: texts as lists of characters.
--
-- Bounds: an int64_t is its bit pattern, a number below 2^64; `mid` of the search is an int32_t, which
-- is why tables of 2^31 records and more are left out. The search has fuel for one more round than
-- there are records, and each round takes at least one record out. MurmurHash2 wraps at 2^32. A bucket
-- keeps 48 bits of a value, 29 of a link and 8 of a key size, written out as remainders. The walk along
-- a chain has its fuel as an argument; a chain shorter than the fuel is walked to its end. Split has
-- fuel for its rounds, of which each but the last takes a separator off the text, so more than a text
-- is long is enough. The loop that dumps a queue has fuel for each block of it, enough if each is
-- written at once; the loop that expands a mapped file has fuel for the bytes that are missing, of
-- which each round adds at least one. The insert_count of BatchInsert is an int32_t and wraps. A shift of
-- snapshot.h that C++ leaves undefined is a fault.
--
-- Parameters: NormalBinarySearch is declared in sort_table.h and defined nowhere; the operations take
-- it as a parameter, and the theorems assume what its comment says. The pool's Alloc and Free are the
-- fields of BlockPool; what memory follows the table when an exclusive table expands in place is what
-- Alloc gives, since the source takes it to. The hash table takes its buckets from a BucketPool, whose
-- state is passed along; the theorem on insertion assumes that the bucket given is free and lies behind
-- the array. What the system calls on files return is the argument System; a system with room is one
-- where files open to write and all bytes are moved, up to offsets of 2^63.
--
-- In the arena pool the offset that Alloc gives for a new table, and what AllocBySlab and
-- AllocByPageLevel do, are arguments: the one has no body, and the other names what it does not declare.
-- An offset 0, of an Alloc that failed, is a fault when a table is written there.
-- The fuel of MergePageLevel is for its calls and for each list.
--
-- Not modelled: the pools' Init and NewData, the mapping of files, the iterators, and of snapshots what
-- is only declared. Several programs write to a table with atomic instructions; the development is about one
-- writer.
pub mod Arena
pub mod Base
pub mod Concurrency
pub mod HashTable
pub mod Index
pub mod Manager
pub mod Pool
pub mod Snapshot
pub mod SortTable
pub mod Store
pub mod Utils
