-- ===== src/SortTable/Tests.antt =====
-- The theorems on concrete tables.
use ad_index.Base.{
  ℕ, ◌-◌, ◌/◌, ◌≡◌, refl, true, false, [], ◌∷◌, none, some, arith, if◌then◌else◌, replicate,
  length-replicate, done, Returns, rank,
}
use ad_index.SortTable.{cleared, Block, simd_binary_search}
use ad_index.SortTable.Table.{
  BlockPool, SortTable, SortTableType, exclusive, shared, get_hash_key, insert, search, delete,
}
use ad_index.Index.{KvPair}
use ad_index.SortTable.Search.{Locates, simd_binary_search-Locates}
use ad_index.SortTable.Add.{Serves}
use ad_index.SortTable.Contents.{contents}
use ad_index.SortTable.Valid.{IsValid}
use ad_index.SortTable.Batch.{batch_delete, hash_keys}
use ad_index.SortTable.BatchInsert.{batch_insert}
use ad_index.SortTable.BatchFull.{count_new, batch_insert_full}
use ad_index.SortTable.Difference.{Ascending, has}
use ad_index.SortTable.BatchDelete.{Ascending-IsSorted, Ascending-Fits, batch_delete_lem}
use ad_index.SortTable.Map.{IsSearch, search_lem, Updates, insert_lem, delete_lem}

-- Three records, and room for no more.
abbrev full_block : Block
full_block = record {
  used_size = 3;
  total_size = 3;
  records =
      record { key = 5; value = 50 }
      ∷ record { key = 7; value = 70 }
      ∷ record { key = 300; value = 3 }
      ∷ [];
}

full_block-Ascending : Ascending full_block.records
unfolding rank
full_block-Ascending = (
  (ground arith, (ground arith, tt)),
  omega arith,
  ((ground arith, tt), omega arith, (tt, omega arith, tt)),
)

full_block-IsValid : IsValid full_block
full_block-IsValid = record {
  sorted = Ascending-IsSorted full_block.records full_block-Ascending;
  keys = Ascending-Fits full_block.records full_block-Ascending;
  within = omega arith;
  room = omega arith;
  positive = omega arith;
}

abbrev large_pool : BlockPool
large_pool = record {
  new_block = λ n. some (replicate ((n - 16) / 16) cleared);
  extension = λ n. some (replicate (n / 16) cleared);
  frees = true;
}

large_pool-Serves : Serves large_pool
large_pool-Serves = record {
  serves_block = λ n. (_, refl, length-replicate ((n - 16) / 16) cleared);
  serves_extension = λ n. (_, refl, length-replicate (n / 16) cleared);
  serves_free = refl;
}

abbrev empty_pool : BlockPool
empty_pool = record { new_block = λ n. none; extension = λ n. none; frees = true }

abbrev table : SortTableType → BlockPool → SortTable
table kind pool = record {
  kind = kind;
  bs_level = 2;
  bs_mid_count = 3;
  init_record_num = 7;
  mmap_pool = some pool;
  block = full_block;
}

abbrev pair : ℕ → KvPair
pair byte = record { key = some (byte ∷ []); value = 60; payload_len = 0 }

simd-IsSearch : IsSearch simd_binary_search
simd-IsSearch b k v bound small =
    simd_binary_search-Locates b k v.sorted v.keys small (omega (arith, v.within, v.room)) bound

search_lem_example : search simd_binary_search (table shared large_pool) (pair 7) ≡ done (true, 70)
unfolding contents get_hash_key
search_lem_example =
    search_lem simd_binary_search simd-IsSearch (table shared large_pool) (7 ∷ []) (pair 7)
      full_block-IsValid (omega arith) (omega arith, tt) refl

insert_lem_example :
    Returns
      (insert simd_binary_search (table shared large_pool) (pair 6))
      (Updates (table shared large_pool) (get_hash_key (6 ∷ [])) 60)
insert_lem_example =
    insert_lem simd_binary_search simd-IsSearch (table shared large_pool) (6 ∷ []) (pair 6)
      full_block-IsValid (omega arith) (large_pool, refl, large_pool-Serves) (omega arith, tt) refl
      refl

no_six : contents full_block (get_hash_key (6 ∷ [])) ≡ none
unfolding contents get_hash_key
no_six = refl

delete_lem_example :
    delete simd_binary_search (table shared large_pool) (pair 7)
    ≡ done (false, table shared large_pool)
unfolding contents get_hash_key
delete_lem_example =
    delete_lem simd_binary_search simd-IsSearch (table shared large_pool) (7 ∷ []) (pair 7)
      full_block-IsValid (omega arith) (omega arith, tt) refl

simd_binary_search-Locates_example :
    Returns (simd_binary_search full_block 6) (Locates full_block.records 6 3)
simd_binary_search-Locates_example =
    simd_binary_search-Locates full_block 6 full_block-IsValid.sorted full_block-IsValid.keys
      (omega arith) (omega arith) (omega arith)

batch_delete_lem_example :
    let (deleted, t') = batch_delete (table shared large_pool) ((7 ∷ []) ∷ (5 ∷ []) ∷ []) false in
    (deleted ≡ true)
    × IsValid t'.block
    × ((j : ℕ)
        → contents t'.block j
          ≡ (if has j (hash_keys ((7 ∷ []) ∷ (5 ∷ []) ∷ [])) then none else contents full_block j))
batch_delete_lem_example =
    batch_delete_lem (table shared large_pool) ((7 ∷ []) ∷ (5 ∷ []) ∷ []) false full_block-IsValid
      (λ e. absurd (cc e))

batch_insert_full_example :
    batch_insert simd_binary_search (table exclusive empty_pool) ((6 ∷ [], 60) ∷ []) false
    ≡ done (true, table exclusive empty_pool)
unfolding count_new contents get_hash_key
batch_insert_full_example =
    batch_insert_full simd_binary_search simd-IsSearch (table exclusive empty_pool)
      full_block-IsValid (omega arith) ((6 ∷ [], 60) ∷ []) false ((omega arith, tt), tt)
      (omega arith) (omega arith)
