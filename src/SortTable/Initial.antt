-- ===== src/SortTable/Initial.antt =====
-- A table that was just initialised.
use ad_index.Base.{
  ℕ, ◌+◌, ◌*◌, ◌<◌, ◌≡◌, refl, List, none, some, arith, replicate, length-replicate,
}
use ad_index.SortTable.{Record, cleared}
use ad_index.SortTable.Table.{BlockPool, SortTable, init_empty_sort_table}
use ad_index.SortTable.Contents.{contents, contents-absent}
use ad_index.SortTable.Valid.{IsValid}

-- `InitEmptySortTable` of one record or more, with a pool that gives the memory, succeeds whatever the
-- memory held: the table is valid, has room for as many records as asked for, and holds no key.
pub init_empty_sort_table-IsValid :
    (t : SortTable) (pool : BlockPool) (memory : List Record)
    → t.mmap_pool ≡ some pool
    → pool.new_block (16 + 16 * t.init_record_num) ≡ some memory
    → 0 < t.init_record_num
    → (t' : SortTable) × (init_empty_sort_table t ≡ some t')
      × IsValid t'.block
      × (t'.block.total_size ≡ t.init_record_num)
      × ((k : ℕ) → contents t'.block k ≡ none)
unfolding init_empty_sort_table
init_empty_sort_table-IsValid t pool memory has_pool gives pos = (
  record t {
    block = record {
      used_size = 0;
      total_size = t.init_record_num;
      records = replicate t.init_record_num cleared;
    };
  },
  rw (has_pool, gives) refl,
  record {
    sorted = λ i j h l. absurd (omega arith);
    keys = λ i l. absurd (omega arith);
    within = omega arith;
    room = omega (arith, length-replicate t.init_record_num cleared);
    positive = pos;
  },
  refl,
  λ k. contents-absent _ k (λ i l. absurd (omega arith)),
)
