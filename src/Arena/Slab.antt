-- ===== src/Arena/Slab.antt =====
-- `SlabMemTable` of kernel/pool/arena_buddy_pool/slab_mem_table.h: a block of 4 KiB, cut into items of one size.
use ad_index.Base.{ℕ, ◌+◌, ◌-◌, ◌*◌, ◌/◌, ◌%◌, ltb, if◌then◌else◌, u32_mod}

-- `SlabMemTableHead`, with an unsigned 32-bit `item_size`, `use_item` and `max_item_num`.
pub record SlabHead : Type 0 where
  pub begin : ℕ
  pub end : ℕ
  pub current : ℕ
  pub item_size : ℕ
  pub use_item : ℕ
  pub max_item_num : ℕ

abbrev pub head_size : ℕ
head_size = 40

unfoldable pub init_slab : ℕ → ℕ → SlabHead
init_slab addr size = record {
  begin = addr;
  end = addr + 4 * 1024;
  item_size = size % u32_mod;
  current = addr + head_size;
  max_item_num = (4 * 1024 - head_size) / (size % u32_mod);
  use_item = 0;
}

-- `AllocData` and `AllocBlock`; 0 is ERROR_ALLOC_OFFSET.
unfoldable pub alloc_block : SlabHead → ℕ × SlabHead
alloc_block s =
    if ltb s.use_item s.max_item_num
    then (
      s.begin + head_size + s.item_size * s.use_item % u32_mod,
      record s { use_item = (s.use_item + 1) % u32_mod },
    )
    else (0, s)
