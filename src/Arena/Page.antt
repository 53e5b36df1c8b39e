-- ===== src/Arena/Page.antt =====
-- `PageMemTable` of kernel/pool/arena_buddy_pool/page_mem_table.{h,cc}: blocks of six sizes in lists that are linked
-- through their first eight bytes. `free_lists` in the functions stands for the member `free_lists_`.
use ad_index.Base.{
  ℕ, zero, suc, ◌+◌, ◌-◌, ◌*◌, ◌%◌, Bool, true, false, List, [], ◌∷◌, ◌++◌, ltb, ◌==◌,
  if◌then◌else◌, get_elem?, set, replicate, u64_mod, Bytes, put_bytes, get_bytes, bytes_of, number,
  Run, done, ◌>>=◌, read,
}
use ad_index.Arena.Levels.{invalid_addr, page_max_levels, slab_max_levels, page_level_to_size}

-- A word at an offset from `begin_`.
unfoldable pub get_u64 : Bytes → ℕ → ℕ
get_u64 memory a = number (get_bytes memory a 8)

unfoldable pub put_u64 : Bytes → ℕ → ℕ → Bytes
put_u64 memory a n = put_bytes memory a (bytes_of 8 n)

pub record SlabInfo : Type 0 where
  pub slab_node_addr : ℕ
  pub free_block : ℕ

-- The head of the table and the lists behind it; `memory` holds the blocks.
pub record PageTable : Type 0 where
  pub begin : ℕ
  pub end : ℕ
  pub current : ℕ
  pub next : ℕ
  pub valid_flag : Bool
  pub pages : List ℕ
  pub slabs : List SlabInfo
  pub memory : Bytes

-- `AllocMem`; 0 is ERROR_ALLOC_OFFSET.
unfoldable pub alloc_mem : ℕ → PageTable → ℕ × PageTable
alloc_mem len t =
    if ltb t.end ((t.current + len) % u64_mod)
    then (0, t)
    else (t.current, record t { current = (t.current + len) % u64_mod })

-- The loop over the levels in `Init`, from a level on.
unfoldable pub init_pages : ℕ → ℕ → PageTable → PageTable
init_pages zero level t = t
init_pages (suc left) level t =
    let r = alloc_mem (page_level_to_size level) t in
    init_pages left (level + 1)
      (record r.1 { pages = r.1.pages ++ r.0 ∷ []; memory = put_u64 r.1.memory r.0 invalid_addr })

-- The head has 40 bytes, a PageInfo 8 and a SlabInfo 16.
unfoldable pub init_table : ℕ → Bytes → PageTable
init_table addr memory =
    let t : PageTable = record {
      begin = addr;
      end = addr + 10 * 1024 * 1024;
      current = addr;
      next = invalid_addr;
      valid_flag = true;
      pages = [];
      slabs = [];
      memory = memory;
    } in
    let t' =
      init_pages page_max_levels 0
        (alloc_mem (40 + page_max_levels * 8 + slab_max_levels * 16) t).1 in
    record t' {
      slabs =
          replicate slab_max_levels
            (record { slab_node_addr = invalid_addr; free_block = invalid_addr });
    }

-- The inner loop of `SplitFromHighLevel`, with so many levels above `level` left: the end of the block goes to
-- the lower levels.
unfoldable pub split_down : ℕ → ℕ → ℕ → PageTable → Run PageTable
split_down zero level end_offset t = done t
split_down (suc n) level end_offset t =
    let addr = end_offset - page_level_to_size (level + n) in
    read (get_elem? t.pages (level + n)) >>= λ head.
    split_down n level addr
      (record t { memory = put_u64 t.memory addr head; pages = set t.pages (level + n) addr })

-- The block is taken off its list.
unfoldable pub take_page : ℕ → PageTable → Run (ℕ × PageTable)
take_page i t = read (get_elem? t.pages i) >>= λ head. done (
  head,
  record t {
    pages = set t.pages i (get_u64 t.memory head);
    memory = put_u64 t.memory head invalid_addr;
  },
)

-- The outer loop, from level `i` on.
unfoldable pub split_from : ℕ → ℕ → ℕ → PageTable → Run (ℕ × PageTable)
split_from zero i level t = done (0, t)
split_from (suc left) i level t = read (get_elem? t.pages i) >>= λ head.
    elim (head == invalid_addr) [
      | true ↦ split_from left (i + 1) level t
      | false ↦
          split_down (i - level) level (head + page_level_to_size i) t >>= λ t'. take_page i t'
    ]

unfoldable pub split_from_high_level : ℕ → PageTable → Run (ℕ × PageTable)
split_from_high_level level t = split_from (page_max_levels - (level + 1)) (level + 1) level t

-- `GetUintFromPageLevel`
unfoldable pub get_unit_from_page_level : PageTable → Run (ℕ × PageTable)
get_unit_from_page_level t = read (get_elem? t.pages 0) >>= λ head.
    if head == invalid_addr
    then split_from_high_level 0 t
    else let next = get_u64 t.memory head in
      done (
        head,
        record t { pages = set t.pages 0 (if next == invalid_addr then invalid_addr else next) },
      )

-- `ExtendPageMem`, from a level on.
unfoldable pub extend_from : ℕ → ℕ → PageTable → Run (Bool × PageTable)
extend_from zero level t = done (true, t)
extend_from (suc left) level t =
    let r = alloc_mem (page_level_to_size level) t in
    elim (r.0 == 0) [
      | true ↦ done (false, r.1)
      | false ↦ read (get_elem? r.1.pages level) >>= λ head.
          extend_from left (level + 1)
            (record r.1 { memory = put_u64 r.1.memory r.0 head; pages = set r.1.pages level r.0 })
    ]

unfoldable pub extend_page_mem : PageTable → Run (Bool × PageTable)
extend_page_mem t = extend_from page_max_levels 0 t
