-- ===== src/Arena/Freeing.antt =====
-- How a `PageMemTable` takes data back, and gives a slab: the rest of page_mem_table.cc that is complete.
use ad_index.Base.{
  ℕ, zero, suc, ◌+◌, ◌-◌, ◌%◌, Bool, true, false, ◌&&◌, ◌||◌, Option, none, some, ltb, ◌==◌,
  if◌then◌else◌, min, get_elem?, set, u64_mod, Bytes, put_bytes, bytes_of, ◌++◌, Run, done,
  out_of_fuel, ◌>>=◌, read,
}
use ad_index.Arena.Levels.{
  invalid_addr, small_object, large_object, huge_object, divide_size, page_level_to_size,
  slab_level_to_size, find_level, find_slab_level,
}
use ad_index.Arena.Slab.{SlabHead, init_slab, alloc_block}
use ad_index.Arena.Page.{get_u64, put_u64, PageTable, get_unit_from_page_level}

-- Whether two blocks of a size lie side by side, in the wrapping words of the source.
unfoldable pub adjacent : ℕ → ℕ → ℕ → Bool
adjacent now head size =
    (now + (u64_mod - size)) % u64_mod == head || (head + (u64_mod - size)) % u64_mod == now

-- The inner loop of `MergePageLevel`: the lower of the two blocks side by side, off the list, if there are two.
unfoldable pub merge_scan : ℕ → ℕ → ℕ → ℕ → ℕ → PageTable → Run (Option ℕ × PageTable)
merge_scan zero last now head level t = out_of_fuel
merge_scan (suc fuel) last now head level t =
    if now == invalid_addr
    then done (none, t)
    else elim (adjacent now head (page_level_to_size level)) [
      | true ↦
          let memory = put_u64 t.memory last (get_u64 t.memory now) in
          done (
            some (min head now),
            record t { memory = memory; pages = set t.pages level (get_u64 memory head) },
          )
      | false ↦ merge_scan fuel now (get_u64 t.memory now) head level t
    ]

-- `MergePageLevel` from a level on, with fuel for the levels and for each list; level 6 is behind the array of lists.
unfoldable pub merge_page_level : ℕ → ℕ → ℕ → ℕ → PageTable → Run PageTable
merge_page_level zero fuel head level t = out_of_fuel
merge_page_level (suc left) fuel head level t = read (get_elem? t.pages level) >>= λ now.
    let t' : PageTable = record t {
      memory = put_u64 t.memory head now;
      pages = set t.pages level head;
    } in
    let last = get_u64 t'.memory head in
    elim (adjacent last head (page_level_to_size level)) [
      | true ↦
          merge_page_level left fuel (min head last) (level + 1)
            (record t' { pages = set t'.pages level (get_u64 t'.memory last) })
      | false ↦ merge_scan fuel head last head level t' >>= λ r. elim r.0 [
        | none ↦ done r.1
        | some merged ↦ merge_page_level left fuel merged (level + 1) r.1
      ]
    ]

unfoldable pub free_data_by_page : ℕ → ℕ → ℕ → PageTable → Run PageTable
free_data_by_page fuel addr size t = merge_page_level 8 fuel addr (find_level size) t

-- The block is put on the list of its slab level, from which no function takes.
unfoldable pub free_data_by_slab : ℕ → ℕ → PageTable → Run PageTable
free_data_by_slab addr size t =
    let level = find_slab_level size in
    read (get_elem? t.slabs level) >>= λ info. done (record t {
      memory = put_u64 t.memory addr info.free_block;
      slabs = set t.slabs level (record info { free_block = addr });
    })

unfoldable pub free_data : ℕ → ℕ → ℕ → PageTable → Run PageTable
free_data fuel addr size t = elim (divide_size size) [
  | small_object ↦ free_data_by_slab addr size t
  | large_object ↦ free_data_by_page fuel addr size t
  | huge_object ↦ done t
]

unfoldable pub belong_to_table : ℕ → ℕ → PageTable → Bool
belong_to_table offset size t =
    ltb t.begin offset && ltb offset t.end && ltb ((offset + size) % u64_mod) t.end

-- A `SlabMemTableHead` in memory.
unfoldable pub put_slab : Bytes → ℕ → SlabHead → Bytes
put_slab memory addr s = put_bytes memory addr (
    bytes_of 8 s.begin
    ++ bytes_of 8 s.end
    ++ bytes_of 8 s.current
    ++ bytes_of 4 s.item_size
    ++ bytes_of 4 s.use_item
    ++ bytes_of 4 s.max_item_num)

-- `ExtendFromPageMem`: a new slab, and its first item.
unfoldable pub extend_from_page_mem : ℕ → PageTable → Run (ℕ × PageTable)
extend_from_page_mem level t = get_unit_from_page_level t >>= λ r.
    if r.0 == 0
    then done (0, r.1)
    else read (get_elem? r.1.slabs level) >>= λ info.
        let item = alloc_block (init_slab r.0 (slab_level_to_size level)) in
        done (
          item.0,
          record r.1 {
            slabs = set r.1.slabs level (record info { slab_node_addr = r.0 });
            memory = put_slab r.1.memory r.0 item.1;
          },
        )
