-- ===== src/Arena/Requests.antt =====
-- How `HeapMemManager` of kernel/pool/arena_buddy_pool/heap_mem_manager.{h,cc} begins, and gives and takes blocks of a page
-- table. A page table's own `AllocBySlab` and `AllocByPageLevel` are arguments: page_mem_table.cc lacks the one, and its
-- text of the other names what it does not declare.
use ad_index.Base.{
  ℕ, ◌+◌, Bool, true, false, List, [], ◌∷◌, ◌++◌, Option, none, some, ◌==◌, if◌then◌else◌, Bytes,
  Run, done, fault, ◌>>=◌,
}
use ad_index.Arena.Levels.{invalid_addr, small_object, large_object, huge_object, divide_size}
use ad_index.Arena.Page.{PageTable, init_table}
use ad_index.Arena.Freeing.{free_data, belong_to_table}
use ad_index.Arena.Section.{init_section}
use ad_index.Arena.Heap.{Heap, update_page_offset, alloc_data_from_section}

-- The heap that `InitMmap` lays out, with the offsets that `Alloc` gives for the head, the page table and the section.
unfoldable pub begun_heap : ℕ → ℕ → ℕ → Bytes → Heap
begun_heap start page section memory = record {
  head = record {
    begin = start;
    end = start + 48;
    page_mem_start = page;
    page_mem_end = invalid_addr;
    section_mem_start = section;
    section_mem_end = invalid_addr;
  };
  pages = init_table page memory ∷ [];
  sections = init_section section ∷ [];
}

-- `InitMmap`. An `Alloc` that fails gives 0, which is not looked at: a table written there is outside any block that was
-- given, over the head of the heap. The head itself lies at `begin_`, whatever `Alloc` gives for it.
unfoldable pub init_mmap : ℕ → ℕ → ℕ → Bytes → Run Heap
init_mmap start page section memory =
    if page == 0
    then fault
    else if section == 0
    then fault
    else done (begun_heap start page section memory)

-- `PageMemTable::AllocData`: the offset of the data from `begin_`; `none` is ERROR_ALLOC_ADDR.
unfoldable pub alloc_data :
    (ℕ → PageTable → Run (ℕ × PageTable))
    → (ℕ → PageTable → Run (ℕ × PageTable))
    → ℕ
    → PageTable
    → Run (Option ℕ × PageTable)
alloc_data by_slab by_page_level len t =
    let tried : Run (ℕ × PageTable) = elim (divide_size len) [
      | small_object ↦ by_slab len t
      | large_object ↦ by_page_level len t
      | huge_object ↦ done (0, t)
    ] in
    tried >>= λ r.
    done (if r.0 == 0 then (none, record r.1 { valid_flag = false }) else (some r.0, r.1))

-- A table that is added at the offset that `Alloc` gives; 0 is not looked at here either.
unfoldable pub extend_page_tables : ℕ → Bytes → Heap → Run Heap
extend_page_tables given memory h =
    if given == 0
    then fault
    else done
        (update_page_offset given (record h { pages = h.pages ++ init_table given memory ∷ [] }))

-- The loop of `AllocDataFromPage`: what the first valid table gives; `none` is no valid table.
unfoldable pub alloc_from_pages :
    (PageTable → Run (Option ℕ × PageTable))
    → List PageTable
    → Run (Option (Option ℕ × List PageTable))
alloc_from_pages alloc [] = done none
alloc_from_pages alloc (t ∷ pages) =
    let rest = alloc_from_pages alloc pages in
    if t.valid_flag
    then (alloc t >>= λ r. done (some (r.0, r.1 ∷ pages)))
    else rest >>= λ o. done (elim o [ none ↦ none | some r ↦ some (r.0, t ∷ r.1) ])

unfoldable pub alloc_data_from_page :
    (PageTable → Run (Option ℕ × PageTable)) → ℕ → Bytes → Heap → Run (Option ℕ × Heap)
alloc_data_from_page alloc given memory h = alloc_from_pages alloc h.pages >>= λ o. elim o [
  | some r ↦ done (r.0, record h { pages = r.1 })
  | none ↦ extend_page_tables given memory h >>= λ h'. alloc_from_pages alloc h'.pages >>= λ o'.
      elim o' [ some r ↦ done (r.0, record h' { pages = r.1 }) | none ↦ done (none, h') ]
]

unfoldable pub alloc_heap :
    (ℕ → PageTable → Run (ℕ × PageTable))
    → (ℕ → PageTable → Run (ℕ × PageTable))
    → ℕ
    → Bytes
    → ℕ
    → Heap
    → Run (Option ℕ × Heap)
alloc_heap by_slab by_page_level given memory len h = elim (divide_size len) [
  | small_object ↦ alloc_data_from_page (alloc_data by_slab by_page_level len) given memory h
  | large_object ↦ alloc_data_from_page (alloc_data by_slab by_page_level len) given memory h
  | huge_object ↦ alloc_data_from_section given len h
]

-- `FreeDataFromPage`: by the first table that the block lies in; false if there is none.
unfoldable pub free_data_from_page : ℕ → ℕ → ℕ → List PageTable → Run (Bool × List PageTable)
free_data_from_page fuel addr size [] = done (false, [])
free_data_from_page fuel addr size (t ∷ pages) =
    let rest = free_data_from_page fuel addr size pages in
    if belong_to_table addr size t
    then (free_data fuel addr size t >>= λ t'. done (true, t' ∷ pages))
    else rest >>= λ r. done (r.0, t ∷ r.1)

-- `Free`; `FreeDataFromSection` does nothing.
unfoldable pub free_heap : ℕ → ℕ → ℕ → Heap → Run (Bool × Heap)
free_heap fuel addr size h =
    let from_page : Run (Bool × Heap) =
      free_data_from_page fuel addr size h.pages >>= λ r. done (r.0, record h { pages = r.1 }) in
    if addr == 0 then done (true, h) else elim (divide_size size) [
      | small_object ↦ from_page
      | large_object ↦ from_page
      | huge_object ↦ done (true, h)
    ]
