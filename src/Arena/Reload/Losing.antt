-- ===== src/Arena/Reload/Losing.antt =====
-- What `Init` of kernel/pool/arena_buddy_pool/heap_mem_manager.h finds of a heap that was added to.
use ad_index.Base.{
  ℕ, ◌+◌, ◌*◌, ◌^◌, ◌≤◌, ◌≡◌, ◌≢◌, u64_mod, sym, ap, ap₂, ◌∙◌, List, take, Bytes, done, ◌>>=◌,
  arith,
}
use ad_index.Arena.Levels.{invalid_addr}
use ad_index.Arena.Page.{PageTable, init_table}
use ad_index.Arena.Section.{Section}
use ad_index.Arena.Heap.{Heap}
use ad_index.Arena.Requests.{begun_heap, init_mmap}
use ad_index.Arena.Reload.{load_sections, load_pages, load_heap, alloc_all, AreBehind}
use ad_index.Arena.Reload.Sections.{
  alloc_each, alloc_each-EndsAt, begun_heap-EndsAt, load_sections-first, AreBehind-AreApart,
  alloc_all-alloc_each,
}
use ad_index.Arena.Reload.Pages.{init_table-next, load_pages-one, alloc_each-KeepsPages, KeepsPages}

load_heap-found :
    (fuel start page section : ℕ) (memory : Bytes) (h : Heap) (pages : List PageTable)
    (sections : List Section)
    → h.head.end ≢ 0
    → load_pages fuel h.head.page_mem_start h.pages ≡ done pages
    → load_sections fuel h.head.section_mem_start h.sections ≡ done sections
    → load_heap fuel start page section memory h
      ≡ done (record h { pages = pages; sections = sections })
unfolding load_heap
load_heap-found fuel start page section memory h pages sections begun p s =
    rw (p, s) (ground (arith, begun))

-- Whatever huge blocks are asked for after the heap began, with the head of the heap, the first page table, the first
-- section behind it and every section more behind that in memory of their own, the first two tables at valid
-- addresses, each is served or refused without a write outside that memory, and a later Init finds the page table and
-- of the sections the first and no other.
pub load_heap-alloc_all :
    (fuel start page section : ℕ) (memory : Bytes) (requests : List (ℕ × ℕ))
    → start + 48 ≤ page
    → page + 10 * 2 ^ 20 ≤ section
    → section + 2 ^ 20 ≤ u64_mod
    → page ≢ invalid_addr
    → section ≢ invalid_addr
    → AreBehind (section + 2 ^ 20) requests
    → (h : Heap) × ((init_mmap start page section memory >>= λ begun. alloc_all requests begun)
        ≡ done h)
      × (load_heap (fuel + 2) start page section memory h
          ≡ done (record h { sections = take 1 h.sections }))
unfolding init_mmap begun_heap KeepsPages
load_heap-alloc_all fuel start page section memory requests head_in table_in section_in page_valid
      valid behind =
    let begun = begun_heap start page section memory in
    let h = alloc_each requests begun in
    let started : init_mmap start page section memory ≡ done begun =
      ground (arith, head_in, table_in) in
    let apart = AreBehind-AreApart section (section + 2 ^ 20) requests (omega arith) behind in
    let given = AreBehind-AreApart 0 (section + 2 ^ 20) requests (omega arith) behind in
    let ends =
      alloc_each-EndsAt section requests _ apart
        (begun_heap-EndsAt start page section memory valid) in
    let kept = alloc_each-KeepsPages requests begun in
    let table = init_table-next page memory in
    let sections =
      ap (λ o. load_sections (fuel + 2) o h.sections) ends.start_first
      ∙ load_sections-first fuel section h.sections valid ends.first in
    let pages =
      ap₂ (λ o ps. load_pages (fuel + 2) o ps) kept.1 kept.0
      ∙ (load_pages-one fuel page (init_table page memory) page_valid table.0 table.1
          ∙ ap done (sym kept.0)) in
    (
      h,
      ap (λ r. r >>= λ begun'. alloc_all requests begun') started
          ∙ alloc_all-alloc_each requests begun given,
      load_heap-found (fuel + 2) start page section memory h h.pages (take 1 h.sections)
          (omega (arith, kept.2)) pages sections,
    )
