-- ===== src/Arena/Reload.antt =====
-- How `Init` of kernel/pool/arena_buddy_pool/heap_mem_manager.h finds the tables of a heap that is there already: from
-- the first on, by `next`. They are in memory where they were.
pub mod Sections
pub mod Pages
pub mod Losing
use ad_index.Base.{
  ℕ, zero, suc, ◌+◌, ◌*◌, ◌⊎◌, ◌^◌, u64_mod, ◌≡◌, ◌≢◌, ◌≤◌, refl, sym, ap, ◌∙◌, Bool, true, false,
  List, [], ◌∷◌, ◌++◌, map, take, Option, none, some, ◌==◌, if◌then◌else◌, Bytes, Run, done, fault,
  out_of_fuel, ◌>>=◌, read, arith, Bool-cases, inl, inr,
}
use ad_index.Arena.Levels.{invalid_addr, page_max_levels, slab_max_levels, page_level_to_size}
use ad_index.Arena.Page.{PageTable, alloc_mem, init_pages, init_table}
use ad_index.Arena.Section.{Section, init_section, alloc_section}
use ad_index.Arena.Heap.{
  HeapHead, Heap, link_section, update_section_offset, alloc_from_sections, extend_section,
  alloc_data_from_section,
}
use ad_index.Arena.Requests.{init_mmap}

-- The head at an offset.
unfoldable pub section_at : ℕ → List Section → Option Section
section_at offset [] = none
section_at offset (s ∷ sections) = if s.begin == offset then some s else section_at offset sections

unfoldable pub load_sections : ℕ → ℕ → List Section → Run (List Section)
load_sections zero offset stored = out_of_fuel
load_sections (suc fuel) offset stored =
    if offset == invalid_addr
    then done []
    else read (section_at offset stored) >>= λ s.
        load_sections fuel s.next stored >>= λ rest. done (s ∷ rest)

unfoldable pub page_at : ℕ → List PageTable → Option PageTable
page_at offset [] = none
page_at offset (t ∷ pages) = if t.begin == offset then some t else page_at offset pages

unfoldable pub load_pages : ℕ → ℕ → List PageTable → Run (List PageTable)
load_pages zero offset stored = out_of_fuel
load_pages (suc fuel) offset stored =
    if offset == invalid_addr
    then done []
    else read (page_at offset stored) >>= λ t.
        load_pages fuel t.next stored >>= λ rest. done (t ∷ rest)

-- `Init`, with the heap that is in memory and the offsets that `InitMmap` would be given.
unfoldable pub load_heap : ℕ → ℕ → ℕ → ℕ → Bytes → Heap → Run Heap
load_heap fuel start page section memory h =
    let loaded : Run Heap = load_pages fuel h.head.page_mem_start h.pages >>= λ pages.
    load_sections fuel h.head.section_mem_start h.sections >>= λ sections.
    done (record h { pages = pages; sections = sections }) in
    if h.head.end == 0 then init_mmap start page section memory else loaded

-- Huge blocks asked for one after another, each with the offset that `Alloc` would give for a section more.
unfoldable pub alloc_all : List (ℕ × ℕ) → Heap → Run Heap
alloc_all [] h = done h
alloc_all (r ∷ requests) h = alloc_data_from_section r.0 r.1 h >>= λ a. alloc_all requests a.1

-- A section of 1 MiB overlaps with none of those given later.
abbrev pub IsAway : ℕ → List (ℕ × ℕ) → Type 0
IsAway given [] = Unit {0}
IsAway given (r ∷ requests) =
    ((given + 2 ^ 20 ≤ r.0) ⊎ (r.0 + 2 ^ 20 ≤ given)) × IsAway given requests

-- Each new section lies behind an address, and no two of them overlap.
abbrev pub AreBehind : ℕ → List (ℕ × ℕ) → Type 0
AreBehind end [] = Unit {0}
AreBehind end (r ∷ requests) =
    (end ≤ r.0) × (r.0 + 2 ^ 20 ≤ u64_mod) × IsAway r.0 requests × AreBehind end requests
