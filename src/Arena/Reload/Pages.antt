-- ===== src/Arena/Reload/Pages.antt =====
-- The page tables of heap_mem_manager.h while huge blocks are asked for, and when they are found again.
use ad_index.Base.{ℕ, zero, suc, ◌+◌, ◌*◌, ◌≡◌, ◌≢◌, refl, ◌∙◌, List, [], ◌∷◌, Bytes, done, arith}
use ad_index.Arena.Levels.{invalid_addr, page_max_levels, slab_max_levels, page_level_to_size}
use ad_index.Arena.Page.{PageTable, alloc_mem, init_pages, init_table}
use ad_index.Arena.Heap.{Heap, update_section_offset, added_section}
use ad_index.Arena.Reload.{page_at, load_pages}
use ad_index.Arena.Reload.Sections.{alloc_huge, alloc_each}

alloc_mem-next :
    (len : ℕ) (t : PageTable)
    → ((alloc_mem len t).1.begin ≡ t.begin) × ((alloc_mem len t).1.next ≡ t.next)
unfolding alloc_mem
alloc_mem-next len t = ground arith

init_pages-next :
    (left level : ℕ) (t : PageTable)
    → ((init_pages left level t).begin ≡ t.begin) × ((init_pages left level t).next ≡ t.next)
unfolding init_pages
init_pages-next zero level t = (refl, refl)
init_pages-next (suc left) level t =
    let more = init_pages-next left (level + 1) _ in
    let once = alloc_mem-next (page_level_to_size level) t in (more.0 ∙ once.0, more.1 ∙ once.1)

pub init_table-next :
    (page : ℕ) (memory : Bytes)
    → ((init_table page memory).begin ≡ page) × ((init_table page memory).next ≡ invalid_addr)
unfolding init_table
init_table-next page memory =
    let more = init_pages-next page_max_levels 0 _ in
    let once = alloc_mem-next (40 + page_max_levels * 8 + slab_max_levels * 16) _ in
    (more.0 ∙ once.0, more.1 ∙ once.1)

pub load_pages-one :
    (fuel page : ℕ) (t : PageTable)
    → page ≢ invalid_addr
    → t.begin ≡ page
    → t.next ≡ invalid_addr
    → load_pages (fuel + 2) page (t ∷ []) ≡ done (t ∷ [])
unfolding load_pages page_at
load_pages-one fuel page t valid begins ends = ground (arith, valid, begins, ends)

-- What the head and the page tables of a heap are when only huge blocks were asked for.
unfoldable pub KeepsPages : Heap → Heap → Type 0
KeepsPages h h' =
    (h'.pages ≡ h.pages)
    × (h'.head.page_mem_start ≡ h.head.page_mem_start)
    × (h'.head.end ≡ h.head.end)

alloc_data-KeepsPages : (given len : ℕ) (h : Heap) → KeepsPages h (alloc_huge given len h).1
unfolding KeepsPages alloc_huge added_section update_section_offset
alloc_data-KeepsPages given len h = ground arith

pub alloc_each-KeepsPages :
    (requests : List (ℕ × ℕ)) (h : Heap) → KeepsPages h (alloc_each requests h)
unfolding KeepsPages alloc_each
alloc_each-KeepsPages [] h = (refl, refl, refl)
alloc_each-KeepsPages (r ∷ requests) h =
    let more = alloc_each-KeepsPages requests _ in
    let once = alloc_data-KeepsPages r.0 r.1 h in
    (more.0 ∙ once.0, more.1 ∙ once.1, more.2 ∙ once.2)
