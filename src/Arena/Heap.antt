-- ===== src/Arena/Heap.antt =====
-- `HeapMemManager` of kernel/pool/arena_buddy_pool/heap_mem_manager.{h,cc}. The offset that `Alloc` gives is an argument,
-- and so is what `AllocBySlab` and `AllocByPageLevel` do, since page_mem_table.cc has the one without a head and the
-- other in part.
use ad_index.Base.{
  ℕ, List, [], ◌∷◌, ◌++◌, map, Option, none, some, ◌==◌, if◌then◌else◌, Run, done, fault,
}
use ad_index.Arena.Levels.{invalid_addr}
use ad_index.Arena.Page.{PageTable}
use ad_index.Arena.Section.{Section, init_section, alloc_section}

-- `HeapHead`, of 48 bytes.
pub record HeapHead : Type 0 where
  pub begin : ℕ
  pub end : ℕ
  pub page_mem_start : ℕ
  pub page_mem_end : ℕ
  pub section_mem_start : ℕ
  pub section_mem_end : ℕ

pub record Heap : Type 0 where
  pub head : HeapHead
  pub pages : List PageTable
  pub sections : List Section

-- `head->next = offset`, for the table that begins at `last`.
unfoldable pub link_section : ℕ → ℕ → List Section → List Section
link_section last offset sections =
    map (λ s. if s.begin == last then record s { next = offset } else s) sections

unfoldable pub link_page : ℕ → ℕ → List PageTable → List PageTable
link_page last offset pages =
    map (λ t. if t.begin == last then record t { next = offset } else t) pages

unfoldable pub update_section_offset : ℕ → Heap → Heap
update_section_offset offset h =
    if h.head.section_mem_end == invalid_addr
    then record h { head = record h.head { section_mem_end = offset } }
    else record h { sections = link_section h.head.section_mem_end offset h.sections }

unfoldable pub update_page_offset : ℕ → Heap → Heap
update_page_offset offset h =
    if h.head.page_mem_end == invalid_addr
    then record h { head = record h.head { page_mem_end = offset } }
    else record h { pages = link_page h.head.page_mem_end offset h.pages }

-- The loop of `AllocDataFromSection`: the first section that has room.
unfoldable pub alloc_from_sections : ℕ → List Section → Option ℕ × List Section
alloc_from_sections len [] = (none, [])
alloc_from_sections len (s ∷ sections) =
    let r = alloc_section len s in
    let rest = alloc_from_sections len sections in
    elim r.0 [ some a ↦ (some a, r.1 ∷ sections) | none ↦ (rest.0, r.1 ∷ rest.1) ]

-- The section that is added, and what it gives.
unfoldable pub added_section : ℕ → ℕ → Heap → Option ℕ × Heap
added_section given len h =
    let h' =
      update_section_offset given (record h { sections = h.sections ++ init_section given ∷ [] }) in
    let r = alloc_section len (init_section given) in
    (
      r.0,
      record h' {
        sections =
            map (λ s. if s.begin == given then record s { current = r.1.current } else s)
              h'.sections;
      },
    )

-- An `Alloc` that fails gives 0, which is not looked at: the head of the section is then written outside any block that
-- was given, over the head of the heap, which lies at `begin_`.
unfoldable pub extend_section : ℕ → ℕ → Heap → Run (Option ℕ × Heap)
extend_section given len h = if given == 0 then fault else done (added_section given len h)

unfoldable pub alloc_data_from_section : ℕ → ℕ → Heap → Run (Option ℕ × Heap)
alloc_data_from_section given len h =
    let r = alloc_from_sections len h.sections in
    let h' : Heap = record h { sections = r.1 } in
    elim r.0 [ some a ↦ done (some a, h') | none ↦ extend_section given len h' ]
