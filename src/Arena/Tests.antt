-- ===== src/Arena/Tests.antt =====
-- The theorems on a table with one free block, on a slab, a section and a heap of two sections.
use ad_index.Base.{
  inl, ◌>>=◌, ℕ, zero, suc, ◌+◌, ◌-◌, ◌*◌, ◌/◌, ◌<◌, ◌≤◌, ◌≡◌, refl, ◌∙◌, Bool, true, List, [], ◌∷◌,
  Option, some, ltb, if◌then◌else◌, leb, take, Bytes, done, fault, length, get_or, arith,
}
use ad_index.Pool.Cover.{covers, cover_queue, cover_blocks}
use ad_index.Arena.Levels.{
  invalid_addr, divide_size, HasLevel, divide_size-HasLevel, find_from, find_level,
  page_level_to_size,
}
use ad_index.Arena.Slab.{init_slab, alloc_block, head_size}
use ad_index.Arena.Items.{alloc_blocks, alloc_block-alloc_blocks}
use ad_index.Arena.Page.{put_u64, PageTable, get_unit_from_page_level, extend_page_mem}
use ad_index.Arena.Words.{get_u64-put_u64}
use ad_index.Arena.Lists.{cover_levels}
use ad_index.Arena.Units.{HasLists}
use ad_index.Arena.Giving.{Gives, get_unit_from_page_level-Gives}
use ad_index.Arena.Extending.{Extends, extend_page_mem-Extends}
use ad_index.Arena.Freeing.{adjacent, free_data_by_page}
use ad_index.Arena.Gaining.{CanFree}
use ad_index.Arena.Merging.{Freed, free_data_by_page-Freed}
use ad_index.Arena.Overflow.{free_data_by_page_beyond}
use ad_index.Arena.Section.{init_section}
use ad_index.Arena.Serving.{serve, serve-init_section}
use ad_index.Arena.Heap.{Heap}
use ad_index.Arena.Requests.{init_mmap}
use ad_index.Arena.Reload.{load_heap, alloc_all}
use ad_index.Arena.Reload.Losing.{load_heap-alloc_all}
use ad_index.Arena.Headers.{BuddyPool, do_alloc, write, do_free}
use ad_index.Arena.Written.{do_free-write}

-- One block of 8 KiB is free.
abbrev table : PageTable
table = record {
  begin = 0;
  end = 21384;
  current = 16384;
  next = invalid_addr;
  valid_flag = true;
  pages = invalid_addr ∷ 8192 ∷ invalid_addr ∷ invalid_addr ∷ invalid_addr ∷ invalid_addr ∷ [];
  slabs = [];
  memory = put_u64 (λ j. 0) 8192 invalid_addr;
}

abbrev queues : List (List ℕ)
queues = [] ∷ (8192 ∷ []) ∷ [] ∷ [] ∷ [] ∷ [] ∷ []

queues-cover : (x : ℕ) → cover_levels x 0 queues ≡ covers x 8192 8192
unfolding cover_levels cover_queue page_level_to_size
queues-cover x = omega arith

covers_once : (x a size : ℕ) → covers x a size ≤ 1
unfolding covers
covers_once x a size = ground arith

covers_behind : (x a size : ℕ) → a + size ≤ x → covers x a size ≡ 0
unfolding covers
covers_behind x a size behind = ground (arith, behind)

table-HasLists : HasLists table queues
table-HasLists = record {
  chains = (
    refl,
    (
      (refl, omega arith, get_u64-put_u64 (λ j. 0) 8192 invalid_addr (omega arith)),
      (refl, (refl, (refl, (refl, record {})))),
    ),
  );
  six = refl;
  once = λ x. omega (arith, queues-cover x, covers_once x 8192 8192);
  inside = λ x h. queues-cover x ∙ covers_behind x 8192 8192 (omega (arith, h));
}

divide_size-HasLevel_example : HasLevel (divide_size 5000) 5000
divide_size-HasLevel_example = divide_size-HasLevel 5000

get_unit_from_page_level-Gives_example : Gives (get_unit_from_page_level table) 0 0 table queues
get_unit_from_page_level-Gives_example = get_unit_from_page_level-Gives table queues table-HasLists

-- The block of 4 KiB fits behind, the one of 8 KiB does not.
extend_page_mem-Extends_example :
    (ok : Bool) × (t' : PageTable) × (extend_page_mem table ≡ done (ok, t'))
    × Extends table t' queues
    × (ok ≡ leb (16384 + 252 * 1024) 21384)
extend_page_mem-Extends_example = extend_page_mem-Extends table queues (record {
  lists = table-HasLists;
  started = omega arith;
  within = omega arith;
  below_invalid = omega arith;
  unused = λ x h. queues-cover x ∙ covers_behind x 8192 8192 (omega (arith, h));
})

-- Two blocks of 128 KiB side by side.
abbrev full_table : PageTable
full_table = record table {
  pages = invalid_addr ∷ invalid_addr ∷ invalid_addr ∷ invalid_addr ∷ invalid_addr ∷ 131072 ∷ [];
}

full_level : find_level 100000 ≡ 5
unfolding find_level find_from page_level_to_size
full_level = refl

full_adjacent : adjacent 131072 262144 (page_level_to_size 5) ≡ true
unfolding adjacent page_level_to_size
full_adjacent = refl

free_data_by_page_beyond_example : free_data_by_page 5 262144 100000 full_table ≡ fault
free_data_by_page_beyond_example =
    free_data_by_page_beyond 5 262144 100000 131072 full_table full_level refl refl (omega arith)
      full_adjacent

-- Queue by queue, as far as the lists go.
short_queues : (i : ℕ) → length (get_or queues i []) < 5
short_queues zero = omega arith
short_queues (suc zero) = omega arith
short_queues (suc (suc zero)) = omega arith
short_queues (suc (suc (suc zero))) = omega arith
short_queues (suc (suc (suc (suc zero)))) = omega arith
short_queues (suc (suc (suc (suc (suc zero))))) = omega arith
short_queues (suc (suc (suc (suc (suc (suc i)))))) = omega arith

second_level : find_level 8000 ≡ 1
unfolding find_level find_from page_level_to_size
second_level = refl

second_size : page_level_to_size 1 ≡ 8192
unfolding page_level_to_size
second_size = refl

freed-CanFree : CanFree 5 16384 (find_level 8000) queues
freed-CanFree = rw second_level (record {
  ends = omega (arith, second_size);
  free = λ x low high. queues-cover x ∙ covers_behind x 8192 8192 (omega (arith, low));
  top = queues-cover (invalid_addr - 1) ∙ covers_behind (invalid_addr - 1) 8192 8192 (omega arith);
  enough = λ i l. short_queues i;
})

-- The block beside the free one is joined with it.
free_data_by_page-Freed_example :
    Freed (free_data_by_page 5 16384 8000 table) 16384 (page_level_to_size (find_level 8000)) queues
free_data_by_page-Freed_example =
    free_data_by_page-Freed 5 16384 8000 table queues table-HasLists (omega arith) freed-CanFree

alloc_block-alloc_blocks_example :
    ((alloc_block (alloc_blocks 2 (init_slab 8192 1000))).0
      ≡ (if ltb 2 ((4096 - head_size) / 1000) then 8192 + head_size + 1000 * 2 else 0))
    × ((alloc_block (alloc_blocks 2 (init_slab 8192 1000))).0 + 1000 ≤ 8192 + 4096)
alloc_block-alloc_blocks_example = alloc_block-alloc_blocks 2 8192 1000 (omega arith) (omega arith)

serve-init_section_example :
    cover_blocks (λ len. len) 1000 (serve (200000 ∷ 300000 ∷ 900000 ∷ []) (init_section 0))
    ≤ covers 1000 (0 + 40) (1024 * 1024 - 40)
serve-init_section_example =
    serve-init_section 1000 0 (200000 ∷ 300000 ∷ 900000 ∷ [])
      (omega arith, (omega arith, (omega arith, record {}))) (omega arith)

abbrev requests : List (ℕ × ℕ)
requests = (12100000, 600000) ∷ (13200000, 600000) ∷ []

load_heap-alloc_all_example :
    (h : Heap) × ((init_mmap 64 112 11000000 (λ j. 0) >>= λ begun. alloc_all requests begun)
      ≡ done h)
    × (load_heap 3 64 112 11000000 (λ j. 0) h ≡ done (record h { sections = take 1 h.sections }))
load_heap-alloc_all_example =
    load_heap-alloc_all 1 64 112 11000000 (λ j. 0) requests (omega arith) (omega arith)
      (omega arith) (omega arith) (omega arith)
      (
        omega arith,
        omega arith,
        (inl (omega arith), record {}),
        (omega arith, omega arith, record {}, record {}),
      )

-- A heap that gives what was not given before, and notes what is freed.
abbrev alloc_next : ℕ → List ℕ → Option ℕ × List ℕ
alloc_next size freed = (some 100, freed)

abbrev free_noted : ℕ → ℕ → List ℕ → Bool × List ℕ
free_noted addr size freed = (true, size ∷ freed)

abbrev plain_write : ℕ → List ℕ → Bytes → Bool × Bytes
plain_write addr bytes m = (true, λ j. if ltb j addr then m j else 7)

plain_write-behind : (addr j : ℕ) (m : Bytes) → j < addr → (if ltb j addr then m j else 7) ≡ m j
plain_write-behind addr j m h = ground (arith, h)

abbrev pool : BuddyPool (List ℕ)
pool = record { heap = []; memory = λ j. 0 }

do_free-write_example :
    let p' = (do_alloc alloc_next 5000 pool).1 in
    ((do_free free_noted 104 5000 p').1.heap ≡ 5004 ∷ [])
    × ((do_free free_noted 104 5000 (write plain_write 104 (1 ∷ 2 ∷ []) p').1).1.heap ≡ 6 ∷ [])
do_free-write_example =
    do_free-write alloc_next free_noted plain_write 5000 5000 100 (1 ∷ 2 ∷ []) [] pool
      (λ addr bytes m j h. plain_write-behind addr j m h) (omega arith) (omega arith) refl
