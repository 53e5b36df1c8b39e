-- ===== src/Arena/Rounds.antt =====
-- The rounds of `MergePageLevel` of page_mem_table.cc, by what its tests find.
use ad_index.Base.{
  ℕ, suc, ◌+◌, ◌^◌, ◌<◌, ◌≤◌, ◌≡◌, ◌⊎◌, inl, inr, refl, true, false, List, [], ◌∷◌, some, none,
  get_elem?, set, done, arith,
}
use ad_index.Arena.Levels.{invalid_addr, page_level_to_size}
use ad_index.Arena.Page.{get_u64, put_u64, PageTable}
use ad_index.Arena.Freeing.{adjacent, merge_scan, merge_page_level}

pub sides :
    (b a size : ℕ)
    → b < invalid_addr
    → a < invalid_addr
    → 0 < size
    → size ≤ 2 ^ 17
    → adjacent b a size ≡ true
    → (a + size ≡ b) ⊎ (b + size ≡ a)
unfolding adjacent
sides b a size bv av some_bytes few side = ground (arith, bv, av, some_bytes, few, side)

pub beside_none :
    (a size : ℕ) → 0 < size → a + size < invalid_addr → adjacent invalid_addr a size ≡ false
unfolding adjacent
beside_none a size some_bytes ends = ground (arith, some_bytes, ends)

-- After the block is put first, and no second block of the list is side by side with it at once.
pub merge_later :
    (left fuel head level now : ℕ) (t : PageTable)
    → get_elem? t.pages level ≡ some now
    → get_u64 (put_u64 t.memory head now) head ≡ now
    → adjacent now head (page_level_to_size level) ≡ false
    → (r : _)
    → merge_scan fuel head now head level
        (record t { memory = put_u64 t.memory head now; pages = set t.pages level head })
      ≡ done (none, r)
    → merge_page_level (suc left) fuel head level t ≡ done r
unfolding merge_page_level
merge_later left fuel head level now t list stored apart r scan =
    ground (arith, list, stored, apart, scan)

pub merge_found :
    (left fuel head level now block : ℕ) (t t' : PageTable)
    → get_elem? t.pages level ≡ some now
    → get_u64 (put_u64 t.memory head now) head ≡ now
    → adjacent now head (page_level_to_size level) ≡ false
    → merge_scan fuel head now head level
        (record t { memory = put_u64 t.memory head now; pages = set t.pages level head })
      ≡ done (some block, t')
    → merge_page_level (suc left) fuel head level t
      ≡ merge_page_level left fuel block (level + 1) t'
unfolding merge_page_level
merge_found left fuel head level now block t t' list stored apart scan =
    ground (arith, list, stored, apart, scan)

pub list_cases : (xs : List ℕ) → (xs ≡ []) ⊎ ((b : ℕ) × (rest : List ℕ) × (xs ≡ b ∷ rest))
list_cases [] = inl refl
list_cases (b ∷ rest) = inr (b, rest, refl)
