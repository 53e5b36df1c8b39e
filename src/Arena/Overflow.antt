-- ===== src/Arena/Overflow.antt =====
-- What becomes of two blocks of the highest level side by side.
use ad_index.Base.{
  ℕ, suc, ◌+◌, ◌<◌, ◌≡◌, refl, ap, ◌∙◌, true, some, length, length-set, get_elem?, set, u64_mod,
  fault, min, arith,
}
use ad_index.Arena.Levels.{find_level, page_level_to_size}
use ad_index.Arena.Page.{get_u64, put_u64, PageTable}
use ad_index.Arena.Words.{get_u64-put_u64, get_elem?-none}
use ad_index.Arena.Freeing.{adjacent, merge_page_level, free_data_by_page}

pub merge_beyond :
    (left fuel head : ℕ) (t : PageTable)
    → length t.pages ≡ 6
    → merge_page_level (suc left) fuel head 6 t ≡ fault
unfolding merge_page_level
merge_beyond left fuel head t six = rw (get_elem?-none t.pages 6 (omega (arith, six))) refl

-- A block side by side with the first of its list.
pub merge_first :
    (left fuel head level now : ℕ) (t : PageTable)
    → get_elem? t.pages level ≡ some now
    → get_u64 (put_u64 t.memory head now) head ≡ now
    → adjacent now head (page_level_to_size level) ≡ true
    → merge_page_level (suc left) fuel head level t
      ≡ merge_page_level left fuel (min head now) (level + 1) (record t {
        memory = put_u64 t.memory head now;
        pages = set (set t.pages level head) level (get_u64 (put_u64 t.memory head now) now);
      })
unfolding merge_page_level
merge_first left fuel head level now t list stored side = ground (arith, list, stored, side)

-- A block of the highest level cannot be freed in a table of six lists when the list of that level begins with a
-- block side by side with it: it is merged into a level behind the array of lists.
pub free_data_by_page_beyond :
    (fuel addr size now : ℕ) (t : PageTable)
    → find_level size ≡ 5
    → length t.pages ≡ 6
    → get_elem? t.pages 5 ≡ some now
    → now < u64_mod
    → adjacent now addr (page_level_to_size 5) ≡ true
    → free_data_by_page fuel addr size t ≡ fault
unfolding free_data_by_page
free_data_by_page_beyond fuel addr size now t level six list small side =
    ap (λ l. merge_page_level 8 fuel addr l t) level
    ∙ (merge_first 7 fuel addr 5 now t list (get_u64-put_u64 t.memory addr now small) side
        ∙ merge_beyond 6 fuel (min addr now) _
            (length-set (set t.pages 5 addr) 5 _ ∙ (length-set t.pages 5 addr ∙ six)))
