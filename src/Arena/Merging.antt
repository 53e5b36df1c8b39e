-- ===== src/Arena/Merging.antt =====
-- What `MergePageLevel` makes of the lists: they gain the block that is freed.
use ad_index.Base.{
  ℕ, zero, suc, ◌+◌, ◌*◌, ◌<◌, ◌≤◌, ◌≡◌, ◌⊎◌, inl, inr, ◌∙◌, ltb, ltb→lt, List, Bool-cases, set,
  min, Run, done, fault, arith,
}
use ad_index.Arena.Levels.{page_level_to_size, find_level, large-HasLevel}
use ad_index.Arena.Page.{PageTable}
use ad_index.Arena.Units.{HasLists}
use ad_index.Arena.Pushing.{put_first, with_first, put_first-HasLists, cover-put_first}
use ad_index.Arena.Freeing.{merge_page_level, free_data_by_page}
use ad_index.Arena.Joining.{merge_page_level-Joins}
use ad_index.Arena.Gaining.{
  Frees, Overflows, CanFree, next-CanFree, next-Frees, next-Overflows, last_level, last-Overflows,
}

-- The two outcomes.
abbrev pub Freed : Run PageTable → ℕ → ℕ → List (List ℕ) → Type 0
Freed r a size queues =
    ((r ≡ fault) × Overflows a size queues)
    ⊎ ((t' : PageTable) × (r ≡ done t') × Frees a size queues t')

pushed-Frees :
    (fuel a level : ℕ) (t : PageTable) (queues : List (List ℕ))
    → HasLists t queues
    → level < 6
    → CanFree fuel a level queues
    → Frees a (page_level_to_size level) queues (put_first level a t)
pushed-Frees fuel a level t queues h l c = record {
  queues' = with_first level a queues;
  lists = put_first-HasLists t queues level a h l (omega (arith, c.ends)) c.free;
  gained = λ x. cover-put_first x level a queues h.six l;
}

pub merge_page_level-Freed :
    (left fuel a level : ℕ) (t : PageTable) (queues : List (List ℕ))
    → HasLists t queues
    → level < 6
    → 6 ≤ level + left
    → CanFree fuel a level queues
    → Freed (merge_page_level (suc left) fuel a level t) a (page_level_to_size level) queues
merge_page_level-Freed zero fuel a level t queues h l e c = absurd (omega (arith, l, e))
merge_page_level-Freed (suc left) fuel a level t queues h l e c =
    elim (merge_page_level-Joins (suc left) fuel a level t queues h l c.ends c.free
      (c.enough level (omega arith))) [
        | inl run ↦ inr (put_first level a t, run, pushed-Frees fuel a level t queues h l c)
        | inr j ↦ elim (Bool-cases (ltb (level + 1) 6)) [
          | inl more ↦
              let rest =
                merge_page_level-Freed left fuel (min a j.block) (level + 1) j.t'
                  (set queues level j.more) j.lists (ltb→lt (level + 1) 6 more) (omega (arith, e))
                  (next-CanFree (suc left) fuel a level t queues h l c j) in
              elim rest [
                | inl (run, o) ↦
                    inl (j.run ∙ run, next-Overflows (suc left) fuel a level t queues h l c j o)
                | inr (t', run, f) ↦
                    inr (t', j.run ∙ run, next-Frees (suc left) fuel a level t queues h l c j t' f)
              ]
          | inr last ↦
              let at_last : level ≡ 5 = ground (arith, last, l) in
              inl (
                j.run ∙ last_level (suc left) fuel a level t queues h l c j at_last left,
                last-Overflows (suc left) fuel a level t queues h l c j at_last,
              )
        ]
      ]

-- A block of fewer than 128 KiB that is not in the lists, which hold blocks that do not overlap, and can be freed is
-- added to what the lists cover, whatever blocks it is joined with on the way; or the code leaves the array of lists,
-- and then two blocks of the highest level, of bytes that were freed or free, lie side by side.
pub free_data_by_page-Freed :
    (fuel addr size : ℕ) (t : PageTable) (queues : List (List ℕ))
    → HasLists t queues
    → size < 128 * 1024
    → CanFree fuel addr (find_level size) queues
    → Freed (free_data_by_page fuel addr size t) addr (page_level_to_size (find_level size)) queues
unfolding free_data_by_page
free_data_by_page-Freed fuel addr size t queues h large c =
    merge_page_level-Freed 7 fuel addr (find_level size) t queues h
      (large-HasLevel size large).exists (omega arith) c
