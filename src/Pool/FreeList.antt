-- ===== src/Pool/FreeList.antt =====
-- `FreeList` of kernel/pool/file_pool.h, a std::map from sizes to priority queues of blocks: a list in
-- the order of the sizes, each with the addresses of its blocks, the highest first.
use ad_index.Base.{ℕ, List, [], ◌∷◌, Option, none, some, ltb, ◌==◌, if◌then◌else◌}

abbrev pub FreeList : Type 0
FreeList = List (ℕ × List ℕ)

-- `std::priority_queue<Block>::push`, by the order of the addresses.
unfoldable pub push_queue : ℕ → List ℕ → List ℕ
push_queue addr [] = addr ∷ []
push_queue addr (a ∷ queue) = if ltb a addr then addr ∷ a ∷ queue else a ∷ push_queue addr queue

-- `free_list_[size].push(block)`
unfoldable pub push : ℕ → ℕ → FreeList → FreeList
unfolding push_queue
push size addr [] = (size, addr ∷ []) ∷ []
push size addr ((k, queue) ∷ rest) =
    if k == size
    then (k, push_queue addr queue) ∷ rest
    else if ltb size k
    then (size, addr ∷ []) ∷ (k, queue) ∷ rest
    else (k, queue) ∷ push size addr rest

-- The top of a queue, which is erased when it gets empty.
unfoldable pub pop_queue : ℕ → List ℕ → FreeList → Option (ℕ × FreeList)
pop_queue k [] rest = none
pop_queue k (a ∷ []) rest = some (a, rest)
pop_queue k (a ∷ b ∷ queue) rest = some (a, (k, b ∷ queue) ∷ rest)

-- The block that `AllocFromFreeList` takes for a size, and the list without it.
unfoldable pub pop : ℕ → FreeList → Option (ℕ × FreeList)
unfolding pop_queue
pop size [] = none
pop size ((k, queue) ∷ rest) =
    if k == size
    then pop_queue k queue rest
    else elim (pop size rest) [ none ↦ none | some r ↦ some (r.0, (k, queue) ∷ r.1) ]
